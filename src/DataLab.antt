-- ===== src/DataLab.antt =====
-- The bit puzzles of 1.DataLab/datalab-handout.
pub mod Words
pub mod Digits
pub mod Sign
pub mod Bits
pub mod Fields
pub mod Floats
