-- ===== src/Malloc.antt =====
-- The allocators, 6.Malloc_lab/malloclab-handout: the memory that they ask for, their words and blocks,
-- and the allocator with an implicit free list.
pub mod Mem
pub mod Words
pub mod Blocks
pub mod Implicit
