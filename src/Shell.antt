-- ===== src/Shell.antt =====
-- The shell, 5.Shell_lab/shlab-handout/tsh.c: its job list, its command lines, its signal handlers and
-- the commands it runs.
pub mod Jobs
pub mod Line
pub mod Command
