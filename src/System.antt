-- ===== src/System.antt =====
-- utils/system: the numbers that /proc/meminfo and /proc/stat give.
pub mod Memory
pub mod Cpu
