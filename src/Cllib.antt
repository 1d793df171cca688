-- ===== src/Cllib.antt =====
-- The library that all benchmarks share: cllib/.
pub mod Errors
pub mod Platforms
pub mod Select
pub mod Getopt
pub mod Clock
pub mod Dirname
pub mod Info
pub mod Kernels
