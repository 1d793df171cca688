-- ===== src/Tests.antt =====
-- Runs of the definitions at concrete inputs, and each theorem at an input that meets its premises.
mod Latency
mod Arith
mod Bandwidth
mod CommandLine
mod Cllib
mod Options
mod Info
mod Releases
mod Runs
mod Mains
