-- ===== src/Tests.antt =====
-- Concrete runs of the modelled code, and each theorem applied to concrete data.
mod Layout
mod Data
mod Link
mod Parsing
mod Decoding
mod Databases
mod Scheduling
mod Buffering
mod Threads
mod Services
mod Shell
mod Traffic
mod Stages
mod Devices
