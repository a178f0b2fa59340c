-- ===== src/Examples.antt =====
-- Small inputs at which the theorems apply.
mod Coverage
mod Json
mod Inputs
mod Runner
mod Schema
mod Library
mod Driver
mod Registry
mod Groups
