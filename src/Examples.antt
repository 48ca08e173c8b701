-- ===== src/Examples.antt =====
-- Tests of the models on small inputs, and each theorem at an input that meets its conditions.
pub mod Pools
mod Keepers
mod Tables
pub mod Pages
pub mod Engines
mod Lenders
mod Workers
pub mod Reads
mod Unloads
mod Orders
mod Turns
mod Threads
