-- ===== src/Examples.antt =====
-- Runs of the models at concrete inputs.
mod Sizes
mod Slabs
mod Lists
mod Registry
mod Encoding
mod Pools
mod Heaps
mod Bins
mod Worlds
mod Threads
mod Sampling
