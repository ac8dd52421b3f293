-- ===== src/Tests.antt =====
-- The theorems at concrete inputs, with the parameters of the model instantiated by `Toy`.
mod Toy
mod Annotations
mod Expansion
mod Groups
mod Parallel
mod Locks
mod Startup
mod Volumes
mod Policies
mod Delivered
