-- ===== src/Examples.antt =====
-- Runs of the models at concrete inputs, and the theorems applied to them.
mod Data
mod Confirming
mod Dispatching
mod Scheduling
mod Working
mod Keeping
mod Piping
mod Merging
mod Looping
mod Splitting
mod Remembering
mod Routing
