-- ===== src/Tests.antt =====
-- Runs of the model, and the theorems at concrete inputs.
mod Frames
mod Calls
mod Invocations
mod Tasks
mod Optionals
mod Owners
mod Workers
mod Snakes
mod Nodes
mod Imports
