-- ===== src/Checks.antt =====
-- Concrete states, and the theorems applied to them.
mod State
mod Storage
mod Regions
mod Values
mod Machine
mod Flow
mod Code
mod Source
mod Processor
