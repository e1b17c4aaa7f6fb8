-- ===== src/Tests.antt =====
-- Runs on concrete input, and the theorems at it.
mod Data
mod Processor
mod Config
mod Schema
mod Registry
mod Requests
mod Hooks
mod Alike
mod Interpret
mod Time
mod System
