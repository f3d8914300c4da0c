-- ===== src/Tests.antt =====
-- Runs of the models on concrete inputs, and instances of the theorems.
mod Voice
mod Text
mod Detectors
mod Agent
mod Memory
mod Capture
mod Session
mod BargeIn
mod Microphone
