-- ===== src/Examples.antt =====
-- The theorems at concrete inputs.
mod Registering
mod Values
mod Serving
mod Guarding
mod Observing
mod Checking
mod Sending
mod Connecting
