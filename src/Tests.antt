-- ===== src/Tests.antt =====
-- Runs of the model on concrete inputs, and the theorems at such inputs.
mod Wire
mod Hashes
mod Messaging
mod Keys
mod MessageTypes
mod Noise
mod Concurrent
mod Connection
mod CustomJob
mod Fields
mod Grinder
mod Handshake
mod Examples
