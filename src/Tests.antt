-- ===== src/Tests.antt =====
-- The theorems at concrete inputs, and runs of the model.
pub mod Models
mod Codecs
mod Muxes
mod Readers
mod Streams
pub mod Handles
mod Pods
mod Sessions
mod Writers
mod Forwarders
