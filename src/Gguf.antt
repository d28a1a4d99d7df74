-- ===== src/Gguf.antt =====
-- app/gguf: the header, the metadata and the tensor table of a model file.
pub mod Parser
pub mod Number
pub mod Value
pub mod Written
pub mod Metadata
pub mod Reader
pub mod Rows
pub mod RoundTrip
pub mod Bounds
pub mod Refused
pub mod Fuel
pub mod Tests
