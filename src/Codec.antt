-- ===== src/Codec.antt =====
-- Flutter's standard message codec, as the platform channels of the embedder read and write it:
-- flutter_engine/platform_channels.
pub mod Bytes
pub mod EncodableValue
pub mod Stream
pub mod Writer
pub mod Reader
pub mod Supported
pub mod Parts
pub mod RoundTrip
pub mod Termination
pub mod Vectors
pub mod Method
pub mod Envelopes
pub mod Examples
