-- ===== src/Audio.antt =====
-- packages/dart_edge_audio/rust/src/lib.rs: target formats, channels, PCM16 sessions, waveforms, the
-- stream of bytes in memory and the tags of a RIFF file.
pub mod Sample
pub mod Format
pub mod Remix
pub mod Pcm16
pub mod Convert
pub mod Peaks
pub mod Waveform
pub mod Pushing
pub mod Frames
pub mod Shape
pub mod Held
pub mod Gathering
pub mod Observed
pub mod SessionRun
pub mod Streaming
pub mod Envelope
pub mod Buckets
pub mod Observing
pub mod Levels
pub mod Tiling
pub mod MemoryStream
pub mod MemoryRead
pub mod Sending
mod Tests
