-- ===== src/Msi.antt =====
-- toxav/msi.c: the signalling of audio and video calls.
pub mod Message
pub mod Codec
pub mod Session
pub mod Handlers
pub mod Container
pub mod Steps
pub mod States
pub mod Defects
pub mod Runs
mod Tests
