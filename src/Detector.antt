-- ===== src/Detector.antt =====
-- internal/detector: the types that detectors and the engine share, and the detectors.
pub mod Types
pub mod Truncate
pub mod Signal
pub mod Labels
pub mod Exit
pub mod CrashLoop
pub mod HostOom
pub mod Expected
pub mod Gate
pub mod Memory
