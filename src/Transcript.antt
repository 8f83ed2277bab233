-- ===== src/Transcript.antt =====
-- Transcripts: from the cues of a WebVTT file to segments (internal/transcript).
pub mod Normalize
pub mod Parse
