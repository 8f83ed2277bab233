-- ===== src/Orchestration.antt =====
-- Orchestration: recommendations to the creator of a session and the drafts of answers
-- (internal/orchestration, internal/handlers/orchestration_draft_guard.go).
pub mod Model
pub mod Advice
pub mod Evaluate
pub mod Guard
pub mod Sync
