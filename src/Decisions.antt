-- ===== src/Decisions.antt =====
-- Who takes part in the decision of a session, and what they think of it (internal/database,
-- internal/handlers/session_stances.go).
pub mod Members
pub mod Stances
