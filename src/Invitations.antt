-- ===== src/Invitations.antt =====
-- Invitations to a session by email, secured by a token (internal/invitations).
pub mod Model
pub mod Repository
pub mod Service
pub mod Accept
pub mod Manage
