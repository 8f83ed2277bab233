-- ===== src/Processing.antt =====
-- The ingestion of recordings: the table of processing jobs and the worker over it
-- (internal/processing, internal/database/session_processing_jobs*.go, internal/models/models.go).
pub mod State
pub mod Job
pub mod Aggregate
pub mod Store
pub mod Enqueue
pub mod Claim
pub mod Backoff
pub mod Reconcile
pub mod Attach
pub mod Zoom
pub mod Media
pub mod Pipeline
pub mod Worker
pub mod Queue
