-- ===== src/Lib.antt =====
-- The verification library of Talkback, a Go service that ingests recordings of meetings, indexes
-- their transcripts and materials, and answers questions about them.
--
-- Parts and files.
-- Processing (internal/processing, internal/database/session_processing_jobs*.go,
-- internal/handlers/session_import_dedupe.go, internal/utils/zoom_client.go): the table of
-- processing jobs. `Processing.Job.Db` is the two tables, and each SQL statement is a function on
-- them; State and Job hold the data, Store the plain statements, Enqueue
-- CreateOrGetSessionProcessingJob, Claim ClaimNextSessionProcessingJob, Aggregate
-- AggregateProcessingState, Backoff the delays and setJobFailedTransient and its kin, Reconcile
-- RunReconciler, FlipAwaitingWhisperJobsToReady and the aggregate mirror, Attach
-- dedupeExistingAttach, Zoom handleZoomError. A worker claims a job, runs its pipeline, and leaves
-- it ready, waiting or failed; the reconciler and the users' attaches and retries touch the same
-- rows, and the sessions' mirror repeats a job's state for the user interface.
-- Media is the tables that the pipelines fill (internal/database/file_artifacts.go,
-- video_sources.go, transcript_jobs.go, transcripts.go), and Pipeline RunJob and the three pipelines
-- (internal/processing/pipeline*.go, recording_dedupe.go, native_transcript_poll.go): Dedupe
-- shouldSkipMP4Ingest and setPrimaryIfNotSet, Ingest the storing of the MP4, Whisper the fallback of
-- Zoom and Teams, Save the last stages, Files the choice of a Zoom file, Run runZoomJob and
-- runTeamsJob, Meet runGoogleMeetJob, Dispatch RunJob. A run is a function on both kinds of tables
-- that ends where the code returns; the steps that the three pipelines repeat are one definition.
-- Rules and Ending are the rules by which all steps are shown to end well, Keeping those by which
-- they keep what the statements keep; Total, Saved with Rows, Skipping, Again, and Local with Disk
-- use them. Of the local disk the files' keys and sizes are modelled, not their contents.
-- Worker is runOne and a tick of RunWorker, Queue processJob of the Whisper queue
-- (internal/utils/job_processor.go) and the callback OnTranscriptCompleted (cmd/api/main.go).
-- Transcript (internal/transcript/vtt_parser.go): Parse is parseCues and ParseVTT, Normalize is
-- normalizeSegments, loop by loop.
-- Rag (internal/rag/chunker.go, internal/utils/retrieval.go): Chunk is the two functions chunkText,
-- Segments is BuildTranscriptChunks, Alias buildCanonicalMapFromAliases, Index the embedding
-- of texts and the writing of an index (internal/rag/embedder.go, index.go), Retrieval the ranking of
-- chunks (internal/rag/retrieval.go), whose scores, sort.Slice and cosine are
-- parameters; the comparator and the boost are the code's. The loop of Embed
-- runs on fuel, the number of texts, of which a batch takes one at least. A pipeline normalises the
-- cues of a recording, stores the segments, and builds one chunk for each; longer texts are cut into
-- chunks that overlap.
-- Invitations (internal/invitations): Model is the data, Repository the statements on the table,
-- Service the surroundings of the service (its configuration, lookups, the callbacks of the handlers
-- and the functions of the standard library, all in the record Outside) and Create, Accept the
-- lookup and the acceptance of an invitation, Manage its new links and its revocation. A set of
-- faults says which statements fail; a negative setting of the hours counts as 0.
-- Decisions: Members is the memberships of sessions (internal/database/session_memberships.go), with
-- the change of a role as one transaction and, in Skew, as transactions that interleave; Stances is
-- the stances on a decision (internal/database/stances.go) and the requests that give them and take
-- them back (internal/handlers/session_stances.go).
-- Orchestration (internal/orchestration, internal/handlers/orchestration_draft_guard.go): Model is the
-- data, Advice what an evaluation builds, Evaluate is EvaluateSession with the statements that it reads from, Sync is
-- SyncSessionRecommendations, the statements on the recommendations and the change of a status with
-- its audit (internal/database/orchestration_recommendations.go,
-- orchestration_recommendation_audit.go), Guard the limits on drafts. An evaluation reads questions,
-- answers, members, stances and views, and what it returns replaces the recommendations of the
-- session; the guard stands before the generation of a draft.
-- Prelude holds the shared names, Tests the runs at concrete inputs.
--
-- Conventions. An identifier is a number that is only compared, a time is a number of seconds (of
-- nanoseconds in Orchestration), a text that is only compared is a native string. A row set is a
-- list; where a statement leaves the order of equal rows open, the model takes the first of the table. The statement's time is an
-- argument. A statement is one atomic step, and the connection to the database is not lost; where
-- the code goes on after a failed statement, a test says which statements fail. Loops over lists
-- are recursions on them. A run of a pipeline makes each call of a provider, the object store, the
-- disk and the queue at most once, so the answers are given beforehand, the failed ones included,
-- and so is the set of statements that fail; the statements on the job, its lock and the mirror do
-- not. A parser of transcripts is an argument of a run, as are the functions on strings. The loop
-- of parseCues runs on fuel, the number of lines, of which a pass takes one at least. The loops of
-- chunkText run on fuel, the length of the text, which is enough where the overlap is shorter than
-- a chunk; a panic and a loop without end are `none`.
--
-- Not modelled: the HTTP layer but for the requests on stances, the metadata of files, the gathering
-- of the chunks of a session, the requests to Zoom, Teams, Google Meet, R2 and OpenAI, logging, and the other packages, which are glue between these parts and outside services or
-- come later.
pub mod Prelude
pub mod Decisions
pub mod Invitations
pub mod Orchestration
pub mod Processing
pub mod Rag
pub mod Transcript
pub mod Tests
