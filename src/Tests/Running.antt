-- ===== src/Tests/Running.antt =====
-- Runs of the Zoom pipeline.
use talkback.Prelude.{
  ℕ, ◌+◌, String, true, false, Option, none, some, List, [], ◌∷◌, ◌≡◌, ◌⊎◌, refl, str_eq, find, All,
}
use talkback.Processing.Store.{get_job_by_id}
use talkback.Processing.Job.{Job}
use talkback.Processing.Media.{
  FileArtifact, ready_file, WhisperJob, whisper_completed, Media, list_segments_by_transcript_id,
  get_transcript_by_session_id,
}
use talkback.Processing.Pipeline.{
  StoredFile, World, refused, answered, Answers, Faults, Texts, ended, world_of, attempt_of,
  fail_for_good,
}
use talkback.Processing.Pipeline.Dedupe.{should_skip_mp4_ingest}
use talkback.Processing.Pipeline.Ingest.{ingest}
use talkback.Processing.Pipeline.Rows.{Holds}
use talkback.Processing.Pipeline.Files.{Recording}
use talkback.Processing.Pipeline.Run.{replied, complete}
use talkback.Processing.Pipeline.Dispatch.{ProviderAnswers, run, run_job}
use talkback.Processing.Pipeline.Finished.{Finished}
use talkback.Processing.Pipeline.Total.{Ended, run_job-Finished}
use talkback.Processing.Pipeline.Skipping.{NoExternalIds, run_job_never_skips}
use talkback.Processing.Pipeline.Saved.{complete-HasSegments}
use talkback.Processing.Pipeline.Disk.{Discarded}
use talkback.Processing.Pipeline.Local.{ingest_again}
use talkback.Processing.Claim.{is_candidate}
use talkback.Processing.Claim.Exclusion.{Claimed}
use talkback.Processing.Queue.{QueueAnswers, process_job}
use talkback.Processing.Queue.Failed.{process_job_refused}
use talkback.Processing.Worker.{tick}
use talkback.Processing.Worker.Tick.{taken, tick-Finished}
use talkback.Transcript.Normalize.{Segment}
use talkback.Tests.Claiming.{zoom_job, session, db_of}

abbrev texts : Texts
texts = record {
  trim_space = λ s. s;
  to_lower = λ s. s;
  to_upper = λ s. s;
  contains = λ s t. str_eq s t;
  equal_fold = λ s t. str_eq s t;
  to_slash = λ s. s;
  show = λ n. "7";
  r2_key = λ session_id file_id name. name;
  local_key = λ session_id name. name;
}

abbrev no_faults : Faults
no_faults = record {
  create_file_fails = false;
  ready_fails = false;
  primary_fails = false;
  create_artifact_fails = false;
  create_video_fails = false;
  create_whisper_fails = false;
  create_transcript_fails = false;
  segments_fail = none;
}

-- Everything is answered, and the files lie on the local disk.
abbrev local : Answers
local = record {
  token = some (λ creator. answered "token");
  download = answered (record { status_code = 200; content_length = 10 });
  max_upload_bytes = 1000;
  store = none;
  mkdir = answered tt;
  create_file = answered tt;
  copy = answered 10;
  job_processor = some (answered tt);
  index = answered tt;
  new_ids = record {
    file_id = 20;
    artifact_id = 30;
    video_id = 40;
    whisper_id = 50;
    transcript_id = 60;
  };
  faults = no_faults;
  texts = texts;
}

-- A meeting whose recording has an MP4 and no transcript.
abbrev meeting : Recording
meeting = record {
  duration_minutes = 5;
  topic = "Weekly";
  recording_files =
      record {
        id = "f1";
        file_type = "MP4";
        file_extension = "MP4";
        download_url = "https://zoom.example/f1";
        status = "completed";
        recording_type = "gallery_view";
      }
      ∷ [];
}

abbrev provider : ProviderAnswers
provider = record {
  max_duration_seconds = 3600;
  recordings = replied meeting;
  content = replied "WEBVTT";
  title = "Weekly";
  url = refused "none";
  vtt = "";
  meet = record {
    recording = refused "none";
    is_permanent = λ e. false;
    recording_backoff = 60;
    transcripts = answered [];
    entries = answered [];
    poll_interval = 60;
    poll_max_age = 600;
    title = "Weekly";
  };
  parse_vtt = λ text. answered [];
}

abbrev stored : FileArtifact
stored = record {
  id = 10;
  session_id = 7;
  storage_provider = "local";
  storage_key = "zoom.mp4";
  status = ready_file;
  size_bytes = some 10;
}

abbrev whisper_job : WhisperJob
whisper_job = record {
  id = 11;
  video_source_id = 12;
  session_id = 7;
  status = whisper_completed;
  source_url = "zoom.mp4";
  job_key = "zoom_whisper:7";
}

abbrev empty_media : Media
empty_media = record {
  file_artifacts = [];
  artifacts = [];
  video_sources = [];
  transcript_jobs = [];
  transcripts = [];
  segments = [];
}

abbrev fresh : World
fresh = record { db = db_of (zoom_job ∷ []); media = empty_media; disk = [] }

-- The session has a recording already, and a Whisper job.
abbrev second : World
second = record {
  db = db_of (zoom_job ∷ []);
  media = record empty_media {
    file_artifacts = stored ∷ [];
    transcript_jobs = whisper_job ∷ [];
    transcripts = record { id = 13; session_id = 7; source = "zoom"; is_ready = true } ∷ [];
    segments =
        record {
          transcript_id = 13;
          session_id = 7;
          idx = 0;
          start_ms = 0;
          end_ms = 900;
          text = "the first meeting";
          speaker_label = none;
          source_ref = some "1";
        }
        ∷ [];
  };
  disk = record { key = "zoom.mp4"; size = 10 } ∷ [];
}

abbrev said : List Segment
said =
    record {
      start_ms = 0;
      end_ms = 800;
      text = "the second meeting";
      speaker_label = none;
      source_ref = some "1";
    }
    ∷ record {
      start_ms = 800;
      end_ms = 2000;
      text = "of the week";
      speaker_label = none;
      source_ref = some "2";
    }
    ∷ []

run_job-Finished_example :
    Ended 120 zoom_job local provider (run 120 zoom_job local provider fresh)
    × Finished zoom_job (attempt_of zoom_job) (run_job 120 zoom_job local provider fresh).db
unfolding get_job_by_id find
run_job-Finished_example =
    run_job-Finished 120 zoom_job local provider fresh zoom_job session refl refl

run_job_never_skips_example :
    NoExternalIds (run_job 120 zoom_job local provider fresh).media
    × ((session_id : ℕ) (name : String) (meeting_uuid instance_uuid : Option String)
        → should_skip_mp4_ingest session_id name meeting_uuid instance_uuid
            (run_job 120 zoom_job local provider fresh)
          ≡ false)
run_job_never_skips_example = run_job_never_skips 120 zoom_job local provider fresh tt

complete-HasSegments_example : Holds 13 7 said (
    list_segments_by_transcript_id 13
      (world_of (complete 120 zoom_job local "zoom" "Weekly" none (answered said) second)).media)
unfolding get_transcript_by_session_id find
complete-HasSegments_example =
    complete-HasSegments 120 zoom_job local "zoom" "Weekly" none said second refl refl

ingest_again_example :
    (code : String) × (msg : String) × (disk : List StoredFile) × (ingest 120 zoom_job local
        "zoom.mp4" second
      ≡ ended (fail_for_good 120 zoom_job code msg (record second { disk = disk })))
    × Discarded local "zoom.mp4" second.disk disk
unfolding find
ingest_again_example = ingest_again 120 zoom_job local "zoom.mp4" second stored refl refl

tick-Finished_example :
    ((tick 900 120 130 (λ j. local) (λ j. provider) fresh ≡ fresh)
      × All (λ r. is_candidate 900 120 r ≡ false) fresh.db.jobs)
    ⊎ ((c : Job) × Claimed 900 120 fresh.db.jobs c
        × Finished
            (taken 900 120 130 (λ j. local) (λ j. provider) fresh c)
            (c.attempt_count + 1)
            (tick 900 120 130 (λ j. local) (λ j. provider) fresh).db)
unfolding find
tick-Finished_example = tick-Finished 900 120 130 (λ j. local) (λ j. provider) fresh (refl, tt)

-- Whisper refuses the recording.
abbrev refusing : QueueAnswers
refusing = record {
  has_prefix = λ s p. true;
  stat = answered tt;
  download = answered tt;
  can_transcribe = true;
  transcribe = refused "too long";
  start_fails = false;
  save_fails = false;
  complete_fails = false;
  flip_fails = λ id. false;
}

process_job_refused_example :
    (world_of (process_job 140 whisper_job refusing second)).db ≡ second.db
process_job_refused_example = process_job_refused 140 whisper_job refusing second "too long" refl
