-- ===== src/Processing/Pipeline/Saved.antt =====
-- The segments that a run leaves of the session's transcript (internal/processing/pipeline_zoom.go,
-- pipeline_teams.go, the stages "parsing" to "embedding").
use talkback.Prelude.{
  ℕ, String, false, not, Option, none, some, List, [], ◌∷◌, ◌≡◌, refl, ◌∙◌, arith, All, select,
  select-append, ◌==◌,
}
use talkback.Processing.Job.{Job}
use talkback.Processing.Media.{
  TranscriptRow, SegmentRow, Media, create_transcript, get_transcript_by_session_id,
  delete_segments_by_transcript_id, insert_transcript_segments, update_transcript_to_ready,
  list_segments_by_transcript_id, create_artifact, create_video_source,
  update_video_source_transcript, VideoSource,
}
use talkback.Processing.Pipeline.{
  World, answered, Answers, goes_on, M, ◌>>=◌, ◌>>◌, pure, got, choose, on_some, on_media_with,
  write, on_media, world_of,
}
use talkback.Processing.Pipeline.Rules.{safe_rules, bind-goes_on, then-goes_on, then-same}
use talkback.Processing.Pipeline.Keeping.{OnMedia-Ends, Keeps}
use talkback.Processing.Pipeline.Keeping.Writes.{
  Keeps-statement, Keeps-enter, Keeps-fail, Keeps-index, Keeps-finish,
}
use talkback.Processing.Pipeline.Whisper.{ensure_artifact}
use talkback.Processing.Pipeline.Save.{
  rows_from, new_transcript, transcript_id_for, save_segments, add_video, save_transcript,
  index_and_finish,
}
use talkback.Processing.Pipeline.Rows.{Holds, IsRowOf, rows_from-IsRowOf, rows_from-Holds}
use talkback.Processing.Pipeline.Run.{complete}
use talkback.Transcript.Normalize.{Segment}

-- The segments of the transcript are these.
HasSegments : ℕ → List SegmentRow → Media → Type 0
HasSegments id rows media = list_segments_by_transcript_id id media ≡ rows

-- The transcript that the session has of the source, or that it is about to have.
abbrev pub transcript_of : ℕ → String → ℕ → Media → ℕ
transcript_of session_id source new_id media =
    elim (get_transcript_by_session_id session_id source media) [ none ↦ new_id | some t ↦ t.id ]

select-deleted :
    (id : ℕ) (rs : List SegmentRow)
    → select (λ s. s.transcript_id == id) (select (λ s. not (s.transcript_id == id)) rs) ≡ []
unfolding select
select-deleted id [] = refl
select-deleted id (r ∷ rs) = ground (arith, select-deleted id rs)

select-inserted :
    (id session_id : ℕ) (rs : List SegmentRow)
    → All (IsRowOf id session_id) rs
    → select (λ s. s.transcript_id == id) rs ≡ rs
unfolding select
select-inserted id session_id [] h = refl
select-inserted id session_id (r ∷ rs) h =
    ground (arith, h.0.0, select-inserted id session_id rs h.1)

-- The old segments make way for the new ones.
HasSegments-replaced :
    (id session_id : ℕ) (rows : List SegmentRow) (media : Media)
    → All (IsRowOf id session_id) rows
    → HasSegments id rows (
        update_transcript_to_ready id
          (insert_transcript_segments rows (delete_segments_by_transcript_id id media)))
unfolding HasSegments list_segments_by_transcript_id update_transcript_to_ready
    insert_transcript_segments delete_segments_by_transcript_id
HasSegments-replaced id session_id rows media h =
    select-append (λ s. s.transcript_id == id) _ rows
    ∙ rw (select-deleted id media.segments, select-inserted id session_id rows h)

create_transcript-id :
    (t : TranscriptRow) (media : Media)
    → (create_transcript t media).1 ≡ transcript_of t.session_id t.source t.id media
unfolding create_transcript get_transcript_by_session_id
create_transcript-id t media = ground arith

module _ (now : ℕ) (job : Job) (ans : Answers) (id : ℕ) (rows : List SegmentRow) where
  Keeps-artifact :
      (artifact_id session_id : ℕ) (title : String)
      → Keeps
          (HasSegments id rows)
          (write (on_media (create_artifact artifact_id session_id title)))
  unfolding HasSegments list_segments_by_transcript_id create_artifact
  Keeps-artifact artifact_id session_id title = Keeps-statement _ (λ media h. h)

  Keeps-video :
      (vs : VideoSource) → Keeps (HasSegments id rows) (write (on_media (create_video_source vs)))
  unfolding HasSegments list_segments_by_transcript_id create_video_source
  Keeps-video vs = Keeps-statement _ (λ media h. h)

  Keeps-transcribed :
      (video_id : ℕ)
      → Keeps (HasSegments id rows) (write (on_media (update_video_source_transcript video_id)))
  unfolding HasSegments list_segments_by_transcript_id update_video_source_transcript
  Keeps-transcribed video_id = Keeps-statement _ (λ media h. h)

  ruleset last_rules = (
    safe_rules, Keeps-artifact, Keeps-video, Keeps-transcribed, Keeps-enter, Keeps-fail,
    Keeps-index, Keeps-finish,
  )

  Keeps-last :
      (provider title : String) (ingested : Option ℕ)
      → Keeps
          (HasSegments id rows)
          (add_video now job ans provider title ingested >> index_and_finish now job ans)
  unfolding add_video ensure_artifact index_and_finish
  Keeps-last provider title ingested = search last_rules depth 20

module _ (now : ℕ) (job : Job) (ans : Answers) where
  transcript_id_for_lem :
      (source : String) (w : World)
      → ans.faults.create_transcript_fails ≡ false
      → transcript_id_for now job ans source w
        ≡ goes_on
            (transcript_of job.session_id source ans.new_ids.transcript_id w.media)
            (record w { media = (create_transcript (new_transcript now job ans source) w.media).0 })
  unfolding transcript_id_for choose on_media_with
  transcript_id_for_lem source w h =
      rw (h, create_transcript-id (new_transcript now job ans source) w.media)

  save_segments_lem :
      (id : ℕ) (rows : List SegmentRow) (w : World)
      → ans.faults.segments_fail ≡ none
      → save_segments now job ans id rows w
        ≡ goes_on tt (record w {
          media =
              update_transcript_to_ready id
                (insert_transcript_segments rows (delete_segments_by_transcript_id id w.media));
        })
  unfolding save_segments on_some write ◌>>◌ ◌>>=◌
  save_segments_lem id rows w h = rw h

  complete-steps :
      (provider title : String) (ingested : Option ℕ) (segments : List Segment) (w : World)
      → complete now job ans provider title ingested (answered segments) w
        ≡ (save_transcript now job ans provider title ingested
                (λ id. rows_from id job.session_id 0 segments)
              >> index_and_finish now job ans)
            w
  unfolding complete got pure ◌>>=◌
  complete-steps provider title ingested segments w = refl

  save_transcript-steps :
      (provider title : String) (ingested : Option ℕ) (rows : ℕ → List SegmentRow)
      (next : M (Unit {0})) (id : ℕ) (w w' w'' : World)
      → transcript_id_for now job ans provider w ≡ goes_on id w'
      → save_segments now job ans id (rows id) w' ≡ goes_on tt w''
      → (save_transcript now job ans provider title ingested rows >> next) w
        ≡ (add_video now job ans provider title ingested >> next) w''
  unfolding save_transcript
  save_transcript-steps provider title ingested rows next id w w' w'' e e' =
      then-same _ _ next w w'' (bind-goes_on _ _ id w w' e ∙ then-goes_on _ _ w' w'' e')

  complete-rows_from :
      (provider title : String) (ingested : Option ℕ) (segments : List Segment) (w : World)
      → ans.faults.create_transcript_fails ≡ false
      → ans.faults.segments_fail ≡ none
      → let id = transcript_of job.session_id provider ans.new_ids.transcript_id w.media in
        list_segments_by_transcript_id id
          (world_of (complete now job ans provider title ingested (answered segments) w)).media
        ≡ rows_from id job.session_id 0 segments
  unfolding HasSegments
  complete-rows_from provider title ingested segments w h k =
      let id = transcript_of job.session_id provider ans.new_ids.transcript_id w.media in
      let rows = rows_from id job.session_id 0 segments in
      let media = (create_transcript (new_transcript now job ans provider) w.media).0 in
      let saved =
        HasSegments-replaced id job.session_id rows media
          (rows_from-IsRowOf id job.session_id 0 segments) in
      let steps =
        complete-steps provider title ingested segments w
        ∙ save_transcript-steps provider title ingested
            (λ id. rows_from id job.session_id 0 segments) (index_and_finish now job ans) id w _ _
            (transcript_id_for_lem provider w h)
            (save_segments_lem id rows (record w { media = media }) k) in
      rw steps (
        OnMedia-Ends (HasSegments id rows) _
          ((Keeps-last now job ans id rows provider title ingested).at _ (record { kept = saved })))

  -- If the statements on the transcript and its segments do not fail, then once a recording's
  -- transcript is parsed, and however the run ends after that, the rows of the session's transcript of
  -- the source hold exactly the parsed segments, in their order, with their times, texts, speakers and
  -- identifiers, are numbered from 0, and name that transcript and the session. Those of a recording
  -- of the same session and source that was completed before are gone.
  pub complete-HasSegments :
      (provider title : String) (ingested : Option ℕ) (segments : List Segment) (w : World)
      → ans.faults.create_transcript_fails ≡ false
      → ans.faults.segments_fail ≡ none
      → let id = transcript_of job.session_id provider ans.new_ids.transcript_id w.media in
        Holds id job.session_id segments (
          list_segments_by_transcript_id id
            (world_of (complete now job ans provider title ingested (answered segments) w)).media)
  complete-HasSegments provider title ingested segments w h k =
      rw (complete-rows_from provider title ingested segments w h k) (
        rows_from-Holds (transcript_of job.session_id provider ans.new_ids.transcript_id w.media)
          job.session_id segments)
