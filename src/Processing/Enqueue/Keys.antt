-- ===== src/Processing/Enqueue/Keys.antt =====
-- The unique index: no two rows of the table are of one recording, and enqueueing keeps it so.
use talkback.Prelude.{
  ℕ, Bool, true, false, some, List, [], ◌∷◌, ◌++◌, ◌≡◌, refl, ◌∙◌, arith, All, eq_refl,
  find-none-All, update_where, eq_iff, Bool-cases, inl, inr, if◌then◌else◌,
}
use talkback.Processing.Job.{Job, Db}
use talkback.Processing.Enqueue.{
  coalesce, same_key, merge_row, insert_row, create_or_get_job, get_job_by_recording_key,
}
use talkback.Processing.Enqueue.Row.{merged, inserted, create_or_get_job-Enqueued}

abbrev pub UniqueKeys : List Job → Type 0
UniqueKeys [] = Unit
UniqueKeys (j ∷ js) = All (λ r. same_key j r ≡ false) js × UniqueKeys js

-- The values of the indexed columns decide `same_key`.
record SameColumns (a b : Job) : Type 0 where
  session_id : a.session_id ≡ b.session_id
  source : a.source ≡ b.source
  meeting_uuid : coalesce a.meeting_uuid ≡ coalesce b.meeting_uuid
  instance_uuid : coalesce a.instance_uuid ≡ coalesce b.instance_uuid

same_key-SameColumns : (a b : Job) → same_key a b ≡ true → SameColumns a b
same_key-SameColumns a b h = ground (
  arith,
  eq_iff b.source a.source,
  eq_iff (coalesce b.meeting_uuid) (coalesce a.meeting_uuid),
  eq_iff (coalesce b.instance_uuid) (coalesce a.instance_uuid),
)

same_key_left : (a b c : Job) → SameColumns a b → same_key a c ≡ same_key b c
same_key_left a b c s = rw (s.session_id, s.source, s.meeting_uuid, s.instance_uuid)

same_key_right : (a b c : Job) → SameColumns a b → same_key c a ≡ same_key c b
same_key_right a b c s = rw (s.session_id, s.source, s.meeting_uuid, s.instance_uuid)

same_key-of_SameColumns : (a b : Job) → SameColumns b a → same_key a b ≡ true
same_key-of_SameColumns a b s =
    rw (s.session_id, s.source, s.meeting_uuid, s.instance_uuid)
      (ground (
        arith,
        eq_refl a.source,
        eq_refl (coalesce a.meeting_uuid),
        eq_refl (coalesce a.instance_uuid),
      ))

same_key_sym : (a b : Job) → same_key a b ≡ false → same_key b a ≡ false
same_key_sym a b h = elim (Bool-cases (same_key b a)) [
  | inl e ↦ let k = same_key-of_SameColumns a b (same_key-SameColumns b a e) in absurd (cc)
  | inr e ↦ e
]

module _ (p : Job → Bool) (f : Job → Job)
    (keeps : (r : Job) → p r ≡ true → SameColumns (f r) r) where
  key_after : (j r : Job) → same_key j (if p r then f r else r) ≡ same_key j r
  key_after j r = elim (Bool-cases (p r)) [
    | inl e ↦ rw e (same_key_right (f r) r j (keeps r e))
    | inr e ↦ rw e
  ]

  key_before : (j r : Job) → same_key (if p j then f j else j) r ≡ same_key j r
  key_before j r = elim (Bool-cases (p j)) [
    | inl e ↦ rw e (same_key_left (f j) j r (keeps j e))
    | inr e ↦ rw e
  ]

  differs-update_where :
      (j : Job) (rs : List Job)
      → All (λ r. same_key j r ≡ false) rs
      → All (λ r. same_key (if p j then f j else j) r ≡ false) (update_where p f rs)
  unfolding update_where
  differs-update_where j [] h = tt
  differs-update_where j (r ∷ rs) h =
      (key_before j (if p r then f r else r) ∙ (key_after j r ∙ h.0), differs-update_where j rs h.1)

  update_where-UniqueKeys : (rs : List Job) → UniqueKeys rs → UniqueKeys (update_where p f rs)
  unfolding update_where
  update_where-UniqueKeys [] h = tt
  update_where-UniqueKeys (r ∷ rs) h =
      (differs-update_where r rs h.0, update_where-UniqueKeys rs h.1)

differs-append :
    (j new : Job) (rs : List Job)
    → All (λ r. same_key j r ≡ false) rs
    → same_key j new ≡ false
    → All (λ r. same_key j r ≡ false) (rs ++ new ∷ [])
differs-append j new [] h k = (k, tt)
differs-append j new (r ∷ rs) h k = (h.0, differs-append j new rs h.1 k)

append-UniqueKeys :
    (new : Job) (rs : List Job)
    → All (λ r. same_key new r ≡ false) rs
    → UniqueKeys rs
    → UniqueKeys (rs ++ new ∷ [])
append-UniqueKeys new [] h u = (tt, tt)
append-UniqueKeys new (r ∷ rs) h u =
    (differs-append r new rs u.0 (same_key_sym new r h.0), append-UniqueKeys new rs h.1 u.1)

merge_row-SameColumns :
    (now : ℕ) (new r : Job) → same_key new r ≡ true → SameColumns (merge_row now new r) r
unfolding merge_row
merge_row-SameColumns now new r h =
    let s = same_key-SameColumns new r h in
    record {
      session_id = refl;
      source = refl;
      meeting_uuid = s.meeting_uuid;
      instance_uuid = s.instance_uuid;
    }

-- Enqueueing a recording, new or attached before, leaves at most one row for each recording.
pub create_or_get_job-UniqueKeys :
    (now : ℕ) (new : Job) (db db' : Db) (row : Job)
    → create_or_get_job now new db ≡ some (db', row)
    → UniqueKeys db.jobs
    → UniqueKeys db'.jobs
unfolding get_job_by_recording_key
create_or_get_job-UniqueKeys now new db db' row h u =
    elim (create_or_get_job-Enqueued now new db db' row h) [
      | merged old e d r ↦ rw d (
          update_where-UniqueKeys (same_key new) (merge_row now new) (merge_row-SameColumns now new)
            db.jobs u)
      | inserted e f d r ↦ rw d (
          unfold insert_row in
          append-UniqueKeys (insert_row now new) db.jobs (find-none-All (same_key new) db.jobs e) u)
    ]
