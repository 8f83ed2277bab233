-- ===== src/Processing/Pipeline/Local.antt =====
-- A recording that is ingested onto the local disk where the session has one already
-- (internal/processing/pipeline_zoom.go, the local branch of the ingestion).
use talkback.Prelude.{
  ℕ, String, Bool, true, false, ◌&&◌, ◌||◌, Option, none, some, List, [], ◌∷◌, ◌≡◌, refl, ap, ◌∙◌,
  find, str_eq, arith, Bool-cases, ◌⊎◌, inl, inr,
}
use talkback.Processing.Job.{Job}
use talkback.Processing.Media.{FileArtifact, Media, has_file_id, create_file_artifact}
use talkback.Processing.Pipeline.{
  World, StoredFile, Answer, refused, answered, is_answered, Answers, Flow, ended, goes_on, M, pure,
  quit, write, on_disk, got, on_some, on_insert, try_insert, fail_for_good, ◌>>◌, ◌>>=◌,
}
use talkback.Processing.Pipeline.Rules.{then-goes_on, bind-goes_on}
use talkback.Processing.Pipeline.Disk.{
  remove_file-truncate_file, remove_file-fill_file, Discarded, find-remove_file,
  find-remove_file_other,
}
use talkback.Processing.Pipeline.Ingest.{
  remove_file, truncate_file, fill_file, new_file, discard_file, ingest_to_disk, ingest_to_store,
  ingest,
}

find-or :
    (p q : FileArtifact → Bool) (rs : List FileArtifact) (r : FileArtifact)
    → find q rs ≡ some r
    → (s : FileArtifact) × (find (λ x. p x || q x) rs ≡ some s)
unfolding find
find-or p q [] r h = absurd (cc)
find-or p q (x ∷ rs) r h = elim (Bool-cases (p x || q x)) [
  | inl e ↦ (x, rw e)
  | inr e ↦ let (s, k) = find-or p q rs r (ground arith) in (s, rw e k)
]

Answer-cases :
    {A : Type 0} (a : Answer A) → ((e : String) × (a ≡ refused e)) ⊎ ((x : A) × (a ≡ answered x))
Answer-cases (refused e) = inl (e, refl)
Answer-cases (answered x) = inr (x, refl)

try_insert-none :
    (fails : Bool) (insert : Media → Option Media) (out : M (Unit {0})) (w : World)
    → insert w.media ≡ none
    → try_insert fails insert out w ≡ out w
unfolding try_insert on_insert
try_insert-none true insert out w h = refl
try_insert-none false insert out w h =
    ap
      (λ (made : Option Media). elim made [
        | none ↦ out w
        | some media ↦ pure tt (record w { media = media })
      ])
      h

got-answered :
    {A : Type 0} (a : Answer A) (x : A) (out : String → M A) (w : World)
    → a ≡ answered x
    → got a out w ≡ goes_on x w
unfolding got pure
got-answered a x out w e = rw e

write_lem : (f : World → World) (w : World) → write f w ≡ goes_on tt (f w)
unfolding write
write_lem f w = refl

then-ended :
    {B : Type 0} (m : M (Unit {0})) (k : M B) (w w' : World)
    → m w ≡ ended w'
    → (m >> k) w ≡ ended w'
unfolding ◌>>◌ ◌>>=◌
then-ended {B} m k w w' e =
    ap (λ flow. elim flow as (λ _. Flow B) [ ended w ↦ ended w | goes_on a w ↦ k w ]) e

module _ (now : ℕ) (job : Job) (ans : Answers) (filename : String) (start : World)
    (file : FileArtifact) where
  abbrev key : String
  key = ans.texts.local_key job.session_id filename

  abbrev Refused : M ℕ → (List StoredFile → List StoredFile) → Type 0
  Refused m left =
      (code : String) × (msg : String) × (m start
        ≡ ended (fail_for_good now job code msg (record start { disk = left start.disk })))

  module _ (h : find (λ r. str_eq r.storage_key key) start.media.file_artifacts ≡ some file) where
    create_file-clash : create_file_artifact (new_file now job ans "local" key) start.media ≡ none
    unfolding create_file_artifact
    create_file-clash =
        let (clash, found) =
          find-or (has_file_id ans.new_ids.file_id) _ start.media.file_artifacts file h in
        rw (create_file_artifact, found)

    discard_file_lem :
        (code msg : String) (w : World)
        → discard_file now job ans {A = Unit {0}} key code msg w
          ≡ ended (fail_for_good now job code msg (record w { disk = remove_file key w.disk }))
    unfolding discard_file write quit ◌>>=◌ ◌>>◌
    discard_file_lem code msg w = refl

    ingest_to_disk-mkdir :
        (e : String)
        → ans.mkdir ≡ refused e
        → Refused (ingest_to_disk now job ans filename) (λ disk. disk)
    unfolding ingest_to_disk got quit ◌>>=◌ ◌>>◌
    ingest_to_disk-mkdir e a = ("local_mkdir", e, rw a)

    ingest_to_disk-create_file :
        (e : String)
        → ans.mkdir ≡ answered tt
        → ans.create_file ≡ refused e
        → Refused (ingest_to_disk now job ans filename) (λ disk. disk)
    unfolding ingest_to_disk got quit ◌>>=◌ ◌>>◌ pure
    ingest_to_disk-create_file e a b = ("local_create", e, rw (a, b))

    ingest_to_disk-copy :
        (e : String)
        → ans.mkdir ≡ answered tt
        → ans.create_file ≡ answered tt
        → ans.copy ≡ refused e
        → Refused (ingest_to_disk now job ans filename) (remove_file key)
    unfolding ingest_to_disk discard_file got quit write ◌>>=◌ ◌>>◌ pure
    ingest_to_disk-copy e a b c =
        ("local_write", e, rw (a, b, c, remove_file-truncate_file key start.disk))

    ingest_to_disk-create_file_artifact :
        (size : ℕ)
        → ans.mkdir ≡ answered tt
        → ans.create_file ≡ answered tt
        → ans.copy ≡ answered size
        → Refused (ingest_to_disk now job ans filename) (remove_file key)
    unfolding ingest_to_disk
    ingest_to_disk-create_file_artifact size a b c =
        let opened = record start { disk = truncate_file key start.disk } in
        let filled = record opened { disk = fill_file key size opened.disk } in
        (
          "db_error",
          "create file_artifact",
          then-goes_on _ _ start start (got-answered ans.mkdir tt _ start a)
              ∙ then-goes_on _ _ start start (got-answered ans.create_file tt _ start b)
              ∙ then-goes_on _ _ start opened (write_lem (on_disk (truncate_file key)) start)
              ∙ bind-goes_on _ _ size opened opened (got-answered ans.copy size _ opened c)
              ∙ then-goes_on _ _ opened filled (write_lem (on_disk (fill_file key size)) opened)
              ∙ then-ended _ _ filled _ (
                  try_insert-none ans.faults.create_file_fails _ _ filled create_file-clash
                  ∙ discard_file_lem "db_error" "create file_artifact" filled)
              ∙ ap
                  (λ disk. ended (
                    fail_for_good now job "db_error" "create file_artifact"
                      (record start { disk = disk })))
                  (remove_file-fill_file key size (truncate_file key start.disk)
                    ∙ remove_file-truncate_file key start.disk),
        )

    same-Discarded :
        is_answered ans.mkdir && is_answered ans.create_file ≡ false
        → Discarded ans key start.disk start.disk
    same-Discarded e = record { gone = inr (e, refl); others = λ name _. refl }

    remove_file-Discarded :
        is_answered ans.mkdir && is_answered ans.create_file ≡ true
        → Discarded ans key start.disk (remove_file key start.disk)
    remove_file-Discarded e = record {
      gone = inl (e, find-remove_file key start.disk);
      others = λ name k. find-remove_file_other key name start.disk k;
    }

    ingest_to_disk_again :
        (code : String) × (msg : String) × (disk : List StoredFile) × (ingest_to_disk now job ans
            filename start
          ≡ ended (fail_for_good now job code msg (record start { disk = disk })))
        × Discarded ans key start.disk disk
    ingest_to_disk_again = elim (Answer-cases ans.mkdir) [
      | inl (e, a) ↦
          let (code, msg, run) = ingest_to_disk-mkdir e a in
          (code, msg, start.disk, run, same-Discarded (rw a))
      | inr (tt, a) ↦ elim (Answer-cases ans.create_file) [
        | inl (e, b) ↦
            let (code, msg, run) = ingest_to_disk-create_file e a b in
            (code, msg, start.disk, run, same-Discarded (rw (a, b)))
        | inr (tt, b) ↦ elim (Answer-cases ans.copy) [
          | inl (e, c) ↦
              let (code, msg, run) = ingest_to_disk-copy e a b c in
              (code, msg, remove_file key start.disk, run, remove_file-Discarded (rw (a, b)))
          | inr (size, c) ↦
              let (code, msg, run) = ingest_to_disk-create_file_artifact size a b c in
              (code, msg, remove_file key start.disk, run, remove_file-Discarded (rw (a, b)))
        ]
      ]
    ]

    -- Without an object store, a recording of a session that has a stored file at the key of this
    -- recording's platform, of the same recording or of another one, is never ingested: the run ends
    -- with the job failed for good, and no table but those of the job and its mirror has changed, so
    -- the row of the stored file is as it was. But if the directory and the file could be made, the
    -- file itself is gone from the disk; the other files are as they were.
    pub ingest_again :
        ans.store ≡ none
        → (code : String) × (msg : String) × (disk : List StoredFile) × (ingest now job ans filename
              start
            ≡ ended (fail_for_good now job code msg (record start { disk = disk })))
          × Discarded ans key start.disk disk
    unfolding ingest on_some
    ingest_again e =
        let (code, msg, disk, run, left) = ingest_to_disk_again in
        (
          code,
          msg,
          disk,
          ap
                (λ store.
                  on_some store (ingest_to_disk now job ans filename)
                    (ingest_to_store now job ans filename) start)
                e
              ∙ run,
          left,
        )
