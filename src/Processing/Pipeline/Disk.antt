-- ===== src/Processing/Pipeline/Disk.antt =====
-- The files of the local disk that a run leaves (os.Create, io.Copy and os.Remove in
-- internal/processing/pipeline_zoom.go).
use talkback.Prelude.{
  ℕ, String, true, false, ◌&&◌, none, some, List, [], ◌∷◌, ◌≡◌, ap, refl, find, select,
  update_where, str_eq, eq_iff, eq_refl, arith, Bool-cases, ◌⊎◌, inl, inr, if◌then◌else◌,
}
use talkback.Processing.Pipeline.{StoredFile, Answers, is_answered}
use talkback.Processing.Pipeline.Ingest.{is_at, remove_file, truncate_file, fill_file}

-- The files that are left.
remove_file_twice :
    (key : String) (disk : List StoredFile)
    → remove_file key (remove_file key disk) ≡ remove_file key disk
unfolding remove_file select
remove_file_twice key [] = refl
remove_file_twice key (f ∷ fs) = ground (arith, remove_file_twice key fs)

pub remove_file-truncate_file :
    (key : String) (disk : List StoredFile)
    → remove_file key (truncate_file key disk) ≡ remove_file key disk
unfolding truncate_file
remove_file-truncate_file key disk =
    unfold remove_file select in rw (eq_refl key) (unfold remove_file in remove_file_twice key disk)

pub remove_file-fill_file :
    (key : String) (size : ℕ) (disk : List StoredFile)
    → remove_file key (fill_file key size disk) ≡ remove_file key disk
unfolding remove_file select fill_file update_where
remove_file-fill_file key size [] = refl
remove_file-fill_file key size (f ∷ fs) = ground (arith, remove_file-fill_file key size fs)

pub find-remove_file :
    (key : String) (disk : List StoredFile) → find (is_at key) (remove_file key disk) ≡ none
unfolding find remove_file select
find-remove_file key [] = refl
find-remove_file key (f ∷ fs) = ground (arith, find-remove_file key fs)

pub find-remove_file_other :
    (key name : String) (disk : List StoredFile)
    → str_eq key name ≡ false
    → find (is_at name) (remove_file key disk) ≡ find (is_at name) disk
unfolding find remove_file select
find-remove_file_other key name [] h = refl
find-remove_file_other key name (f ∷ fs) h = elim (Bool-cases (is_at key f)) [
  | inl e ↦
      let other : is_at name f ≡ false = rw ((eq_iff f.key key).0 e) h in
      rw (e, other) (find-remove_file_other key name fs h)
  | inr e ↦
      rw e
        (ap (λ rest. if is_at name f then some f else rest) (find-remove_file_other key name fs h))
]

-- What becomes of the disk: if the directory and the file could be made, the file of the key is gone
-- and every other file is as it was, and otherwise every file is.
pub record Discarded (ans : Answers) (key : String) (before after : List StoredFile) : Type 0 where
  pub gone :
      (is_answered ans.mkdir && is_answered ans.create_file ≡ true)
        × (find (is_at key) after ≡ none)
      ⊎ (is_answered ans.mkdir && is_answered ans.create_file ≡ false) × (after ≡ before)
  pub others :
      (name : String) → str_eq key name ≡ false → find (is_at name) after ≡ find (is_at name) before
