-- ===== src/Decisions/Members/Skew.antt =====
-- Two changes of roles at once. At the default isolation of the database (READ COMMITTED) a
-- transaction reads what others have committed, and the lock on its own row stops only a transaction
-- on that row.
use talkback.Prelude.{
  ℕ, String, Bool, true, false, ◌&&◌, ◌||◌, ◌++◌, none, some, is_some, ◌≡◌, refl, List, [], ◌∷◌,
  ◌==◌, length, find, find-true, select, arith, All, All-update_where,
}
use talkback.Decisions.Members.{
  Membership, Faults, is_member, is_creator, is_other_creator, get_session_membership, may_write,
  check_last_creator, check_role_change, set_role,
}
use talkback.Decisions.Members.Creators.{has_creator}

-- A transaction that has read and not yet written.
pub record Open : Type 0 where
  pub session_id : ℕ
  pub user_id : ℕ
  pub new_role : String

abbrev is_same_row : ℕ → ℕ → Open → Bool
is_same_row session_id user_id o = (o.session_id == session_id) && (o.user_id == user_id)

-- A transaction whose check passes waits to write, unless another one holds its row; any of those
-- that wait may write next.
pub data Step : List Membership → List Open → List Membership → List Open → Type 0 where
  checked :
      {ms : List Membership} {waiting : List Open} (faults : Faults) (o : Open)
      → find (is_same_row o.session_id o.user_id) waiting ≡ none
      → check_role_change faults o.session_id o.user_id o.new_role ms ≡ may_write
      → Step ms waiting ms (o ∷ waiting)
  written :
      {ms : List Membership} (before after : List Open) (o : Open) (now : ℕ)
      → Step ms
          (before ++ o ∷ after)
          (set_role o.session_id o.user_id o.new_role now ms)
          (before ++ after)

pub data Steps : List Membership → List Open → List Membership → List Open → Type 0 where
  done : {ms : List Membership} {waiting : List Open} → Steps ms waiting ms waiting
  next :
      {ms ms' ms'' : List Membership} {waiting waiting' waiting'' : List Open}
      → Step ms waiting ms' waiting'
      → Steps ms' waiting' ms'' waiting''
      → Steps ms waiting ms'' waiting''

some_selected :
    (p q : Membership → Bool) (ms : List Membership) (m : Membership)
    → find p ms ≡ some m
    → q m ≡ true
    → (length (select q ms) == 0) ≡ false
unfolding find select
some_selected p q [] m h e = cc
some_selected p q (x ∷ xs) m h e = ground (arith, some_selected p q xs m)

not_found :
    (p : Membership → Bool) (ms : List Membership)
    → All (λ r. p r ≡ false) ms
    → is_some (find p ms) ≡ false
unfolding find
not_found p [] h = refl
not_found p (x ∷ xs) h = rw h.0 (not_found p xs h.1)

abbrev works : Faults
works = record { load_fails = false; count_fails = false; write_fails = false }

module _ (session : ℕ) where
  abbrev demotion : ℕ → Open
  demotion user = record { session_id = session; user_id = user; new_role = "participant" }

  demotion-may_write :
      (user other : ℕ) (ms : List Membership) (m n : Membership)
      → (user == other) ≡ false
      → get_session_membership session user ms ≡ some m
      → m.role ≡ "creator"
      → get_session_membership session other ms ≡ some n
      → n.role ≡ "creator"
      → check_role_change works session user "participant" ms ≡ may_write
  unfolding check_role_change check_last_creator get_session_membership
  demotion-may_write user other ms m n differ e role e' role' =
      let key = find-true (is_member session other) ms n e' in
      let others =
        some_selected (is_member session other) (is_other_creator session user) ms n e'
          (rw role' (ground arith)) in
      rw (e, role, others) refl

  -- A row of the session that is a creator's is one of the two users'.
  abbrev IsOneOf : ℕ → ℕ → Membership → Type 0
  IsOneOf user other r =
      is_creator session r ≡ true → (r.user_id == user || r.user_id == other) ≡ true

  abbrev IsOnly : ℕ → Membership → Type 0
  IsOnly other r = is_creator session r ≡ true → (r.user_id == other) ≡ true

  demotions-none :
      (user other now later : ℕ) (ms : List Membership)
      → All (IsOneOf user other) ms
      → has_creator session
          (set_role session other "participant" later (set_role session user "participant" now ms))
        ≡ false
  unfolding set_role
  demotions-none user other now later ms h =
      let one_left =
        All-update_where (IsOneOf user other) (IsOnly other) (is_member session user)
          (λ r. record r { role = "participant"; updated_at = now }) ms
          (λ r at one creator. absurd (ground arith))
          (λ r beside one creator. ground (arith, one creator)) h in
      not_found (is_creator session) _ (
        All-update_where (IsOnly other) (λ r. is_creator session r ≡ false)
          (is_member session other) (λ r. record r { role = "participant"; updated_at = later })
          (set_role session user "participant" now ms) (λ r at only. ground arith)
          (λ r beside only. ground (arith, only)) one_left)

  -- Two demotions at once, of the only two creators of a session, can both pass the check on the
  -- last creator, and leave the session without one.
  pub demotions_skew :
      (user other now later : ℕ) (ms : List Membership) (m n : Membership)
      → (user == other) ≡ false
      → get_session_membership session user ms ≡ some m
      → m.role ≡ "creator"
      → get_session_membership session other ms ≡ some n
      → n.role ≡ "creator"
      → All (IsOneOf user other) ms
      → (ms' : List Membership) × (Steps ms [] ms' [] × (has_creator session ms' ≡ false))
  unfolding find
  demotions_skew user other now later ms m n differ e role e' role' only = (
    _,
    (
      next
          (checked works (demotion user) refl
            (demotion-may_write user other ms m n differ e role e' role'))
          (next
            (checked works (demotion other) (ground arith)
              (demotion-may_write other user ms n m (ground arith) e' role' e role))
            (next (written (demotion other ∷ []) [] (demotion user) now)
              (next (written [] [] (demotion other) later) done))),
      demotions-none user other now later ms only,
    ),
  )
