-- ===== src/Decisions/Members/Creators.antt =====
-- Whether a session keeps a creator.
use talkback.Prelude.{
  ℕ, String, Bool, true, false, none, some, is_some, ◌≡◌, ◌⊎◌, refl, List, [], ◌∷◌, ◌==◌, str_eq,
  length, find, find-none-All, select, update_where, if◌then◌else◌, inl, inr, Bool-cases,
  Option-cases, arith, All, All-mono,
}
use talkback.Decisions.Members.{
  Membership, Check, Faults, is_member, is_creator, is_other_creator, get_session_membership,
  refused, same_role, may_write, check_last_creator, check_role_change, set_role,
  update_session_membership_role,
}

-- UNIQUE (session_id, user_id)
unfoldable pub UniqueMembers : List Membership → Type 0
UniqueMembers [] = Unit
UniqueMembers (m ∷ ms) = (find (is_member m.session_id m.user_id) ms ≡ none) × UniqueMembers ms

abbrev pub has_creator : ℕ → List Membership → Bool
has_creator session_id ms = is_some (find (is_creator session_id) ms)

module _ {A : Type 0} (p q u : A → Bool) (f : A → A) where
  -- A row that `p` finds becomes one that `q` finds.
  found_after_update :
      (rs : List A)
      → All (λ r. p r ≡ true → q (if u r then f r else r) ≡ true) rs
      → is_some (find p rs) ≡ true
      → is_some (find q (update_where u f rs)) ≡ true
  unfolding find update_where
  found_after_update [] hs h = cc
  found_after_update (r ∷ rs) hs h = elim (Bool-cases (p r)) [
    | inl e ↦ rw (hs.0 e) refl
    | inr e ↦ let rest = found_after_update rs hs.1 (rw e at h) in ground arith
  ]

All-of {ℓ} : {A : Type 0} (P : A → Type ℓ) → ((a : A) → P a) → (rs : List A) → All P rs
All-of P h [] = tt
All-of P h (r ∷ rs) = (h r, All-of P h rs)

found_if_selected :
    {A : Type 0} (p : A → Bool) (rs : List A)
    → (length (select p rs) == 0) ≡ false
    → is_some (find p rs) ≡ true
unfolding find select
found_if_selected p [] h = cc
found_if_selected p (r ∷ rs) h = ground (arith, found_if_selected p rs)

same_key :
    (session_id user_id : ℕ) (r : Membership)
    → is_member session_id user_id r ≡ true
    → (r.session_id ≡ session_id) × (r.user_id ≡ user_id)
same_key session_id user_id r e = ground arith

-- The row that a look-up finds is the only one of its user and session.
only_member :
    (session_id user_id : ℕ) (m : Membership) (ms : List Membership)
    → UniqueMembers ms
    → find (is_member session_id user_id) ms ≡ some m
    → All (λ r. is_member session_id user_id r ≡ true → r ≡ m) ms
unfolding UniqueMembers find
only_member session_id user_id m [] unique h = tt
only_member session_id user_id m (r ∷ rs) (alone, unique) h =
    elim (Bool-cases (is_member session_id user_id r)) [
      | inl e ↦
          let key = same_key session_id user_id r e in
          let none_left =
            find-none-All (is_member session_id user_id) rs (rw (key.0, key.1) at alone) in
          (
            λ same. let found = rw e at h in cc,
            All-mono (λ x. is_member session_id user_id x ≡ false)
                (λ x. is_member session_id user_id x ≡ true → x ≡ m) rs (λ x no same. absurd (cc))
                none_left,
          )
      | inr e ↦ (λ same. absurd (cc), only_member session_id user_id m rs unique (rw e at h))
    ]

module _ (session_id user_id : ℕ) (new_role : String) (now : ℕ) where
  abbrev changed : Membership → Membership
  changed m = record m { role = new_role; updated_at = now }

  abbrev Keeps : ℕ → (Membership → Bool) → Membership → Type 0
  Keeps session p r =
      p r ≡ true
      → is_creator session (if is_member session_id user_id r then changed r else r) ≡ true

  set_role_by :
      (session : ℕ) (p : Membership → Bool) (ms : List Membership)
      → All (Keeps session p) ms
      → is_some (find p ms) ≡ true
      → has_creator session (set_role session_id user_id new_role now ms) ≡ true
  unfolding set_role
  set_role_by session p ms keeps h =
      found_after_update p (is_creator session) (is_member session_id user_id) changed ms keeps h

  other_creator :
      (faults : Faults) (ms : List Membership)
      → check_last_creator faults session_id user_id ms ≡ may_write
      → is_some (find (is_other_creator session_id user_id) ms) ≡ true
  unfolding check_last_creator
  other_creator faults ms ok =
      found_if_selected (is_other_creator session_id user_id) ms (ground arith)

  found :
      (faults : Faults) (ms : List Membership)
      → check_role_change faults session_id user_id new_role ms ≡ may_write
      → str_eq new_role "creator" ≡ false
      → (m : Membership) × ((find (is_member session_id user_id) ms ≡ some m)
          × (str_eq m.role "creator" ≡ true
              → check_last_creator faults session_id user_id ms ≡ may_write))
  unfolding check_role_change get_session_membership
  found faults ms ok other = elim (Option-cases (find (is_member session_id user_id) ms)) [
    | inl e ↦ absurd (ground arith)
    | inr (m, e) ↦ (m, (e, λ creator. ground arith))
  ]

  demoted-has_creator :
      (faults : Faults) (ms : List Membership)
      → UniqueMembers ms
      → check_role_change faults session_id user_id new_role ms ≡ may_write
      → str_eq new_role "creator" ≡ false
      → has_creator session_id ms ≡ true
      → has_creator session_id (set_role session_id user_id new_role now ms) ≡ true
  demoted-has_creator faults ms unique ok other h =
      let (m, (e, check)) = found faults ms ok other in
      elim (Bool-cases (str_eq m.role "creator")) [
        | inl creator ↦
            set_role_by session_id (is_other_creator session_id user_id) ms
              (All-of (Keeps session_id (is_other_creator session_id user_id))
                (λ r others. ground arith) ms)
              (other_creator faults ms (check creator))
        | inr plain ↦
            set_role_by session_id (is_creator session_id) ms
              (All-mono (λ r. is_member session_id user_id r ≡ true → r ≡ m)
                (Keeps session_id (is_creator session_id)) ms
                (λ r only creator. elim (Bool-cases (is_member session_id user_id r)) [
                  | inl same ↦ let it = only same in absurd (ground arith)
                  | inr differs ↦ rw differs creator
                ])
                (only_member session_id user_id m ms unique e))
              h
      ]

  -- A table on which the check passed keeps a creator of every session.
  set_role-has_creator :
      (faults : Faults) (session : ℕ) (ms : List Membership)
      → UniqueMembers ms
      → check_role_change faults session_id user_id new_role ms ≡ may_write
      → has_creator session ms ≡ true
      → has_creator session (set_role session_id user_id new_role now ms) ≡ true
  set_role-has_creator faults session ms unique ok h = elim (Bool-cases (session == session_id)) [
    | inr differs ↦
        set_role_by session (is_creator session) ms
          (All-of (Keeps session (is_creator session)) (λ r creator. ground arith) ms) h
    | inl same ↦ elim (Bool-cases (str_eq new_role "creator")) [
      | inl promoted ↦
          set_role_by session (is_creator session) ms
            (All-of (Keeps session (is_creator session)) (λ r creator. ground arith) ms) h
      | inr other ↦
          let it : session ≡ session_id = ground arith in
          rw it (demoted-has_creator faults ms unique ok other (rw it at h))
    ]
  ]

  still_missing :
      (s u : ℕ) (ms : List Membership)
      → find (is_member s u) ms ≡ none
      → find (is_member s u) (set_role session_id user_id new_role now ms) ≡ none
  unfolding find set_role update_where
  still_missing s u [] h = refl
  still_missing s u (m ∷ ms) h = ground (arith, still_missing s u ms)

  set_role-UniqueMembers :
      (ms : List Membership)
      → UniqueMembers ms
      → UniqueMembers (set_role session_id user_id new_role now ms)
  unfolding UniqueMembers set_role update_where
  set_role-UniqueMembers [] h = tt
  set_role-UniqueMembers (m ∷ ms) (alone, unique) =
      elim (Bool-cases (is_member session_id user_id m)) [
        | inl e ↦
            rw e (still_missing m.session_id m.user_id ms alone, set_role-UniqueMembers ms unique)
        | inr e ↦
            rw e (still_missing m.session_id m.user_id ms alone, set_role-UniqueMembers ms unique)
      ]

-- A request to change a role, the time and the statements that fail.
pub record Change : Type 0 where
  pub session_id : ℕ
  pub user_id : ℕ
  pub new_role : String
  pub now : ℕ
  pub faults : Faults

-- Changes that run one after another.
unfoldable pub change_all : List Change → List Membership → List Membership
change_all [] ms = ms
change_all (c ∷ cs) ms =
    change_all cs
      (update_session_membership_role c.faults c.session_id c.user_id c.new_role c.now ms).1

-- A change leaves the table as it is, or its check passed and it wrote the role.
after_check :
    (c : Change) (ms : List Membership) (check : Check)
    → check_role_change c.faults c.session_id c.user_id c.new_role ms ≡ check
    → let after =
        (update_session_membership_role c.faults c.session_id c.user_id c.new_role c.now ms).1 in
      (after ≡ ms)
      ⊎ ((check ≡ may_write) × (after ≡ set_role c.session_id c.user_id c.new_role c.now ms))
unfolding update_session_membership_role
after_check c ms (refused e) h = inl (rw (h, update_session_membership_role))
after_check c ms same_role h = inl (rw (h, update_session_membership_role))
after_check c ms may_write h = elim (Bool-cases c.faults.write_fails) [
  | inl fails ↦ inl (rw (h, fails, update_session_membership_role))
  | inr works ↦ inr (refl, rw (h, works, update_session_membership_role))
]

change-has_creator :
    (c : Change) (session : ℕ) (ms : List Membership)
    → UniqueMembers ms
    → has_creator session ms ≡ true
    → let after =
        (update_session_membership_role c.faults c.session_id c.user_id c.new_role c.now ms).1 in
      UniqueMembers after × (has_creator session after ≡ true)
change-has_creator c session ms unique h = elim (after_check c ms _ refl) [
  | inl same ↦ rw same (unique, h)
  | inr (ok, written) ↦ rw written (
    set_role-UniqueMembers c.session_id c.user_id c.new_role c.now ms unique,
    set_role-has_creator c.session_id c.user_id c.new_role c.now c.faults session ms unique ok h,
  )
]

-- Where no user has two memberships of one session, changes of roles that run one after another,
-- whichever of their statements fail, leave a creator in each session that had one.
pub change_all-has_creator :
    (cs : List Change) (session : ℕ) (ms : List Membership)
    → UniqueMembers ms
    → has_creator session ms ≡ true
    → has_creator session (change_all cs ms) ≡ true
unfolding change_all
change_all-has_creator [] session ms unique h = h
change_all-has_creator (c ∷ cs) session ms unique h =
    let (unique', h') = change-has_creator c session ms unique h in
    change_all-has_creator cs session _ unique' h'
