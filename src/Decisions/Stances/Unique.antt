-- ===== src/Decisions/Stances/Unique.antt =====
-- One stance of each user in each session.
use talkback.Prelude.{
  ℕ, ◌≡◌, String, Bool, false, not, Option, none, some, List, [], ◌∷◌, ◌++◌, refl, inl, inr,
  Bool-cases, Option-cases, find, find-append, select, update_where, arith,
}
use talkback.Decisions.Members.{Membership}
use talkback.Decisions.Stances.{
  Kind, DecisionStance, is_stance, create_or_update_stance, delete_stance, Session, is_set,
  valid_stance, Request, Texts, save_stance, submit_stance, clear_stance,
}
use talkback.Decisions.Stances.Closing.{UniqueStances}

module _ (session user : ℕ) (f : DecisionStance → DecisionStance) where
  find-update_none :
      (s u : ℕ) (rows : List DecisionStance)
      → ((r : DecisionStance) → is_stance s u (f r) ≡ is_stance s u r)
      → find (is_stance s u) rows ≡ none
      → find (is_stance s u) (update_where (is_stance session user) f rows) ≡ none
  unfolding find update_where
  find-update_none s u [] same h = refl
  find-update_none s u (r ∷ rows) same h = ground (arith, same r, find-update_none s u rows same)

module _ (session user : ℕ) (kind : Kind) (rationale : Option String) (now : ℕ) where
  abbrev changed : DecisionStance → DecisionStance
  changed r = record r { stance = kind; rationale = rationale; updated_at = now }

  update-UniqueStances :
      (rows : List DecisionStance)
      → UniqueStances rows
      → UniqueStances (update_where (is_stance session user) changed rows)
  unfolding UniqueStances update_where
  update-UniqueStances [] h = tt
  update-UniqueStances (r ∷ rows) (alone, unique) =
      let rest = update-UniqueStances rows unique in
      let still =
        find-update_none session user changed r.session_id r.user_id rows (λ x. refl) alone in
      elim (Bool-cases (is_stance session user r)) [
        | inl e ↦ rw e (still, rest)
        | inr e ↦ rw e (still, rest)
      ]

append-UniqueStances :
    (r : DecisionStance) (rows : List DecisionStance)
    → find (is_stance r.session_id r.user_id) rows ≡ none
    → UniqueStances rows
    → UniqueStances (rows ++ r ∷ [])
unfolding UniqueStances find
append-UniqueStances r [] h unique = (refl, tt)
append-UniqueStances r (x ∷ rows) h (alone, unique) =
    let differs : is_stance r.session_id r.user_id x ≡ false = ground arith in
    let beside : is_stance x.session_id x.user_id r ≡ false = ground arith in
    (
      rw (find-append (is_stance x.session_id x.user_id) rows r alone, beside) refl,
      append-UniqueStances r rows (rw differs at h) unique,
    )

still_missing :
    (p kept : DecisionStance → Bool) (rows : List DecisionStance)
    → find p rows ≡ none
    → find p (select kept rows) ≡ none
unfolding find select
still_missing p kept [] h = refl
still_missing p kept (r ∷ rows) h = ground (arith, still_missing p kept rows)

select-UniqueStances :
    (kept : DecisionStance → Bool) (rows : List DecisionStance)
    → UniqueStances rows
    → UniqueStances (select kept rows)
unfolding UniqueStances select
select-UniqueStances kept [] h = tt
select-UniqueStances kept (r ∷ rows) (alone, unique) =
    let rest = select-UniqueStances kept rows unique in
    let still = still_missing (is_stance r.session_id r.user_id) kept rows alone in
    elim (Bool-cases (kept r)) [ inl e ↦ rw e (still, rest) | inr e ↦ rw e rest ]

create_or_update_stance-UniqueStances :
    (session user : ℕ) (kind : Kind) (rationale : Option String) (now : ℕ)
    (rows : List DecisionStance)
    → UniqueStances rows
    → UniqueStances (create_or_update_stance session user kind rationale now rows)
unfolding create_or_update_stance
create_or_update_stance-UniqueStances session user kind rationale now rows unique =
    elim (Option-cases (find (is_stance session user) rows)) [
      | inl e ↦ rw (e, create_or_update_stance) (append-UniqueStances _ rows e unique)
      | inr (old, e) ↦
          rw (e, create_or_update_stance)
            (update-UniqueStances session user kind rationale now rows unique)
    ]

save_stance-UniqueStances :
    (texts : Texts) (write_fails : Bool) (session : Session) (request : Option Request)
    (user_id now : ℕ) (ms : List Membership) (rows : List DecisionStance)
    → UniqueStances rows
    → UniqueStances (save_stance texts write_fails session request user_id now ms rows).1
unfolding save_stance
save_stance-UniqueStances texts write_fails session none user_id now ms rows unique = unique
save_stance-UniqueStances texts write_fails session (some r) user_id now ms rows unique =
    elim (Option-cases (valid_stance (texts.trim_space r.stance))) [
      | inl e ↦ rw (e, save_stance) unique
      | inr (kind, e) ↦ elim (Bool-cases write_fails) [
        | inl fails ↦ rw (e, fails, save_stance) unique
        | inr works ↦
            rw (e, works, save_stance)
              (create_or_update_stance-UniqueStances session.id user_id kind _ now rows unique)
      ]
    ]

-- A request to give a stance or to take it back, at any session and with any outcome, leaves no user
-- two stances in one session, where there were none before.
pub requests-UniqueStances :
    (texts : Texts) (write_fails : Bool) (session : Option Session) (request : Option Request)
    (user_id now : ℕ) (ms : List Membership) (rows : List DecisionStance)
    → UniqueStances rows
    → UniqueStances (submit_stance texts write_fails session request user_id now ms rows).1
      × UniqueStances (clear_stance write_fails session user_id ms rows).1
unfolding submit_stance clear_stance delete_stance
requests-UniqueStances texts write_fails none request user_id now ms rows unique = (unique, unique)
requests-UniqueStances texts write_fails (some session) request user_id now ms rows unique =
    let saved =
      save_stance-UniqueStances texts write_fails session request user_id now ms rows unique in
    let cleared = select-UniqueStances (λ s. not (is_stance session.id user_id s)) rows unique in
    (
      submitted saved,
      elim (Bool-cases (is_set session.decision_outcome)) [
        | inl locked ↦ rw (locked, clear_stance) unique
        | inr open_ ↦ elim (Bool-cases write_fails) [
          | inl fails ↦ rw (open_, fails, clear_stance) unique
          | inr works ↦ rw (open_, works, clear_stance) cleared
        ]
      ],
    )
  where
    submitted :
        UniqueStances (save_stance texts write_fails session request user_id now ms rows).1
        → UniqueStances
            (submit_stance texts write_fails (some session) request user_id now ms rows).1
    submitted saved = elim (Bool-cases (is_set session.primary_decision)) [
      | inr unset ↦ rw (unset, submit_stance) unique
      | inl set ↦ elim (Bool-cases (is_set session.decision_outcome)) [
        | inl locked ↦ rw (set, locked, submit_stance) unique
        | inr open_ ↦ rw (set, open_, submit_stance) saved
      ]
    ]
