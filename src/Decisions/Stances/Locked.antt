-- ===== src/Decisions/Stances/Locked.antt =====
-- What the requests leave of the stances: the table as a map from sessions and users to what they
-- said.
use talkback.Prelude.{
  ℕ, ◌≡◌, ◌⊎◌, String, Bool, true, false, not, ◌&&◌, Option, none, some, is_some, List, [], ◌∷◌,
  refl, inl, inr, Bool-cases, Option-cases, ◌==◌, find, find-append, find-append_some, find-true,
  find-update_where, select, update_where, if◌then◌else◌, arith,
}
use mathlib.Core.Option
use talkback.Decisions.Members.{Membership}
use talkback.Decisions.Stances.{
  Kind, DecisionStance, is_stance, create_or_update_stance, get_stance_by_user_and_session,
  delete_stance, Session, is_set, valid_stance, Request, Reply, stances, Texts, save_stance,
  submit_stance, clear_stance,
}

abbrev pub words : DecisionStance → Kind × Option String
words s = (s.stance, s.rationale)

-- What a user said in a session.
unfoldable pub said : ℕ → ℕ → List DecisionStance → Option (Kind × Option String)
said session_id user_id rows =
    Option.map words (get_stance_by_user_and_session session_id user_id rows)

abbrev is_same : ℕ → ℕ → ℕ → ℕ → Bool
is_same session user s u = (s == session) && (u == user)

module _ (q kept : DecisionStance → Bool) where
  find-select_out :
      (rows : List DecisionStance)
      → ((r : DecisionStance) → q r ≡ true → kept r ≡ false)
      → find q (select kept rows) ≡ none
  unfolding find select
  find-select_out [] h = refl
  find-select_out (r ∷ rows) h = ground (arith, h r, find-select_out rows h)

  find-select_kept :
      (rows : List DecisionStance)
      → ((r : DecisionStance) → q r ≡ true → kept r ≡ true)
      → find q (select kept rows) ≡ find q rows
  unfolding find select
  find-select_kept [] h = refl
  find-select_kept (r ∷ rows) h = ground (arith, h r, find-select_kept rows h)

said-delete_stance :
    (session user s u : ℕ) (rows : List DecisionStance)
    → said s u (delete_stance session user rows)
      ≡ (if is_same session user s u then none else said s u rows)
unfolding said get_stance_by_user_and_session delete_stance
said-delete_stance session user s u rows = elim (Bool-cases (is_same session user s u)) [
  | inl e ↦
      rw
        (
          e,
          find-select_out (is_stance s u) (λ r. not (is_stance session user r)) rows
              (λ r h. ground arith),
        )
        refl
  | inr e ↦
      rw
        (
          e,
          find-select_kept (is_stance s u) (λ r. not (is_stance session user r)) rows
              (λ r h. ground arith),
        )
        refl
]

module _ (session user : ℕ) (kind : Kind) (rationale : Option String) (now : ℕ) where
  abbrev changed : DecisionStance → DecisionStance
  changed r = record r { stance = kind; rationale = rationale; updated_at = now }

  find_same :
      (s u : ℕ) (rows : List DecisionStance)
      → is_same session user s u ≡ true
      → find (is_stance s u) rows ≡ find (is_stance session user) rows
  find_same s u rows e =
      let it : s ≡ session = ground arith in
      let they : u ≡ user = ground arith in rw (it, they) refl

  said_update :
      (s u : ℕ) (rows : List DecisionStance)
      → is_some (find (is_stance session user) rows) ≡ true
      → said s u (update_where (is_stance session user) changed rows)
        ≡ (if is_same session user s u then some (kind, rationale) else said s u rows)
  unfolding said get_stance_by_user_and_session
  said_update s u rows h =
      let updated =
        find-update_where (is_stance s u) (is_stance session user) changed rows (λ r e. refl) in
      elim (Option-cases (find (is_stance s u) rows)) [
        | inl e ↦ elim (Bool-cases (is_same session user s u)) [
          | inl same ↦ let gone = find_same s u rows same in absurd (ground arith)
          | inr differs ↦ rw (updated, e, differs) refl
        ]
        | inr (r, e) ↦
            let key = find-true (is_stance s u) rows r e in
            elim (Bool-cases (is_same session user s u)) [
              | inl same ↦
                  let hit : is_stance session user r ≡ true = ground arith in
                  rw (updated, e, same, hit) refl
              | inr differs ↦
                  let miss : is_stance session user r ≡ false = ground arith in
                  rw (updated, e, differs, miss) refl
            ]
      ]

  said-create_or_update_stance :
      (s u : ℕ) (rows : List DecisionStance)
      → said s u (create_or_update_stance session user kind rationale now rows)
        ≡ (if is_same session user s u then some (kind, rationale) else said s u rows)
  unfolding said get_stance_by_user_and_session create_or_update_stance
  said-create_or_update_stance s u rows = elim (Option-cases (find (is_stance session user) rows)) [
    | inr (old, e) ↦ rw (e, create_or_update_stance) (said_update s u rows (rw e refl))
    | inl e ↦ elim (Option-cases (find (is_stance s u) rows)) [
      | inl gone ↦
          rw (e, find-append (is_stance s u) rows _ gone, gone, create_or_update_stance)
            (ground arith)
      | inr (r, there) ↦ elim (Bool-cases (is_same session user s u)) [
        | inl same ↦ let it = find_same s u rows same in absurd (cc)
        | inr differs ↦
            rw
              (
                e,
                find-append_some (is_stance s u) rows _ r there,
                there,
                differs,
                create_or_update_stance,
              )
              refl
      ]
    ]
  ]

abbrev pub is_written : Reply → Bool
is_written (stances aggregate mine readiness) = true
is_written reply = false

-- A request wrote nothing and is refused, or the decision is open and it wrote this stance.
pub data Wrote (texts : Texts) (session : Session) (user_id : ℕ) (request : Option Request)
    (rows : List DecisionStance) : Reply × List DecisionStance → Type 0 where
  nothing :
      (reply : Reply)
      → is_written reply ≡ false
      → Wrote texts session user_id request rows (reply, rows)
  stance_of :
      (reply : Reply) (rows' : List DecisionStance) (r : Request) (kind : Kind)
      → is_written reply ≡ true
      → is_set session.primary_decision ≡ true
      → is_set session.decision_outcome ≡ false
      → request ≡ some r
      → valid_stance (texts.trim_space r.stance) ≡ some kind
      → ((s u : ℕ)
          → said s u rows' ≡ (
              if is_same session.id user_id s u
              then some (kind, Option.map (texts.limit_bytes 500) r.rationale)
              else said s u rows))
      → Wrote texts session user_id request rows (reply, rows')

save_stance-Wrote :
    (texts : Texts) (write_fails : Bool) (session : Session) (request : Option Request)
    (user_id now : ℕ) (ms : List Membership) (rows : List DecisionStance)
    → is_set session.primary_decision ≡ true
    → is_set session.decision_outcome ≡ false
    → Wrote texts session user_id request rows
        (save_stance texts write_fails session request user_id now ms rows)
unfolding save_stance
save_stance-Wrote texts write_fails session none user_id now ms rows set open_ = nothing _ refl
save_stance-Wrote texts write_fails session (some r) user_id now ms rows set open_ =
    elim (Option-cases (valid_stance (texts.trim_space r.stance))) [
      | inl e ↦ rw (e, save_stance) (nothing _ refl)
      | inr (kind, e) ↦ elim (Bool-cases write_fails) [
        | inl fails ↦ rw (e, fails, save_stance) (nothing _ refl)
        | inr works ↦
            let told =
              said-create_or_update_stance session.id user_id kind
                (Option.map (texts.limit_bytes 500) r.rationale) now in
            rw (e, works, save_stance)
              (stance_of _ _ r kind refl set open_ refl e (λ s u. told s u rows))
      ]
    ]

-- A request to a session that is found either is refused and writes nothing, or the session has a
-- primary decision and no outcome, the request names a stance, and what the user said in the session
-- is that stance with the first 500 bytes of the rationale, and no other stance has changed.
pub submit_stance-Wrote :
    (texts : Texts) (write_fails : Bool) (session : Session) (request : Option Request)
    (user_id now : ℕ) (ms : List Membership) (rows : List DecisionStance)
    → Wrote texts session user_id request rows
        (submit_stance texts write_fails (some session) request user_id now ms rows)
unfolding submit_stance
submit_stance-Wrote texts write_fails session request user_id now ms rows =
    elim (Bool-cases (is_set session.primary_decision)) [
      | inr unset ↦ rw unset (nothing _ refl)
      | inl set ↦ elim (Bool-cases (is_set session.decision_outcome)) [
        | inl locked ↦ rw (set, locked) (nothing _ refl)
        | inr open_ ↦
            rw (set, open_)
              (save_stance-Wrote texts write_fails session request user_id now ms rows set open_)
      ]
    ]

-- A request to take back a stance either is refused and writes nothing, or the session has no
-- outcome, the user has no stance in it any more, and no other stance has changed.
clear_stance-Cleared :
    (write_fails : Bool) (session : Session) (user_id : ℕ) (ms : List Membership)
    (rows : List DecisionStance)
    → let (reply, rows') = clear_stance write_fails (some session) user_id ms rows in
      ((is_written reply ≡ false) × (rows' ≡ rows))
      ⊎ ((is_set session.decision_outcome ≡ false)
          × ((s u : ℕ)
              → said s u rows' ≡ (if is_same session.id user_id s u then none else said s u rows)))
unfolding clear_stance
clear_stance-Cleared write_fails session user_id ms rows =
    elim (Bool-cases (is_set session.decision_outcome)) [
      | inl locked ↦ rw (locked, clear_stance) (inl (refl, refl))
      | inr open_ ↦ elim (Bool-cases write_fails) [
        | inl fails ↦ rw (open_, fails, clear_stance) (inl (refl, refl))
        | inr works ↦
            rw (open_, works, clear_stance)
              (inr (refl, λ s u. said-delete_stance session.id user_id s u rows))
      ]
    ]
