-- ===== src/Invitations/Manage/Links.antt =====
-- A new link for an invitation replaces the old one.
use talkback.Prelude.{
  ℕ, String, not, ◌&&◌, none, some, List, [], ◌∷◌, ◌≡◌, ◌≢◌, refl, sym, ap, ◌∙◌, arith, inl, inr,
  Bool-cases, Option-cases, All, All-mono, find, find-true, update_where, ==_iff, str_eq, eq_iff,
  eq_refl, if◌then◌else◌,
}
use talkback.Invitations.Model.{Invitation, invalid_token, Outcome-cases, failed, succeeded}
use talkback.Invitations.Repository.{
  has_id, has_hash, get_by_id, get_by_token_hash, update_token_and_expiry,
}
use talkback.Invitations.Service.{
  Outside, Db, Faults, hash_token, accept_url_of, expiry_from, lookup_id, lookup_token,
}
use talkback.Invitations.Accept.{usable_error, accept, resolve}
use talkback.Invitations.Manage.{rotate_token, get_accept_url}

-- The row of an invitation with a new link.
abbrev relinked : String → ℕ → ℕ → Invitation → Invitation
relinked hash expires_at now inv = record inv {
  token_hash = hash;
  expires_at = expires_at;
  updated_at = now;
}

find-relinked :
    (hash : String) (expires_at now id : ℕ) (inv : Invitation) (invs : List Invitation)
    → find (has_id id) invs ≡ some inv
    → find (λ r. has_hash hash r && not (has_id id r)) invs ≡ none
    → find (has_hash hash) (update_where (has_id id) (relinked hash expires_at now) invs)
      ≡ some (relinked hash expires_at now inv)
unfolding find update_where
find-relinked hash expires_at now id inv [] h fresh = absurd (cc)
find-relinked hash expires_at now id inv (r ∷ rs) h fresh =
    ground (arith, h, fresh, eq_refl hash, find-relinked hash expires_at now id inv rs)

-- Of the rows of before, those with the old hash have the identifier.
find_old_link :
    (old new : String) (expires_at now id : ℕ) (invs : List Invitation)
    → old ≢ new
    → All (λ r. r.token_hash ≡ old → r.id ≡ id) invs
    → find (has_hash old) (update_where (has_id id) (relinked new expires_at now) invs) ≡ none
unfolding find update_where
find_old_link old new expires_at now id [] differ unique = refl
find_old_link old new expires_at now id (r ∷ rs) differ (u, unique) = ground (
  arith,
  u,
  eq_iff new old,
  eq_iff r.token_hash old,
  ==_iff r.id id,
  differ,
  find_old_link old new expires_at now id rs differ unique,
)

update_succeeded :
    (id : ℕ) (hash : String) (expires_at now : ℕ) (invs invs' : List Invitation)
    → update_token_and_expiry id hash expires_at now invs ≡ some invs'
    → (find (λ r. has_hash hash r && not (has_id id r)) invs ≡ none)
      × (update_where (has_id id) (relinked hash expires_at now) invs ≡ invs')
unfolding update_token_and_expiry
update_succeeded id hash expires_at now invs invs' h =
    elim (Option-cases (find (λ r. has_hash hash r && not (has_id id r)) invs)) [
      | inr (clash, e) ↦ let h' = rw (e, update_token_and_expiry) at h in absurd (cc)
      | inl e ↦ let h' = rw (e, update_token_and_expiry) at h in (e, cc)
    ]

module _ {W : Type 0} (env : Outside W) where
  -- What a new link, of the token `raw`, leaves behind.
  pub record Relinked (raw : String) (id now : ℕ) (db db' : Db W) : Type 0 where
    pub inv : Invitation
    pub found : get_by_id id db.invitations ≡ some inv
    pub same_id : inv.id ≡ id
    pub usable : usable_error inv now ≡ none
    pub new_link :
        get_by_token_hash (env.sha256_hex raw) db'.invitations
        ≡ some (relinked (env.sha256_hex raw) (expiry_from env now) now inv)
    pub rows :
        update_where
          (has_id inv.id)
          (relinked (env.sha256_hex raw) (expiry_from env now) now)
          db.invitations
        ≡ db'.invitations
    pub same_outside : db'.outside ≡ db.outside

  lookup_inv :
      (faults : Faults) (id : ℕ) (db : Db W) (inv : Invitation)
      → lookup_id env faults id db ≡ some inv
      → (get_by_id id db.invitations ≡ some inv) × (inv.id ≡ id)
  unfolding lookup_id get_by_id
  lookup_inv faults id db inv h =
      let h' : find (has_id id) db.invitations ≡ some inv = ground (arith, h) in
      (h', (==_iff inv.id id).0 (find-true (has_id id) db.invitations inv h'))

  written-Relinked :
      (raw : String) (id now : ℕ) (db : Db W) (inv : Invitation) (invs : List Invitation)
      → get_by_id id db.invitations ≡ some inv
      → inv.id ≡ id
      → usable_error inv now ≡ none
      → update_token_and_expiry inv.id (env.sha256_hex raw) (expiry_from env now) now db.invitations
        ≡ some invs
      → Relinked raw id now db (record db { invitations = invs })
  unfolding get_by_id get_by_token_hash
  written-Relinked raw id now db inv invs found same usable h =
      let (fresh, written) =
        update_succeeded inv.id (env.sha256_hex raw) (expiry_from env now) now db.invitations invs
          h in
      let here : find (has_id inv.id) db.invitations ≡ some inv =
        ap (λ k. find (has_id k) db.invitations) same ∙ found in
      record {
        inv = inv;
        found = found;
        same_id = same;
        usable = usable;
        new_link = rw (sym written) (
            find-relinked (env.sha256_hex raw) (expiry_from env now) now inv.id inv db.invitations
              here fresh);
        rows = written;
        same_outside = refl;
      }

  rotate_token-Relinked :
      (faults : Faults) (raw : String) (id now : ℕ) (db : Db W) (out : String × Invitation)
      → (rotate_token env faults (some raw) id now db).0 ≡ succeeded out
      → (out.0 ≡ raw) × Relinked raw id now db (rotate_token env faults (some raw) id now db).1
  unfolding rotate_token
  rotate_token-Relinked faults raw id now db out h =
      elim (Option-cases (lookup_id env faults id db)) [
        | inl missing ↦ let h' = rw (missing, rotate_token) at h in absurd (cc)
        | inr (inv, e) ↦ elim (Option-cases (usable_error inv now)) [
          | inr (err, refused) ↦ let h' = rw (e, refused, rotate_token) at h in absurd (cc)
          | inl usable ↦
              let (found, same) = lookup_inv faults id db inv e in
              let written =
                update_token_and_expiry inv.id (hash_token env raw) (expiry_from env now) now
                  db.invitations in
              elim (Option-cases (if faults.write_fails then none else written)) [
                | inl broken ↦ let h' = rw (e, usable, broken, rotate_token) at h in absurd (cc)
                | inr (invs, w) ↦
                    let h' = rw (e, usable, w, rotate_token) at h in
                    rw (e, usable, w, rotate_token)
                      (
                        cc,
                        written-Relinked raw id now db inv invs found same usable
                            (ground (arith, w)),
                      )
              ]
        ]
      ]

  -- Where GetAcceptURL gives a link, it is that of the new token, which finds the invitation with
  -- its new time of expiry; the invitation was pending and had not expired, and nothing else than
  -- its row changed.
  get_accept_url-Relinked :
      (faults : Faults) (raw : String) (id now : ℕ) (db : Db W) (url : String)
      → (get_accept_url env faults (some raw) id now db).0 ≡ succeeded url
      → (url ≡ accept_url_of env raw)
        × Relinked raw id now db (get_accept_url env faults (some raw) id now db).1
  unfolding get_accept_url
  get_accept_url-Relinked faults raw id now db url h =
      elim (Outcome-cases (rotate_token env faults (some raw) id now db).0) [
        | inl (e, refused) ↦ let h' = rw (refused, get_accept_url) at h in absurd (cc)
        | inr ((raw', inv), e) ↦
            let h' : accept_url_of env raw' ≡ url = ground (arith, rw (e, get_accept_url) at h) in
            let (same, r) = rotate_token-Relinked faults raw id now db (raw', inv) e in
            (sym h' ∙ ap (accept_url_of env) same, r)
      ]

  lookup_old :
      (faults : Faults) (raw old : String) (id now : ℕ) (db db' : Db W)
      → Relinked raw id now db db'
      → env.sha256_hex old ≢ env.sha256_hex raw
      → All (λ r. r.token_hash ≡ env.sha256_hex old → r.id ≡ id) db.invitations
      → lookup_token env faults old db' ≡ none
  unfolding lookup_token get_by_token_hash
  lookup_old faults raw old id now db db' r differ unique =
      let gone =
        find_old_link (env.sha256_hex old) (env.sha256_hex raw) (expiry_from env now) now r.inv.id
          db.invitations differ
          (All-mono _ _ db.invitations (λ x u e. u e ∙ sym r.same_id) unique) in
      let gone' = rw r.rows at gone in ground (arith, gone')

  -- After a new link, the old token is unknown: with another hash, and where no other row has the
  -- old hash, neither Resolve nor Accept takes it any longer.
  pub get_accept_url_old_link :
      (faults : Faults) (raw old : String) (id now : ℕ) (db : Db W) (url : String)
      → (get_accept_url env faults (some raw) id now db).0 ≡ succeeded url
      → env.sha256_hex old ≢ env.sha256_hex raw
      → All (λ r. r.token_hash ≡ env.sha256_hex old → r.id ≡ id) db.invitations
      → (faults' : Faults) (email : String) (now' : ℕ)
      → (resolve env faults' old now' (get_accept_url env faults (some raw) id now db).1
          ≡ failed invalid_token)
        × ((accept env faults' old email now' (get_accept_url env faults (some raw) id now db).1).0
            ≡ failed invalid_token)
  unfolding resolve accept
  get_accept_url_old_link faults raw old id now db url h differ unique faults' email now' =
      let (_, r) = get_accept_url-Relinked faults raw id now db url h in
      let gone =
        lookup_old faults' raw old id now db (get_accept_url env faults (some raw) id now db).1 r
          differ unique in
      (
        elim (Bool-cases (str_eq old "")) [
          | inl e ↦ rw (resolve, gone, e)
          | inr e ↦ rw (resolve, gone, e)
        ],
        rw (accept, gone),
      )
