-- ===== src/Auth/Sessions/Laws.antt =====
-- What a cookie is worth: who holds a session, and when it ends.
use ob2_turbo_quant.Common.{
  ℕ, ◌+◌, ◌*◌, ◌≤◌, ◌≡◌, refl, ◌≢◌, ◌⊎◌, inl, inr, true, not, Option, none, some, [], ◌∷◌, ◌++◌,
  arith, ltb, if◌then◌else◌, Text, text_key, text_eq, text_eq_iff, Lacks, sym, ap, ◌∙◌,
  Option-cases, Bool-cases, some_inj,
}
use ob2_turbo_quant.Common.JsMap
use ob2_turbo_quant.Common.JsMap.{
  IsDistinct, get-set, get-set_self, get-delete, get-delete_self, get-retain,
}
use ob2_turbo_quant.Auth.TimingSafe.{timing_safe_equal_iff}
use ob2_turbo_quant.Auth.Sessions.{
  SessionEntry, SessionStore, split_token, lookup_live, verify_sig, create_session, resolve_session,
  revoke_session, revoke_user_sessions, sweep_expired, token_id,
}
use ob2_turbo_quant.Auth.Sessions.Tokens.{split_token_sound, split_token-join, token_id_of_split}

-- The entry that a live session is: looked up, and not past its end.
abbrev pub IsLive : ℕ → Text → SessionEntry → SessionStore → Type 0
IsLive now id entry st = (JsMap.get id st.sessions ≡ some entry) × (now ≤ entry.expires_at)

lookup_live_sound :
    (now : ℕ) (id : Text) (st : SessionStore) (entry : SessionEntry)
    → (lookup_live now id st).0 ≡ some entry
    → IsLive now id entry st
unfolding lookup_live
lookup_live_sound now id st entry h = ground arith

lookup_live_complete :
    (now : ℕ) (id : Text) (st : SessionStore) (entry : SessionEntry)
    → IsLive now id entry st
    → lookup_live now id st ≡ (some entry, st)
unfolding lookup_live
lookup_live_complete now id st entry (at, live) = rw (at, lookup_live) (ground arith)

live_entry : ℕ → Option SessionEntry → Option SessionEntry
live_entry now none = none
live_entry now (some entry) = if ltb entry.expires_at now then none else some entry

lookup_live-entry :
    (now : ℕ) (id : Text) (st : SessionStore)
    → (lookup_live now id st).0 ≡ live_entry now (JsMap.get id st.sessions)
unfolding lookup_live live_entry
lookup_live-entry now id st = ground arith

live_entry-kept :
    (now t : ℕ) (o : Option SessionEntry)
    → t ≤ now
    → live_entry now (JsMap.kept (λ e. not (ltb e.expires_at t)) o) ≡ live_entry now o
unfolding live_entry
live_entry-kept now t none h = refl
live_entry-kept now t (some entry) h = ground arith

lookup_live-sweep :
    (now t : ℕ) (id : Text) (st : SessionStore)
    → IsDistinct st.sessions
    → t ≤ now
    → (lookup_live now id (sweep_expired t st).0).0 ≡ (lookup_live now id st).0
unfolding sweep_expired
lookup_live-sweep now t id st d h =
    lookup_live-entry now id (sweep_expired t st).0
    ∙ ap (live_entry now) (get-retain (λ e. not (ltb e.expires_at t)) id st.sessions d)
    ∙ live_entry-kept now t (JsMap.get id st.sessions) h
    ∙ sym (lookup_live-entry now id st)

module _ (sign : Text → Text) where
  verify_sig_sound : (id sig : Text) → verify_sig sign id sig ≡ true → sig ≡ sign id
  unfolding verify_sig
  verify_sig_sound id sig h = sym ((timing_safe_equal_iff (sign id) sig).0 h)

  verify_sig_self : (id : Text) → verify_sig sign id (sign id) ≡ true
  unfolding verify_sig
  verify_sig_self id = (timing_safe_equal_iff (sign id) (sign id)).1 refl

  -- A cookie is refused unread, or holds an id with its signature, which is looked up.
  resolve_cases :
      (now : ℕ) (token : Text) (st : SessionStore)
      → (resolve_session sign now token st ≡ (none, st))
        ⊎ ((id : Text) × (split_token token ≡ some (id, sign id))
            × (resolve_session sign now token st ≡ lookup_live now id st))
  unfolding resolve_session
  resolve_cases now token st = elim (Option-cases (split_token token)) [
    | inl broken ↦ inl (rw (broken, resolve_session))
    | inr ((id, sig), split) ↦ elim (Bool-cases (verify_sig sign id sig)) [
      | inl good ↦
          let e = verify_sig_sound id sig good in
          inr (id, rw (← e) split, rw (split, resolve_session) (ground arith))
      | inr bad ↦ inl (rw (split, resolve_session) (ground arith))
    ]
  ]

  -- A cookie that resolves to an entry is an id with the signature of that id, the id is in the
  -- store with this entry, and the entry has not expired.
  pub resolve_sound :
      (now : ℕ) (token : Text) (st : SessionStore) (entry : SessionEntry)
      → (resolve_session sign now token st).0 ≡ some entry
      → (id : Text) × (token ≡ id ++ (b'.' ∷ sign id))
        × (token_id token ≡ some id)
        × IsLive now id entry st
  resolve_sound now token st entry h = elim (resolve_cases now token st) [
    | inl refused ↦ cc (ap (λ r. r.0) refused)
    | inr (id, split, found) ↦ (
      id,
      split_token_sound token id (sign id) split,
      token_id_of_split token id (sign id) split,
      lookup_live_sound now id st entry (sym (ap (λ r. r.0) found) ∙ h),
    )
  ]

  -- The cookie of a new session resolves to its user until the session's end, and the store stays
  -- as it is, if the id has no dot and neither the id nor its signature is empty.
  pub resolve-create :
      (now later : ℕ) (id username : Text) (st : SessionStore)
      → Lacks b'.' id
      → id ≢ []
      → sign id ≢ []
      → later ≤ now + st.ttl_sec * 1000
      → let (st', token, expires_at) = create_session sign now id username st in
        resolve_session sign later token st'
        ≡ (some (record { username = username; expires_at = expires_at; created_at = now }), st')
  unfolding create_session resolve_session
  resolve-create now later id username st l p q h =
      rw (split_token-join id (sign id) l p q, resolve_session)
        (rw (verify_sig_self id)
          (lookup_live_complete later id _ _ (get-set_self id _ st.sessions, h)))

  -- A cookie that opens a session after one was created is the new one's, or opened it before.
  pub resolve-create_only :
      (now made : ℕ) (id username token : Text) (st : SessionStore) (entry : SessionEntry)
      → (resolve_session sign now token (create_session sign made id username st).0).0 ≡ some entry
      → ((token ≡ (create_session sign made id username st).1) × (entry.username ≡ username))
        ⊎ ((resolve_session sign now token st).0 ≡ some entry)
  unfolding create_session resolve_session
  resolve-create_only now made id username token st entry h =
      elim (resolve_cases now token (create_session sign made id username st).0) [
        | inl refused ↦ cc (ap (λ r. r.0) refused)
        | inr (j, split, found) ↦
            let (at, live) =
              lookup_live_sound now j (create_session sign made id username st).0 entry
                (sym (ap (λ r. r.0) found) ∙ h) in
            let fresh : SessionEntry = record {
              username = username;
              expires_at = made + st.ttl_sec * 1000;
              created_at = made;
            } in
            let read = get-set id j fresh st.sessions in
            elim (Bool-cases (text_eq id j)) [
              | inl same ↦
                  let e = (text_eq_iff id j).0 same in
                  inl (
                    split_token_sound token j (sign j) split
                        ∙ ap (λ i. i ++ (b'.' ∷ sign i)) (sym e),
                    ap (λ x. x.username) (sym (some_inj fresh entry (sym (rw same at read) ∙ at))),
                  )
              | inr other ↦
                  let before : JsMap.get j st.sessions ≡ some entry = sym (rw other at read) ∙ at in
                  inr (
                    rw (split, resolve_session)
                      (rw (verify_sig_self j)
                        (ap (λ r. r.0) (lookup_live_complete now j st entry (before, live)))))
            ]
      ]

  kept_user :
      (username : Text) (o : Option SessionEntry) (entry : SessionEntry)
      → JsMap.kept (λ e. not (text_eq e.username username)) o ≡ some entry
      → entry.username ≢ username
  kept_user username none entry h = cc
  kept_user username (some e) entry h =
      ground (arith, text_eq_iff entry.username username, text_eq_iff e.username username)

  -- Where no session id stands twice, no cookie resolves to a user after that user's sessions are
  -- revoked.
  pub resolve-revoke_user :
      (now : ℕ) (token username : Text) (st : SessionStore) (entry : SessionEntry)
      → IsDistinct st.sessions
      → (resolve_session sign now token (revoke_user_sessions username st).0).0 ≡ some entry
      → entry.username ≢ username
  unfolding revoke_user_sessions
  resolve-revoke_user now token username st entry d h =
      let (id, _, _, live) = resolve_sound now token (revoke_user_sessions username st).0 entry h in
      kept_user username (JsMap.get id st.sessions) entry
        (sym (get-retain (λ e. not (text_eq e.username username)) id st.sessions d) ∙ live.0)

  -- After a cookie's session is revoked, the cookie resolves to nothing.
  pub resolve-revoke :
      (now : ℕ) (token : Text) (st : SessionStore)
      → (resolve_session sign now token (revoke_session token st).0).0 ≡ none
  unfolding revoke_session
  resolve-revoke now token st =
      elim (Option-cases (resolve_session sign now token (revoke_session token st).0).0) [
        | inl nothing ↦ nothing
        | inr (entry, h) ↦
            let (id, _, named, live) =
              resolve_sound now token (revoke_session token st).0 entry h in
            let gone : (revoke_session token st).0.sessions ≡ JsMap.delete id st.sessions =
              rw (named, revoke_session) in
            cc (get-delete_self id st.sessions, ap (JsMap.get id) gone, live.0)
      ]

  resolve_same :
      (now : ℕ) (token : Text) (st st' : SessionStore)
      → ((id : Text) → (lookup_live now id st).0 ≡ (lookup_live now id st').0)
      → (resolve_session sign now token st).0 ≡ (resolve_session sign now token st').0
  unfolding resolve_session
  resolve_same now token st st' same = elim (Option-cases (split_token token)) [
    | inl broken ↦ rw (broken, resolve_session) refl
    | inr ((id, sig), split) ↦
        rw (split, resolve_session) (ground (arith, same id, Bool-cases (verify_sig sign id sig)))
  ]

  -- Where no session id stands twice, a sweep changes no answer at the same time or later.
  pub resolve-sweep :
      (now t : ℕ) (token : Text) (st : SessionStore)
      → IsDistinct st.sessions
      → t ≤ now
      → (resolve_session sign now token (sweep_expired t st).0).0
        ≡ (resolve_session sign now token st).0
  resolve-sweep now t token st d h =
      resolve_same now token (sweep_expired t st).0 st (λ id. lookup_live-sweep now t id st d h)
