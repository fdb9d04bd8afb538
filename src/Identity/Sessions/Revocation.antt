-- ===== src/Identity/Sessions/Revocation.antt =====
-- What revoking sessions does to the tokens.
use personal_finance_public.Base.{
  ⊤, String, ℕ, Bool, true, false, ◌≡◌, ◌≢◌, refl, ap, ◌∙◌, sym, Option, none, some, is_some, List,
  [], ◌∷◌, find?, ◌==◌, ==_refl, arith, ok, Bool-cases, inl, inr,
}
use personal_finance_public.Base.Text
use personal_finance_public.Storage.Table.{update}
use personal_finance_public.Storage.Exec.{◌>>=◌}
use personal_finance_public.Storage.Schema.{SessionRecord, session_keyed}
use personal_finance_public.Storage.Schema.IdentityRows.{update_session_row}
use personal_finance_public.Storage.World.{World, unit_of_work, execute}
use personal_finance_public.Identity.Credentials.{IdentityEnv, digest}
use personal_finance_public.Identity.Sessions.{
  AuthenticatedPrincipal, session_of, authenticate, revoke_found, revoke,
}
use personal_finance_public.Identity.Sessions.Authentication.{
  IsPrincipalOf, authenticate-IsPrincipalOf,
}

-- The row that a test finds, in its new version, is found again.
find-update :
    (test : SessionRecord → Bool) (new : SessionRecord) (rows : List SessionRecord)
    {old : SessionRecord}
    → find? test rows ≡ some old
    → old.id ≡ new.id
    → test new ≡ true
    → find? test (update new rows) ≡ some new
unfolding update
find-update test new [] h key t = absurd (ground (arith, h))
find-update test new (x ∷ rows) {old} h key t = elim (Bool-cases (x.id == new.id)) [
  | inl same ↦ rw (same, t) refl
  | inr other ↦ elim (Bool-cases (test x)) [
    | inl found ↦
        let first : x ≡ old = ground (arith, found, h) in
        absurd (ground (arith, other, ap (λ s. s.id) first, key, ==_refl new.id))
    | inr next ↦ rw (other, next) (find-update test new rows (rw next at h) key t)
  ]
]

find-holds :
    (test : SessionRecord → Bool) (rows : List SessionRecord) {s : SessionRecord}
    → find? test rows ≡ some s
    → test s ≡ true
find-holds test [] h = absurd (ground (arith, h))
find-holds test (x ∷ rows) {s} h = ground (arith, h, find-holds test rows {s = s})

IsRevoked : Option SessionRecord → Type 0
IsRevoked none = ⊤
IsRevoked (some s) = is_some s.revoked_at ≡ true

revoke_found-IsRevoked :
    (e : IdentityEnv) (token : String) (t : ℕ) (w : World) (found : Option SessionRecord)
    → session_of e token w.db ≡ found
    → IsRevoked (session_of e token (unit_of_work (revoke_found e t found) w).1.db)
unfolding IsRevoked unit_of_work ◌>>=◌ execute update_session_row
revoke_found-IsRevoked e token t w none h = rw h tt
revoke_found-IsRevoked e token t w (some s) h = elim (Bool-cases (is_some s.revoked_at)) [
  | inl already ↦ rw already (rw h already)
  | inr open_session ↦
      let test : SessionRecord → Bool = λ x. x.token_hash == digest e token in
      let gone : SessionRecord = record s { revoked_at = some t } in
      rw open_session
        (rw (find-update test gone w.db.sessions h refl (find-holds test w.db.sessions h)) refl)
]

not-live :
    (o : Option SessionRecord) (s : SessionRecord) (t : ℕ) (p : AuthenticatedPrincipal)
    → IsRevoked o
    → o ≡ some s
    → IsPrincipalOf s t p
    → ⊥
unfolding IsRevoked
not-live none s t p r h live = ground (arith, h)
not-live (some x) s t p r h live =
    let same : x ≡ s = ground (arith, h) in
    ground (arith, r, ap (λ y. y.revoked_at) same, live.not_revoked)

revoke-IsRevoked :
    (e : IdentityEnv) (token : String) (t : ℕ) (w : World)
    → Text.is_empty token ≡ false
    → IsRevoked (session_of e token (revoke e token t w).1.db)
unfolding revoke unit_of_work ◌>>=◌
revoke-IsRevoked e token t w h =
    rw h (revoke_found-IsRevoked e token t w (session_of e token w.db) refl)

-- Once a token is revoked, no check of it returns a principal, at whatever time and whatever the
-- clocks say, in any world with that database.
pub revoke-authenticate :
    (e : IdentityEnv) (token : String) (t : ℕ) (w w' : World) (at : Option ℕ)
    (p : AuthenticatedPrincipal)
    → w'.db ≡ (revoke e token t w).1.db
    → (authenticate e token at w').0 ≢ ok (some p)
unfolding authenticate
revoke-authenticate e token t w w' at p same h = elim (Bool-cases (Text.is_empty token)) [
  | inl empty ↦ absurd (ground (arith, empty, h))
  | inr present ↦
      let (s, found, live) = authenticate-IsPrincipalOf e token at w' h in
      absurd (
        not-live _ s _ p (revoke-IsRevoked e token t w present)
          (ap (session_of e token) (sym same) ∙ found) live)
]
