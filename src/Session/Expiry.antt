-- ===== src/Session/Expiry.antt =====
-- session.go: when a session is expired, and what an update that fails leaves.
use mezon_sdk_go.Prelude.{
  ℕ, ◌^◌, ◌<◌, ◌≡◌, ◌↔◌, refl, sym, subst, inl, inr, ℤ, pos, [], ◌∷◌, none, some, true, Bytes,
  arith, ◌⊎◌,
}
use mezon_sdk_go.Errors.{Error, Result, ok, err}
use mezon_sdk_go.Session.{
  Session, Decoders, bits64, signed64, sub64, is_negative, is_expired, is_refresh_expired,
  decode_jwt, with_token, refresh_read, update_refresh, update_read, update,
}

sub64-pos :
    (a b : ℕ) → a < 2 ^ 63 → b < 2 ^ 63 → (is_negative (sub64 (pos a) (pos b)) ≡ true) ↔ (a < b)
unfolding sub64 bits64 signed64 is_negative
sub64-pos a b ha hb = ground arith

module _ {V : Type 0} where
  -- A session is expired exactly when its expiry lies before the given time, and so is its refresh
  -- token, for times from 1970 on that fit an int64: the subtraction does not overflow there.
  pub is_expired_lem :
      (s : Session V) (exp rexp now : ℕ)
      → s.expires_at ≡ pos exp
      → s.refresh_expires_at ≡ pos rexp
      → exp < 2 ^ 63
      → rexp < 2 ^ 63
      → now < 2 ^ 63
      → ((is_expired s (pos now) ≡ true) ↔ (exp < now))
        × ((is_refresh_expired s (pos now) ≡ true) ↔ (rexp < now))
  unfolding is_expired is_refresh_expired
  is_expired_lem s exp rexp now he hr fits_e fits_r fits = (
    subst (λ v. (is_negative (sub64 v (pos now)) ≡ true) ↔ (exp < now)) (sym he)
        (sub64-pos exp now fits_e fits),
    subst (λ v. (is_negative (sub64 v (pos now)) ≡ true) ↔ (rexp < now)) (sym hr)
        (sub64-pos rexp now fits_r fits),
  )

  -- The update is over the given tokens.
  abbrev pub Updated : Decoders V → Bytes → Bytes → Session V → Session V → Type 0
  Updated d token refresh_token s s' =
      (claims : ℤ × V) × (decode_jwt d token ≡ ok claims)
      × (s'.token ≡ token)
      × (s'.expires_at ≡ claims.0)
      × (s'.vars ≡ claims.1)
      × (((refresh_token ≡ [])
            × (s'.refresh_token ≡ s.refresh_token)
            × (s'.refresh_expires_at ≡ s.refresh_expires_at))
          ⊎ ((rclaims : ℤ × V) × (decode_jwt d refresh_token ≡ ok rclaims)
              × (s'.refresh_token ≡ refresh_token)
              × (s'.refresh_expires_at ≡ rclaims.0)))

  refresh_read-all :
      (d : Decoders V) (token refresh_token : Bytes) (claims : ℤ × V) (r : Result (ℤ × V))
      (s : Session V)
      → decode_jwt d token ≡ ok claims
      → decode_jwt d refresh_token ≡ r
      → let u = refresh_read token refresh_token claims r s in
        ((e : Error) × (u ≡ (s, some e))) ⊎ ((u.1 ≡ none) × Updated d token refresh_token s u.0)
  unfolding refresh_read with_token
  refresh_read-all d token refresh_token claims (err e) s h k = inl (_, refl)
  refresh_read-all d token refresh_token (exp, vars) (ok (rexp, rvars)) s h k =
      inr (refl, ((exp, vars), h, refl, refl, refl, inr ((rexp, rvars), k, refl, refl)))

  update_refresh-all :
      (d : Decoders V) (token refresh_token : Bytes) (claims : ℤ × V) (s : Session V)
      → decode_jwt d token ≡ ok claims
      → let u = update_refresh d token refresh_token claims s in
        ((e : Error) × (u ≡ (s, some e))) ⊎ ((u.1 ≡ none) × Updated d token refresh_token s u.0)
  unfolding update_refresh with_token
  update_refresh-all d token [] (exp, vars) s h =
      inr (refl, ((exp, vars), h, refl, refl, refl, inl (refl, refl, refl)))
  update_refresh-all d token (c ∷ cs) claims s h =
      refresh_read-all d token (c ∷ cs) claims (decode_jwt d (c ∷ cs)) s h refl

  update_read-all :
      (d : Decoders V) (token refresh_token : Bytes) (r : Result (ℤ × V)) (s : Session V)
      → decode_jwt d token ≡ r
      → let u = update_read d token refresh_token r s in
        ((e : Error) × (u ≡ (s, some e))) ⊎ ((u.1 ≡ none) × Updated d token refresh_token s u.0)
  unfolding update_read
  update_read-all d token refresh_token (err e) s h = inl (e, refl)
  update_read-all d token refresh_token (ok claims) s h =
      update_refresh-all d token refresh_token claims s h

  -- An update is all or nothing: it fails and the session is as it was, or it succeeds, and the
  -- session has the new token with the expiry and the variables of its claims, and the new refresh
  -- token with its expiry where one was given, the old ones else.
  pub update-all :
      (d : Decoders V) (token refresh_token : Bytes) (s : Session V)
      → let u = update d token refresh_token s in
        ((e : Error) × (u ≡ (s, some e))) ⊎ ((u.1 ≡ none) × Updated d token refresh_token s u.0)
  unfolding update
  update-all d token refresh_token s =
      update_read-all d token refresh_token (decode_jwt d token) s refl
