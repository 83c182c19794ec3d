-- ===== src/Session.antt =====
-- session.go: the session and its tokens. The two base64 decodings and the JSON decoding of the
-- claims are parameters; `V` is the type of the claims' custom variables.
pub mod Expiry
use mezon_sdk_go.Prelude.{
  ℕ, zero, suc, ◌+◌, ◌-◌, ◌%◌, ◌^◌, ℤ, pos, negsuc, List, [], ◌∷◌, Option, none, some, Bool, true,
  false, ltb, ◌==◌, if◌then◌else◌, Bytes, codes,
}
use mezon_sdk_go.Errors.{Error, err_text, Result, ok, err}
use mezon_sdk_go.Types.{parse_int}

pub record Session (V : Type 0) : Type 0 where
  pub token : Bytes
  pub refresh_token : Bytes
  pub created_at : ℤ
  pub expires_at : ℤ
  pub refresh_expires_at : ℤ
  pub user_id : Bytes
  pub vars : V
  pub api_url : Bytes
  pub id_token : Bytes
  pub ws_url : Bytes
  pub tcp_url : Bytes

-- `exp` is the text of a JSON number.
pub record Claims (V : Type 0) : Type 0 where
  pub exp : Bytes
  pub vrs : V

pub record Decoders (V : Type 0) : Type 0 where
  pub raw_url : Bytes → Result Bytes
  pub std : Bytes → Result Bytes
  pub claims : Bytes → Result (Claims V)
  pub no_vars : V

unfoldable pub onto_first : ℕ → List Bytes → List Bytes
onto_first c [] = (c ∷ []) ∷ []
onto_first c (part ∷ parts) = (c ∷ part) ∷ parts

-- strings.Split(token, ".")
unfoldable pub split_dots : Bytes → List Bytes
split_dots [] = [] ∷ []
split_dots (c ∷ cs) = if c == 46 then [] ∷ split_dots cs else onto_first c (split_dots cs)

unfoldable pub trim_after : ℕ → Bytes → Bytes
trim_after c [] = if c == 61 then [] else c ∷ []
trim_after c (d ∷ rest) = c ∷ d ∷ rest

-- strings.TrimRight(s, "=")
unfoldable pub trim_right_equals : Bytes → Bytes
trim_right_equals [] = []
trim_right_equals (c ∷ cs) = trim_after c (trim_right_equals cs)

-- int64: the bit pattern, and the number of one.
unfoldable pub bits64 : ℤ → ℕ
bits64 (pos n) = n % 2 ^ 64
bits64 (negsuc n) = 2 ^ 64 - 1 - n % 2 ^ 64

unfoldable pub signed64 : ℕ → ℤ
signed64 n = if ltb n (2 ^ 63) then pos n else negsuc (2 ^ 64 - 1 - n)

unfoldable pub sub64 : ℤ → ℤ → ℤ
sub64 a b = signed64 ((bits64 a + 2 ^ 64 - bits64 b) % 2 ^ 64)

unfoldable pub is_negative : ℤ → Bool
is_negative (pos n) = false
is_negative (negsuc n) = true

module _ {V : Type 0} where
  unfoldable pub is_expired : Session V → ℤ → Bool
  is_expired s now = is_negative (sub64 s.expires_at now)

  unfoldable pub is_refresh_expired : Session V → ℤ → Bool
  is_refresh_expired s now = is_negative (sub64 s.refresh_expires_at now)

  unfoldable pub expiry_of : Result (Claims V) → Result (ℤ × V)
  expiry_of (err e) = err e
  expiry_of (ok claims) = ok (parse_int claims.exp, claims.vrs)

  unfoldable pub read_payload : Decoders V → Result Bytes → Result (ℤ × V)
  read_payload d (err e) = err e
  read_payload d (ok payload) = expiry_of (d.claims payload)

  -- The standard encoding is tried where the URL encoding fails.
  unfoldable pub or_std : Decoders V → Bytes → Result Bytes → Result Bytes
  or_std d part (ok payload) = ok payload
  or_std d part (err e) = d.std part

  unfoldable pub decode_parts : Decoders V → List Bytes → Result (ℤ × V)
  decode_parts d (head ∷ body ∷ signature ∷ []) =
      read_payload d (or_std d body (d.raw_url (trim_right_equals body)))
  decode_parts d [] = err (err_text (codes "jwt is not valid"))
  decode_parts d (a ∷ []) = err (err_text (codes "jwt is not valid"))
  decode_parts d (a ∷ b ∷ []) = err (err_text (codes "jwt is not valid"))
  decode_parts d (a ∷ b ∷ c ∷ x ∷ rest) = err (err_text (codes "jwt is not valid"))

  unfoldable pub decode_jwt : Decoders V → Bytes → Result (ℤ × V)
  decode_jwt d token = decode_parts d (split_dots token)

  unfoldable pub with_token : Bytes → ℤ × V → Session V → Session V
  with_token token (exp, vars) s = record s { token = token; expires_at = exp; vars = vars }

  unfoldable pub refresh_read :
      Bytes → Bytes → ℤ × V → Result (ℤ × V) → Session V → Session V × Option Error
  refresh_read token refresh_token claims (err e) s =
      (s, some (err_text (codes "refresh jwt is not valid")))
  refresh_read token refresh_token claims (ok (rexp, vars)) s = (
    with_token token claims (record s { refresh_expires_at = rexp; refresh_token = refresh_token }),
    none,
  )

  unfoldable pub update_refresh :
      Decoders V → Bytes → Bytes → ℤ × V → Session V → Session V × Option Error
  update_refresh d token [] claims s = (with_token token claims s, none)
  update_refresh d token (c ∷ cs) claims s =
      refresh_read token (c ∷ cs) claims (decode_jwt d (c ∷ cs)) s

  unfoldable pub update_read :
      Decoders V → Bytes → Bytes → Result (ℤ × V) → Session V → Session V × Option Error
  update_read d token refresh_token (err e) s = (s, some e)
  update_read d token refresh_token (ok claims) s = update_refresh d token refresh_token claims s

  unfoldable pub update : Decoders V → Bytes → Bytes → Session V → Session V × Option Error
  update d token refresh_token s = update_read d token refresh_token (decode_jwt d token) s

  unfoldable pub checked : Session V × Option Error → Result (Session V)
  checked (s, none) = ok s
  checked (s, some e) = err e

  -- `now` is the clock's Unix time.
  unfoldable pub new_session :
      Decoders V → ℤ → Bytes → Bytes → Bytes → Bytes → Bytes → Bytes → Result (Session V)
  new_session d now token refresh_token user_id api_url id_token ws_url =
      let s : Session V = record {
        token = token;
        refresh_token = refresh_token;
        created_at = now;
        expires_at = pos 0;
        refresh_expires_at = pos 0;
        user_id = user_id;
        vars = d.no_vars;
        api_url = api_url;
        id_token = id_token;
        ws_url = ws_url;
        tcp_url = [];
      } in
      checked (update d token refresh_token s)
