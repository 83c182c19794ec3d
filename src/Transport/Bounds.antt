-- ===== src/Transport/Bounds.antt =====
-- transport.go, what every read of a frame keeps: the bound on the payload, and progress.
use native.Mathlib.Nat.{le_refl, le_trans}
use mezon_sdk_go.Prelude.{
  ℕ, zero, suc, ◌+◌, ◌*◌, ◌≤◌, ◌<◌, ◌≡◌, refl, Bytes, Bool, true, false, [], ◌∷◌, ◌==◌, not, Option,
  none, some, arith, length, length-take, length-drop, take, drop, bit_and, big_endian, subst,
}
use mezon_sdk_go.Transport.{
  WireFrame, Result, ok, err, Reader, pure, ◌>>=◌, ◌>>◌, check_frame_size, read_byte, read_full,
  max_tcp_frame_size,
}
use mezon_sdk_go.Transport.Reader.{
  unmask, apply_mask, ws_result, read_mask_key, read_ws_length, read_web_socket_frame, read_pong,
  read_api_chunk, extended_length, read_abridged_length, read_abridged, read_by_prefix,
  read_frame_once, read_frame, envelope_frame, pong_frame, chunk_frame, little_endian_24,
}

-- A successful result meets the postcondition and leaves at most `n` bytes.
abbrev pub Post : {A : Type 0} → (A → Type 0) → ℕ → Result (A × Bytes) → Type 0
Post P n (ok (a, r)) = P a × (length r ≤ n)
Post P n (err e) = Unit

abbrev pub Ensures : {A : Type 0} → Reader A → (A → Type 0) → Type 0
Ensures m P = (s : Bytes) → Post P (length s) (m s)

weaken-Post :
    {A : Type 0} (P : A → Type 0) (m n : ℕ)
    → m ≤ n
    → (o : Result (A × Bytes)) → Post P m o
    → Post P n o
weaken-Post P m n h (ok (b, r)) p = (p.0, le_trans p.1 h)
weaken-Post P m n h (err e) p = tt

bind_result :
    {A B : Type 0} (P : A → Type 0) (Q : B → Type 0) (f : A → Reader B) (n : ℕ)
    → ((a : A) → P a → Ensures (f a) Q)
    → (o : Result (A × Bytes)) → Post P n o
    → Post Q n (elim o [ ok (a, rest) ↦ f a rest | err e ↦ err e ])
bind_result P Q f n k (ok (a, rest)) (p, small) =
    weaken-Post Q (length rest) n small (f a rest) (k a p rest)
bind_result P Q f n k (err e) h = tt

Ensures-bind :
    {A B : Type 0} (P : A → Type 0) (Q : B → Type 0) (m : Reader A) (f : A → Reader B)
    → Ensures m P
    → ((a : A) → P a → Ensures (f a) Q)
    → Ensures (m >>= f) Q
Ensures-bind P Q m f hm hf s = bind_result P Q f (length s) hf (m s) (hm s)

abbrev Anything : {A : Type 0} → A → Type 0
Anything a = Unit {0}

read_full-Ensures : (n : ℕ) → Ensures (read_full n) (λ b. length b ≡ n)
unfolding read_full
read_full-Ensures n s = ground (arith, length-take n s, length-drop n s)

check_frame_size-Ensures : (n : ℕ) → Ensures (check_frame_size n) (λ _. n ≤ max_tcp_frame_size)
unfolding check_frame_size
check_frame_size-Ensures n s = ground arith

read_byte-Ensures : Ensures read_byte Anything
unfolding read_byte
read_byte-Ensures [] = tt
read_byte-Ensures (b ∷ s) = (tt, omega arith)

-- The frames that are safe to hand on: a payload within the limit.
abbrev pub IsSmall : Option WireFrame → Type 0
IsSmall none = Unit
IsSmall (some f) = length f.payload ≤ max_tcp_frame_size

read_pong-Ensures : Ensures read_pong IsSmall
unfolding read_pong pong_frame
read_pong-Ensures =
    Ensures-bind (λ b. length b ≡ 2) IsSmall (read_full 2) _ (read_full-Ensures 2)
      λ b h s. (omega arith, le_refl _)

read_sized :
    (n : ℕ) (f : Bytes → Reader (Option WireFrame))
    → n ≤ max_tcp_frame_size
    → ((b : Bytes) → length b ≤ max_tcp_frame_size → Ensures (f b) IsSmall)
    → Ensures (read_full n >>= f) IsSmall
read_sized n f small k =
    Ensures-bind (λ b. length b ≡ n) IsSmall (read_full n) f (read_full-Ensures n)
      λ b e. k b (subst (λ m. m ≤ max_tcp_frame_size) (omega arith) small)

read_checked :
    (n : ℕ) (m : Reader (Option WireFrame))
    → (n ≤ max_tcp_frame_size → Ensures m IsSmall)
    → Ensures (check_frame_size n >> m) IsSmall
read_checked n m k =
    Ensures-bind (λ _. n ≤ max_tcp_frame_size) IsSmall (check_frame_size n) (λ _. m)
      (check_frame_size-Ensures n) λ _ h. k h

read_api_chunk-Ensures : Ensures read_api_chunk IsSmall
unfolding read_api_chunk chunk_frame
read_api_chunk-Ensures =
    Ensures-bind (λ b. length b ≡ 10) IsSmall (read_full 10) _ (read_full-Ensures 10)
      λ hdr h.
        let n : ℕ = big_endian (take 4 (drop 6 hdr)) in
        let code : ℕ = big_endian (take 4 (drop 2 hdr)) in
        let last : Bytes → Reader (Option WireFrame) =
          λ b. pure (some (chunk_frame (big_endian (take 2 hdr)) code b)) in
        read_checked n (read_full n >>= last)
          λ small. read_sized n last small λ b fits s. (fits, le_refl _)

length-unmask : (key : Bytes) (i : ℕ) (bs : Bytes) → length (unmask key i bs) ≡ length bs
unfolding unmask
length-unmask key i [] = refl
length-unmask key i (b ∷ bs) = omega (arith, length-unmask key (i + 1) bs)

pub length-apply_mask : (key : Option Bytes) (bs : Bytes) → length (apply_mask key bs) ≡ length bs
unfolding apply_mask
length-apply_mask none bs = refl
length-apply_mask (some key) bs = length-unmask key 0 bs

ws_result-Ensures :
    (opcode : ℕ) (b : Bytes) → length b ≤ max_tcp_frame_size → Ensures (ws_result opcode b) IsSmall
unfolding ws_result envelope_frame
ws_result-Ensures opcode b fits s = ground arith

read_ws_length-Ensures : (short : ℕ) → Ensures (read_ws_length short) Anything
unfolding read_ws_length
read_ws_length-Ensures short s = ground (arith, read_full-Ensures 2 s, read_full-Ensures 8 s)

read_mask_key-Ensures : (masked : Bool) → Ensures (read_mask_key masked) Anything
unfolding read_mask_key
read_mask_key-Ensures true s = ground (arith, read_full-Ensures 4 s)
read_mask_key-Ensures false s = (tt, le_refl _)

read_ws_payload-Ensures :
    (first n : ℕ) (key : Option Bytes)
    → n ≤ max_tcp_frame_size
    → Ensures
        (read_full n >>= λ payload. ws_result (bit_and first 0x0f) (apply_mask key payload))
        IsSmall
read_ws_payload-Ensures first n key small =
    read_sized n (λ b. ws_result (bit_and first 0x0f) (apply_mask key b)) small
      λ b fits.
        ws_result-Ensures (bit_and first 0x0f) (apply_mask key b)
          (omega (arith, length-apply_mask key b))

read_web_socket_frame-Ensures : (first : ℕ) → Ensures (read_web_socket_frame first) IsSmall
unfolding read_web_socket_frame
read_web_socket_frame-Ensures first =
    Ensures-bind Anything IsSmall read_byte _ read_byte-Ensures λ b2 _.
      let short : ℕ = bit_and b2 0x7f in
      let masked : Bool = not (bit_and b2 0x80 == 0) in
      let last : ℕ → Option Bytes → Reader (Option WireFrame) = λ n key.
        read_full n >>= λ payload. ws_result (bit_and first 0x0f) (apply_mask key payload) in
      Ensures-bind Anything IsSmall (read_ws_length short)
        (λ n. check_frame_size n >> (read_mask_key masked >>= last n))
        (read_ws_length-Ensures short)
        λ n _. read_checked n (read_mask_key masked >>= last n) λ small.
          Ensures-bind Anything IsSmall (read_mask_key masked) (last n)
            (read_mask_key-Ensures masked) λ key _. read_ws_payload-Ensures first n key small

extended_length-Ensures : Ensures extended_length (λ n. n ≤ max_tcp_frame_size)
unfolding extended_length
extended_length-Ensures =
    Ensures-bind Anything (λ n. n ≤ max_tcp_frame_size) (read_full 3) _
      (λ s. ground (arith, read_full-Ensures 3 s))
      λ b _.
        Ensures-bind (λ _. little_endian_24 b * 4 ≤ max_tcp_frame_size)
          (λ n. n ≤ max_tcp_frame_size) (check_frame_size (little_endian_24 b * 4)) _
          (check_frame_size-Ensures _) λ _ h s. (h, le_refl _)

read_abridged_length-Ensures :
    (prefix : ℕ) → Ensures (read_abridged_length prefix) (λ n. n ≤ max_tcp_frame_size)
unfolding read_abridged_length
read_abridged_length-Ensures prefix s = ground (arith, extended_length-Ensures s)

read_abridged-Ensures : (prefix : ℕ) → Ensures (read_abridged prefix) IsSmall
unfolding read_abridged envelope_frame
read_abridged-Ensures prefix =
    Ensures-bind (λ n. n ≤ max_tcp_frame_size) IsSmall (read_abridged_length prefix) _
      (read_abridged_length-Ensures prefix)
      λ n small. read_sized _ _ small λ b fits s. (fits, le_refl _)

read_by_prefix-Ensures : (prefix : ℕ) → Ensures (read_by_prefix prefix) IsSmall
unfolding read_by_prefix
read_by_prefix-Ensures prefix s = ground (
  arith,
  read_pong-Ensures s,
  read_api_chunk-Ensures s,
  read_web_socket_frame-Ensures prefix s,
  read_abridged-Ensures prefix s,
)

-- Whatever bytes the peer sends, a frame that is read has a payload within `maxTCPFrameSize`, and
-- at least one byte is consumed.
pub read_frame_once_bounds :
    (s : Bytes) (o : Option WireFrame) (rest : Bytes)
    → read_frame_once s ≡ ok (o, rest)
    → IsSmall o × (length rest < length s)
unfolding read_frame_once read_byte
read_frame_once_bounds [] o rest e = cc
read_frame_once_bounds (b ∷ s) o rest e =
    let h : Post IsSmall (length s) (ok (o, rest)) =
      subst (Post IsSmall (length s)) e (read_by_prefix-Ensures b s) in
    (h.0, omega arith)

abbrev HasPayloadWithin : ℕ → WireFrame → Type 0
HasPayloadWithin limit f = length f.payload ≤ limit

-- A run of the read loop that ends, with a frame within the limit or an error.
abbrev pub Ends : ℕ → Bytes → Type 0
Ends fuel s =
    (r : Result (WireFrame × Bytes)) × (read_frame fuel s ≡ some r)
    × Post (HasPayloadWithin max_tcp_frame_size) (length s) r

read_frame_step :
    (fuel : ℕ) (s : Bytes) (o : Result (Option WireFrame × Bytes))
    → read_frame_once s ≡ o
    → ((rest : Bytes) → length rest < length s → Ends fuel rest)
    → Ends (suc fuel) s
unfolding read_frame
read_frame_step fuel s (err x) e ih = (err x, rw (e, read_frame), tt)
read_frame_step fuel s (ok (some f, rest)) e ih =
    let b = read_frame_once_bounds s (some f) rest e in
    (ok (f, rest), rw (e, read_frame), (b.0, omega arith))
read_frame_step fuel s (ok (none, rest)) e ih =
    let b = read_frame_once_bounds s none rest e in
    let (r, ran, post) = ih rest b.1 in
    (
      r,
      rw (e, read_frame) ran,
      weaken-Post (HasPayloadWithin max_tcp_frame_size) (length rest) (length s) (omega arith) r
          post,
    )

-- The read loop ends: fuel above the number of bytes still to come gives a frame or an error, and
-- a frame's payload is within `maxTCPFrameSize`.
pub read_frame_total : (fuel : ℕ) (s : Bytes) → length s < fuel → Ends fuel s
read_frame_total zero s h = absurd (omega arith)
read_frame_total (suc fuel) s h =
    read_frame_step fuel s (read_frame_once s) refl
      λ rest shorter. read_frame_total fuel rest (omega arith)
