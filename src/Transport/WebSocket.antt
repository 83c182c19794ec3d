-- ===== src/Transport/WebSocket.antt =====
-- transport.go, the RFC 6455 frames that the gateway mixes into the TCP stream.
use mezon_sdk_go.Prelude.{
  ℕ, zero, suc, ◌+◌, ◌/◌, ◌%◌, ◌^◌, ◌≤◌, ◌<◌, ◌≡◌, refl, sym, ap, ◌∙◌, Bytes, true, false, [], ◌∷◌,
  ◌++◌, ◌==◌, ==_iff, ltb, not, if◌then◌else◌, ◌||◌, Option, none, some, arith, length, All, IsByte,
  big_endian, big_endian_from, byte, bit_and, bit_and_mask, bit_xor, checks_below,
  checks_below_sound, append_assoc,
}
use mezon_sdk_go.Transport.{ok, err, close_frame, check_frame_size, read_byte, max_tcp_frame_size}
use mezon_sdk_go.Transport.Reader.{
  envelope_frame, read_by_prefix, read_frame_once, read_web_socket_frame, read_ws_length,
  read_mask_key, apply_mask, unmask, key_byte, ws_result,
}
use mezon_sdk_go.Transport.RoundTrip.{read_full-append, read_frame_once_cons, top_bit}
use mezon_sdk_go.Transport.Bounds.{length-apply_mask}
use mezon_sdk_go.Transport.Chunks.{be16}

xor_table : checks_below (λ x. checks_below (λ k. bit_xor (bit_xor x k) k == x) 256) 256 ≡ true
unfolding checks_below
xor_table = refl

bit_xor-bit_xor : (x k : ℕ) → IsByte x → IsByte k → bit_xor (bit_xor x k) k ≡ x
bit_xor-bit_xor x k hx hk =
    (==_iff _ _).0 (checks_below_sound _ 256 k hk (checks_below_sound _ 256 x hx xor_table))

key_byte-IsByte : (key : Bytes) (i : ℕ) → All IsByte key → IsByte (key_byte key i)
unfolding key_byte
key_byte-IsByte [] i h = omega arith
key_byte-IsByte (k ∷ ks) zero h = h.0
key_byte-IsByte (k ∷ ks) (suc i) h = key_byte-IsByte ks i h.1

-- Masking twice with one key is the identity on bytes.
pub unmask-unmask :
    (key : Bytes) (i : ℕ) (bs : Bytes)
    → All IsByte key
    → All IsByte bs
    → unmask key i (unmask key i bs) ≡ bs
unfolding unmask
unmask-unmask key i [] hk hb = refl
unmask-unmask key i (b ∷ bs) hk hb = ground (
  arith,
  bit_xor-bit_xor b (key_byte key (i % 4)) hb.0 (key_byte-IsByte key (i % 4) hk),
  unmask-unmask key (i + 1) bs hk hb.1,
)

-- RFC 6455, section 5.3: the bytes of the key in turn, the first one again after the last.
abbrev pub masked : Bytes → Bytes → Bytes
masked key [] = []
masked [] (b ∷ bs) = b ∷ bs
masked (k ∷ key) (b ∷ bs) = bit_xor b k ∷ masked (key ++ (k ∷ [])) bs

-- Four bytes that the key has from the index `i` on.
abbrev Turned : Bytes → ℕ → ℕ → ℕ → ℕ → ℕ → Type 0
Turned key i a b c d =
    (key_byte key (i % 4) ≡ a)
    × (key_byte key ((i + 1) % 4) ≡ b)
    × (key_byte key ((i + 2) % 4) ≡ c)
    × (key_byte key ((i + 3) % 4) ≡ d)

Turned-next : (key : Bytes) (i a b c d : ℕ) → Turned key i a b c d → Turned key (i + 1) b c d a
Turned-next key i a b c d t = (
  ap (λ n. key_byte key (n % 4)) (omega arith) ∙ t.1,
  ap (λ n. key_byte key (n % 4)) (omega arith) ∙ t.2,
  ap (λ n. key_byte key (n % 4)) (omega arith) ∙ t.3,
  ap (key_byte key) (omega arith) ∙ t.0,
)

masked-unmask :
    (key : Bytes) (i a b c d : ℕ) (bs : Bytes)
    → Turned key i a b c d
    → masked (a ∷ b ∷ c ∷ d ∷ []) bs ≡ unmask key i bs
unfolding unmask
masked-unmask key i a b c d [] t = refl
masked-unmask key i a b c d (x ∷ bs) t =
    ap (λ k. bit_xor x k ∷ masked (b ∷ c ∷ d ∷ a ∷ []) bs) (sym t.0)
    ∙ ap (λ l. bit_xor x (key_byte key (i % 4)) ∷ l)
        (masked-unmask key (i + 1) b c d a bs (Turned-next key i a b c d t))

masked-apply : (key bs : Bytes) → length key ≡ 4 → masked key bs ≡ unmask key 0 bs
unfolding key_byte
masked-apply (a ∷ b ∷ c ∷ d ∷ []) bs h =
    masked-unmask (a ∷ b ∷ c ∷ d ∷ []) 0 a b c d bs (refl, refl, refl, refl)
masked-apply [] bs h = absurd (omega (arith, h))
masked-apply (a ∷ []) bs h = absurd (omega (arith, h))
masked-apply (a ∷ b ∷ []) bs h = absurd (omega (arith, h))
masked-apply (a ∷ b ∷ c ∷ []) bs h = absurd (omega (arith, h))
masked-apply (a ∷ b ∷ c ∷ d ∷ x ∷ key) bs h = absurd (omega (arith, h))

abbrev pub be64 : ℕ → Bytes
be64 x =
    byte (x / 2 ^ 56)
    ∷ byte (x / 2 ^ 48)
    ∷ byte (x / 2 ^ 40)
    ∷ byte (x / 2 ^ 32)
    ∷ byte (x / 2 ^ 24)
    ∷ byte (x / 2 ^ 16)
    ∷ byte (x / 2 ^ 8)
    ∷ byte x
    ∷ []

-- RFC 6455, section 5.2: the 7-bit length, and its extension.
abbrev pub short_length : ℕ → ℕ
short_length n = if ltb n 126 then n else if ltb n 65536 then 126 else 127

abbrev pub length_extension : ℕ → Bytes
length_extension n = if ltb n 126 then [] else if ltb n 65536 then be16 n else be64 n

big_endian-be64 : (x : ℕ) → x < 2 ^ 32 → big_endian (be64 x) ≡ x
unfolding big_endian_from
big_endian-be64 x h = omega arith

big_endian-be16 : (x : ℕ) → x < 2 ^ 16 → big_endian (be16 x) ≡ x
unfolding big_endian_from
big_endian-be16 x h = omega arith

read_ws_length_lem :
    (n : ℕ) (s : Bytes)
    → n ≤ max_tcp_frame_size
    → read_ws_length (short_length n) (length_extension n ++ s) ≡ ok (n, s)
unfolding read_ws_length
read_ws_length_lem n s h = ground (
  arith,
  read_full-append 2 (be16 n) s refl,
  read_full-append 8 (be64 n) s refl,
  big_endian-be64 n (omega arith),
  big_endian-be16 n,
)

-- A frame as an endpoint sends it: with a key, the payload goes masked.
abbrev pub mask_flag : Option Bytes → ℕ
mask_flag none = 0
mask_flag (some key) = 128

abbrev pub key_bytes : Option Bytes → Bytes
key_bytes none = []
key_bytes (some key) = key

abbrev pub masked_by : Option Bytes → Bytes → Bytes
masked_by none bs = bs
masked_by (some key) bs = masked key bs

abbrev pub ws_frame : ℕ → Option Bytes → Bytes → Bytes
ws_frame first key payload =
    first
    ∷ (mask_flag key + short_length (length payload))
    ∷ (length_extension (length payload) ++ (key_bytes key ++ masked_by key payload))

abbrev pub IsKey : Option Bytes → Type 0
IsKey none = Unit
IsKey (some key) = (length key ≡ 4) × All IsByte key

apply_mask-apply_mask :
    (key : Option Bytes) (bs : Bytes)
    → IsKey key
    → All IsByte bs
    → apply_mask key (apply_mask key bs) ≡ bs
unfolding apply_mask
apply_mask-apply_mask none bs hk hb = refl
apply_mask-apply_mask (some key) bs hk hb = unmask-unmask key 0 bs hk.1 hb

short_length-lt : (n : ℕ) → short_length n < 128
short_length-lt n = ground arith

second_byte_length :
    (key : Option Bytes) (n : ℕ) → bit_and (mask_flag key + short_length n) 0x7f ≡ short_length n
second_byte_length none n = bit_and_mask 7 0x7f _ refl ∙ omega (arith, short_length-lt n)
second_byte_length (some key) n = bit_and_mask 7 0x7f _ refl ∙ omega (arith, short_length-lt n)

second_byte_mask :
    (key : Option Bytes) (n : ℕ) → bit_and (mask_flag key + short_length n) 0x80 ≡ mask_flag key
second_byte_mask none n =
    top_bit _ (omega (arith, short_length-lt n)) ∙ omega (arith, short_length-lt n)
second_byte_mask (some key) n =
    top_bit _ (omega (arith, short_length-lt n)) ∙ omega (arith, short_length-lt n)

read_mask_key_lem :
    (key : Option Bytes) (s : Bytes)
    → IsKey key
    → read_mask_key (not (mask_flag key == 0)) (key_bytes key ++ s) ≡ ok (key, s)
unfolding read_mask_key
read_mask_key_lem none s h = refl
read_mask_key_lem (some key) s h = ground (arith, read_full-append 4 key s h.0)

read_web_socket_frame-ws_frame :
    (first : ℕ) (key : Option Bytes) (payload rest : Bytes)
    → IsKey key
    → All IsByte payload
    → length payload ≤ max_tcp_frame_size
    → read_web_socket_frame first (
        (mask_flag key + short_length (length payload))
        ∷ (length_extension (length payload)
            ++ (key_bytes key ++ (apply_mask key payload ++ rest))))
      ≡ ws_result (first % 16) payload rest
unfolding read_web_socket_frame read_byte check_frame_size
read_web_socket_frame-ws_frame first key payload rest hk hb small = ground (
  arith,
  second_byte_length key (length payload),
  second_byte_mask key (length payload),
  read_ws_length_lem (length payload) (key_bytes key ++ (apply_mask key payload ++ rest)) small,
  read_mask_key_lem key (apply_mask key payload ++ rest) hk,
  read_full-append (length payload) (apply_mask key payload) rest (length-apply_mask key payload),
  apply_mask-apply_mask key payload hk hb,
  bit_and_mask 4 0x0f first refl,
)

masked_by-apply_mask :
    (key : Option Bytes) (bs : Bytes) → IsKey key → masked_by key bs ≡ apply_mask key bs
unfolding apply_mask
masked_by-apply_mask none bs h = refl
masked_by-apply_mask (some key) bs h = masked-apply key bs h.0

-- A WebSocket frame on the TCP stream, with any of the three length forms, its payload plain or
-- masked as RFC 6455 says: a text or binary frame is read as an unpadded envelope of the payload; a
-- close frame ends the stream; any other opcode is skipped. Its first byte has the top bit and is
-- not 0xFF.
pub read_frame_once-ws_frame :
    (first : ℕ) (key : Option Bytes) (payload rest : Bytes)
    → 128 ≤ first
    → first < 255
    → IsKey key
    → All IsByte payload
    → length payload ≤ max_tcp_frame_size
    → read_frame_once (ws_frame first key payload ++ rest) ≡ (
        if (first % 16 == 1) || (first % 16 == 2)
        then ok (some (envelope_frame false payload), rest)
        else if first % 16 == 8
        then err close_frame
        else ok (none, rest))
unfolding read_by_prefix ws_result
read_frame_once-ws_frame first key payload rest low high hk hb small =
    let second : ℕ = mask_flag key + short_length (length payload) in
    ap
      (λ p.
        read_frame_once
          ((first ∷ second ∷ (length_extension (length payload) ++ (key_bytes key ++ p))) ++ rest))
      (masked_by-apply_mask key payload hk)
    ∙ ap (λ s. read_frame_once (first ∷ second ∷ s))
        (append_assoc (length_extension (length payload)) (key_bytes key ++ apply_mask key payload)
            rest
          ∙ ap (λ s. length_extension (length payload) ++ s)
              (append_assoc (key_bytes key) (apply_mask key payload) rest))
    ∙ read_frame_once_cons first _
    ∙ ground (
      arith,
      top_bit first (omega arith),
      read_web_socket_frame-ws_frame first key payload rest hk hb small,
    )
