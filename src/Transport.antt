-- ===== src/Transport.antt =====
-- transport.go: the wire transports, their constants and the frames that both yield. The bytes
-- still to come on a connection are a list; a read past its end fails as at the end of a stream.
pub mod Encode
pub mod Reader
pub mod Bounds
pub mod RoundTrip
pub mod Padding
pub mod Chunks
pub mod WebSocket
use mezon_sdk_go.Prelude.{
  ℕ, ◌*◌, ◌^◌, ◌-◌, Bool, Bytes, List, Option, none, some, ltb, length, take, drop, if◌then◌else◌,
}

pub data TransportKind : Type 0 where
  transport_tcp transport_web_socket : TransportKind

abbrev pub tcp_handshake_prefix : ℕ
tcp_handshake_prefix = 0xef

abbrev pub tcp_pong_prefix : ℕ
tcp_pong_prefix = 0

abbrev pub abridged_extended_prefix : ℕ
abridged_extended_prefix = 0x7f

-- 64 << 20
abbrev pub max_tcp_frame_size : ℕ
max_tcp_frame_size = 64 * 2 ^ 20

abbrev pub raw_frame_prefix : ℕ
raw_frame_prefix = 0xff

abbrev pub raw_header_length : ℕ
raw_header_length = 7

abbrev pub raw_code_fin : ℕ
raw_code_fin = 0xff

pub data FrameKind : Type 0 where
  frame_envelope frame_api_chunk frame_pong : FrameKind

pub record WireFrame : Type 0 where
  pub kind : FrameKind
  pub cid : ℕ
  pub code : ℕ
  pub fin : Bool
  pub payload : Bytes
  pub padded : Bool

pub data ReadError : Type 0 where
  unexpected_eof : ReadError
  frame_exceeds_limit : ℕ → ReadError
  unexpected_prefix : ℕ → ReadError
  close_frame : ReadError

pub data Result {ℓ} (A : Type ℓ) : Type ℓ where
  ok : A → Result A
  err : ReadError → Result A

-- A read takes bytes off the stream, or fails.
abbrev pub Reader : Type 0 → Type 0
Reader A = Bytes → Result (A × Bytes)

abbrev pub pure : {A : Type 0} → A → Reader A
pure a s = ok (a, s)

abbrev pub fail : {A : Type 0} → ReadError → Reader A
fail e s = err e

infixl 5 ◌>>=◌
abbrev pub ◌>>=◌ : {A B : Type 0} → Reader A → (A → Reader B) → Reader B
◌>>=◌ m f s = elim (m s) [ ok (a, rest) ↦ f a rest | err e ↦ err e ]

-- `ReadByte` of a buffered reader.
unfoldable pub read_byte : Reader ℕ
read_byte List.[] = err unexpected_eof
read_byte (List.◌∷◌ b s) = ok (b, s)

-- `io.ReadFull` into a buffer of `n` bytes.
unfoldable pub read_full : ℕ → Reader Bytes
read_full n s = if ltb (length s) n then err unexpected_eof else ok (take n s, drop n s)

infixl 5 ◌>>◌
abbrev pub ◌>>◌ : {B : Type 0} → Reader (Unit {0}) → Reader B → Reader B
m >> k = m >>= λ _. k

-- The bound on a frame's length field.
unfoldable pub check_frame_size : ℕ → Reader (Unit {0})
check_frame_size n = if ltb max_tcp_frame_size n then fail (frame_exceeds_limit n) else pure tt
