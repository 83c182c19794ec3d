-- ===== src/Helper.antt =====
-- helper.go: stream modes, user ids and snowflake ids. url.Parse is a library's, so that
-- ParseURLToHostAndSSL has no model here.
pub mod Snowflakes
use mezon_sdk_go.Prelude.{
  ℕ, ◌+◌, ◌-◌, ◌*◌, ◌%◌, ◌^◌, List, [], ◌∷◌, Bool, true, false, ltb, leb, ◌==◌, ◌&&◌, not,
  if◌then◌else◌, Bytes, itoa, pos, negsuc, ℤ, bit_or,
}

-- An `int` that is not negative is its number; a negative one is none of the constants.
abbrev pub channel_type_channel : ℕ
channel_type_channel = 1

abbrev pub channel_type_group : ℕ
channel_type_group = 2

abbrev pub channel_type_dm : ℕ
channel_type_dm = 3

abbrev pub channel_type_thread : ℕ
channel_type_thread = 7

abbrev pub channel_type_app : ℕ
channel_type_app = 8

abbrev pub channel_type_mezon_voice : ℕ
channel_type_mezon_voice = 10

abbrev pub stream_mode_channel : ℕ
stream_mode_channel = 2

abbrev pub stream_mode_group : ℕ
stream_mode_group = 3

abbrev pub stream_mode_dm : ℕ
stream_mode_dm = 4

abbrev pub stream_mode_thread : ℕ
stream_mode_thread = 6

unfoldable pub mode_of_type : ℕ → ℕ
mode_of_type t =
    if t == channel_type_dm
    then stream_mode_dm
    else (if t == channel_type_group
        then stream_mode_group
        else (if t == channel_type_channel
            then stream_mode_channel
            else (if t == channel_type_app
                then stream_mode_channel
                else (if t == channel_type_mezon_voice
                    then stream_mode_channel
                    else (if t == channel_type_thread then stream_mode_thread else 0)))))

unfoldable pub convert_channel_type_to_channel_mode : ℤ → ℕ
convert_channel_type_to_channel_mode (pos t) = mode_of_type t
convert_channel_type_to_channel_mode (negsuc t) = 0

-- `^\d+$`, where `\d` is an ASCII digit.
unfoldable pub all_digits : Bytes → Bool
all_digits [] = true
all_digits (c ∷ cs) = (leb 48 c && leb c 57) && all_digits cs

unfoldable pub is_valid_user_id : Bytes → Bool
is_valid_user_id [] = false
is_valid_user_id (c ∷ cs) = all_digits (c ∷ cs)

abbrev pub snowflake_epoch : ℕ
snowflake_epoch = 1577836800000

-- The generator's two variables.
pub record Snowflake : Type 0 where
  pub seq : ℕ
  pub last : ℕ

unfoldable pub next_seq : ℕ → Snowflake → Snowflake
next_seq ts s =
    if ts == s.last
    then record { seq = s.seq + 1; last = s.last }
    else record { seq = 0; last = ts }

-- The id as the bit pattern of the int64; `ts` is the clock in milliseconds.
unfoldable pub snowflake_bits : ℕ → ℕ → ℕ
snowflake_bits ts seq =
    bit_or
      (bit_or (bit_or ((ts + 2 ^ 64 - snowflake_epoch) % 2 ^ 64 * 2 ^ 22 % 2 ^ 64) (1 * 2 ^ 17))
        (1 * 2 ^ 12))
      seq

unfoldable pub signed64 : ℕ → ℤ
signed64 n = if ltb n (2 ^ 63) then pos n else negsuc (2 ^ 64 - 1 - n)

unfoldable pub generate_snowflake_id : ℕ → Snowflake → Snowflake × Bytes
generate_snowflake_id ts s =
    let after = next_seq ts s in (after, itoa (signed64 (snowflake_bits ts after.seq)))
