-- ===== src/Tests/Frames.antt =====
-- transport.go on concrete bytes.
use mezon_sdk_go.Prelude.{
  big_endian_from, ◌≡◌, refl, Bytes, true, false, [], ◌∷◌, ◌++◌, some, arith, take, codes,
}
use mezon_sdk_go.Transport.{ok, read_byte, read_full}
use mezon_sdk_go.Transport.Encode.{trim_abridged_padding, guard_trailing_zero, write_envelope}
use mezon_sdk_go.Transport.Reader.{
  envelope_frame, pong_frame, read_frame_once, read_by_prefix, read_pong,
}
use mezon_sdk_go.Transport.Bounds.{Ends, read_frame_total}
use mezon_sdk_go.Transport.Padding.{read_frame_once-write_envelope}
use mezon_sdk_go.Transport.WebSocket.{ws_frame, read_frame_once-ws_frame}

abbrev two_pongs : Bytes
two_pongs = 0 ∷ 1 ∷ 2 ∷ 0 ∷ 3 ∷ 4 ∷ []

read_pong_test : read_frame_once two_pongs ≡ ok (some (pong_frame 258), 0 ∷ 3 ∷ 4 ∷ [])
unfolding read_frame_once read_byte read_by_prefix read_pong read_full big_endian_from
read_pong_test = refl

read_frame_total_example : Ends 7 two_pongs
read_frame_total_example = read_frame_total 7 two_pongs (omega arith)

abbrev hello : Bytes
hello = codes "hello"

abbrev ends_in_zero : Bytes
ends_in_zero = 8 ∷ 0 ∷ []

read_frame_once-write_envelope_example :
    (body : Bytes) × (read_frame_once (write_envelope ends_in_zero ++ two_pongs)
      ≡ ok (some (envelope_frame true body), two_pongs))
    × (trim_abridged_padding body ≡ guard_trailing_zero ends_in_zero)
    × (take 2 (guard_trailing_zero ends_in_zero) ≡ ends_in_zero)
read_frame_once-write_envelope_example =
    read_frame_once-write_envelope ends_in_zero two_pongs (omega arith) (omega arith)

abbrev key : Bytes
key = 55 ∷ 250 ∷ 33 ∷ 61 ∷ []

read_frame_once-ws_frame_example :
    read_frame_once (ws_frame 130 (some key) hello ++ two_pongs)
    ≡ ok (some (envelope_frame false hello), two_pongs)
read_frame_once-ws_frame_example =
    read_frame_once-ws_frame 130 (some key) hello two_pongs (omega arith) (omega arith)
      (refl, (omega arith, (omega arith, (omega arith, (omega arith, (tt))))))
      (omega arith, (omega arith, (omega arith, (omega arith, (omega arith, (tt)))))) (omega arith)
