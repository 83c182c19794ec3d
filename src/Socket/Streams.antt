-- ===== src/Socket/Streams.antt =====
-- socket.go, deliverAPIChunk: the chunk buffers of one connection, keyed by cid.
use mezon_sdk_go.Prelude.{
  ℕ, true, List, [], ◌∷◌, ◌++◌, Option, none, some, if◌then◌else◌, lookup, insert, delete, nat_eq,
  Bytes,
}
use mezon_sdk_go.Transport.{WireFrame}
use mezon_sdk_go.Socket.{Chan, SocketResponse}
use mezon_sdk_go.Socket.Cids.{Cids, take_raw_cid}

abbrev pub Streams : Type 0
Streams = List (ℕ × List Bytes)

-- A missing key reads as nil.
unfoldable pub buffered : ℕ → Streams → List Bytes
buffered cid streams = elim (lookup cid streams) [ none ↦ [] | some chunks ↦ chunks ]

unfoldable pub add_chunk : ℕ → Bytes → Streams → Streams
add_chunk cid payload streams = insert cid (buffered cid streams ++ (payload ∷ [])) streams

unfoldable pub concat : List Bytes → Bytes
concat [] = []
concat (c ∷ chunks) = c ++ concat chunks

unfoldable pub with_last : Bytes → List Bytes → List Bytes
with_last [] chunks = chunks
with_last (b ∷ bs) chunks = chunks ++ ((b ∷ bs) ∷ [])

-- What the read loop sends to a waiting sender, if to any.
abbrev pub Delivery : Type 0
Delivery = Option (Chan × SocketResponse)

unfoldable pub answer : SocketResponse → Option Chan → Delivery
answer resp none = none
answer resp (some ch) = some (ch, resp)

unfoldable pub api_answer : ℕ → Bytes → SocketResponse
api_answer code body = record { env = none; api_response = true; code = code; body = body }

unfoldable pub deliver_api_chunk : WireFrame → Streams → Cids → Streams × Cids × Delivery
deliver_api_chunk f streams cids =
    if f.fin
    then (let body = concat (with_last f.payload (buffered f.cid streams)) in
        let taken = take_raw_cid f.cid cids in
        (delete f.cid streams, taken.1, answer (api_answer f.code body) taken.0))
    else (add_chunk f.cid f.payload streams, cids, none)
