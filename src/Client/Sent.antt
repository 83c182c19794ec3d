-- ===== src/Client/Sent.antt =====
-- channel.go, createMessageFromAck: which messages are cached, and under what id.
use mezon_sdk_go.Prelude.{
  zero, suc, ℤ, pos, negsuc, itoa, ◌≡◌, ◌≢◌, refl, ap, subst, ◌∙◌, ◌⊎◌, inl, inr, [], ◌∷◌, Option,
  none, some, Bytes, lookup, nat_eq, bytes_eq,
}
use mezon_sdk_go.Errors.{Result, ok, err}
use mezon_sdk_go.Types.{itoa_id}
use mezon_sdk_go.Cache.{get}
use mezon_sdk_go.Cache.Entries.{get-set_self}
use mezon_sdk_go.Socket.Data.{ReplyMessageData}
use mezon_sdk_go.Entities.{Address, Message, TextChannel}
use mezon_sdk_go.Entities.Messages.{
  Ack, message_from_ack, with_ack, with_marshalled, message_of_data, id_unless_zero, acked_channel,
}
use mezon_sdk_go.Client.{Client}
use mezon_sdk_go.Client.Heap.{modify_self, insert_self}
use mezon_sdk_go.Client.Messages.{
  Contents, set_message, clan_of, bot_id_of, allocate_message, cache_identified,
  create_message_from_ack,
}

-- The text of an id that is not zero; zero is no id.
abbrev pub named : ℤ → Bytes
named (pos zero) = []
named (pos (suc n)) = itoa (pos (suc n))
named (negsuc n) = itoa (negsuc n)

-- The id that the server gives to a message, if it gives one.
abbrev pub identity : Option Ack → Bytes
identity none = []
identity (some ack) = named ack.message_id

id_unless_zero-named : (v : ℤ) → id_unless_zero v [] ≡ named v
unfolding id_unless_zero itoa_id
id_unless_zero-named (pos zero) = refl
id_unless_zero-named (pos (suc n)) = refl
id_unless_zero-named (negsuc n) = refl

with_marshalled-id : (r : Result Bytes) (m : Message) → (with_marshalled r m).id ≡ m.id
unfolding with_marshalled
with_marshalled-id (err e) m = refl
with_marshalled-id (ok raw) m = refl

with_ack-id :
    (ack : Option Ack) (d : ReplyMessageData) (channel_id sender_id : Bytes) (q : Address)
    → (with_ack ack (message_of_data d channel_id sender_id q)).id ≡ identity ack
unfolding with_ack message_of_data
with_ack-id none d channel_id sender_id q = refl
with_ack-id (some ack) d channel_id sender_id q = id_unless_zero-named ack.message_id

message_from_ack-id :
    (ack : Option Ack) (d : ReplyMessageData) (r : Result Bytes) (sender_id : Bytes) (q : Address)
    → (message_from_ack ack d r sender_id q).id ≡ identity ack
unfolding message_from_ack
message_from_ack-id ack d r sender_id q =
    with_marshalled-id r
      (with_ack ack (message_of_data d (acked_channel ack d.channel_id) sender_id q))
    ∙ with_ack-id ack d (acked_channel ack d.channel_id) sender_id q

module _ {S : Type 0} where
  -- The message is in the cache of its channel under its id, or has none and no cache has changed.
  abbrev pub Cached : Address → TextChannel → Bytes → Address → Client S → Client S → Type 0
  Cached q ch id m c r =
      ((id ≡ []) × (r.channel_heap ≡ c.channel_heap))
      ⊎ ((id ≢ [])
          × ((ch' : TextChannel) × (lookup q r.channel_heap ≡ some ch')
              × (get ch'.messages id ≡ some m)))

  cache_identified-Cached :
      (q : Address) (ch : TextChannel) (id : Bytes) (m : Address) (c : Client S)
      → lookup q c.channel_heap ≡ some ch
      → Cached q ch id m c (cache_identified q id m c)
  unfolding cache_identified set_message
  cache_identified-Cached q ch [] m c there = inl (refl, refl)
  cache_identified-Cached q ch (b ∷ id) m c there = inr (
    λ e. cc,
    (
      set_message (b ∷ id) m ch,
      modify_self q (set_message (b ∷ id) m) c.channel_heap there,
      get-set_self ch.messages (b ∷ id) m,
    ),
  )

  cache_identified-messages :
      (q : Address) (id : Bytes) (m : Address) (c : Client S)
      → (cache_identified q id m c).message_heap ≡ c.message_heap
  unfolding cache_identified
  cache_identified-messages q [] m c = refl
  cache_identified-messages q (b ∷ id) m c = refl

  -- The message that a send makes has the id of the acknowledgement in decimal, and no id, the
  -- empty text, where there is no acknowledgement or its id is zero. With an id it is in the cache
  -- of its channel under that id; without, no channel's cache has changed.
  pub create_message_from_ack_lem :
      (contents : Contents) (q : Address) (ch : TextChannel) (ack : Option Ack)
      (d : ReplyMessageData) (c : Client S)
      → lookup q c.channel_heap ≡ some ch
      → let r = create_message_from_ack contents q ch ack d c in
        ((m : Message) × (lookup r.1 r.0.message_heap ≡ some m) × (m.id ≡ identity ack))
        × Cached q ch (identity ack) r.1 c r.0
  unfolding create_message_from_ack allocate_message
  create_message_from_ack_lem contents q ch ack d c there =
      let sender = bot_id_of (clan_of ch c) in
      let m = message_from_ack ack d (contents.raw d.content) sender q in
      let named = message_from_ack-id ack d (contents.raw d.content) sender q in
      let after = allocate_message m c in
      (
        (
          m,
          ap (λ heap. lookup c.fresh heap) (cache_identified-messages q m.id c.fresh after)
              ∙ insert_self c.fresh m c.message_heap,
          named,
        ),
        subst (λ id. Cached q ch id c.fresh c (cache_identified q m.id c.fresh after)) named
            (cache_identified-Cached q ch m.id c.fresh after there),
      )
