-- ===== src/Socket/Write.antt =====
-- socket_write.go: joining and leaving, and the one retry after joining the channel. `Exchange` is
-- what one send meets: a world and its channel.
use mezon_sdk_go.Prelude.{
  ℕ, ℤ, pos, negsuc, [], ◌∷◌, ◌++◌, Option, none, some, Bool, true, false, ◌||◌, ◌==◌,
  if◌then◌else◌, Bytes, codes, int32_of,
}
use mezon_sdk_go.Errors.{
  Error, err_not_found, err_socket_closed, err_send_timeout, err_text, Result, ok, err,
}
use mezon_sdk_go.Types.{atoi_id, ChannelJoin}
use mezon_sdk_go.Socket.{
  Ref, Chan, Envelope, EventField, Request, ReplyField, reply_clan_join, reply_channel, clan_join,
  channel_join, channel_leave, empty_envelope,
}
use mezon_sdk_go.Socket.Data.{ReplyMessageData}
use mezon_sdk_go.Socket.Sending.{World, Sender, send}

abbrev pub Exchange : Type 0
Exchange = World × Chan

-- err.Error()
unfoldable pub error_text : Error → Bytes
error_text err_not_found = codes "mezon: not found"
error_text err_socket_closed = codes "mezon: socket connection has not been established yet"
error_text err_send_timeout = codes "mezon: timed out while waiting for a response"
error_text (err_text text) = text

unfoldable pub has_prefix : Bytes → Bytes → Bool
has_prefix [] s = true
has_prefix (p ∷ ps) [] = false
has_prefix (p ∷ ps) (c ∷ s) = if p == c then has_prefix ps s else false

-- strings.Contains
unfoldable pub contains : Bytes → Bytes → Bool
contains [] sub = has_prefix sub []
contains (c ∷ s) sub = has_prefix sub (c ∷ s) || contains s sub

unfoldable pub is_must_join_channel_error : Error → Bool
is_must_join_channel_error e =
    contains (error_text e) (codes "error 3:")
    || contains (error_text e) (codes "Must join channel before sending messages")

unfoldable pub type_of_mode : ℕ → ℕ
type_of_mode mode = if mode == 4 then 3 else (if mode == 3 then 2 else (if mode == 6 then 7 else 1))

unfoldable pub get_channel_type_from_mode : ℤ → ℤ
get_channel_type_from_mode (pos mode) = pos (type_of_mode mode)
get_channel_type_from_mode (negsuc mode) = pos 1

-- A reply's field, of the envelope that the send returned.
unfoldable pub reply_with : (Envelope → Option Ref) → Result (Option Envelope) → Result (Option Ref)
reply_with field (err e) = err e
reply_with field (ok none) = ok none
reply_with field (ok (some env)) = ok (field env)

unfoldable pub send_request :
    Exchange → Request → (Envelope → Option Ref) → Sender → Sender × Result (Option Ref)
send_request x request field s =
    let r = send x.0 x.1 (record empty_envelope { request = some request }) s in
    (r.0, reply_with field r.1)

unfoldable pub reply_field : ReplyField → Envelope → Option Ref
reply_field field env = env.reply field

unfoldable pub event_field : EventField → Envelope → Option Ref
event_field field env = env.event field

unfoldable pub channel_join_of : Bytes → Bytes → ℤ → Bool → ChannelJoin
channel_join_of clan_id channel_id channel_type is_public = record {
  clan_id = atoi_id clan_id;
  channel_id = atoi_id channel_id;
  channel_type = int32_of channel_type;
  is_public = is_public;
}

unfoldable pub join_clan_chat : Exchange → Bytes → Sender → Sender × Result (Option Ref)
join_clan_chat x clan_id s =
    send_request x (clan_join (atoi_id clan_id)) (reply_field reply_clan_join) s

unfoldable pub join_chat :
    Exchange → Bytes → Bytes → ℤ → Bool → Sender → Sender × Result (Option Ref)
join_chat x clan_id channel_id channel_type is_public s =
    send_request x (channel_join (channel_join_of clan_id channel_id channel_type is_public))
      (reply_field reply_channel) s

unfoldable pub leave_chat :
    Exchange → Bytes → Bytes → ℤ → Bool → Sender → Sender × Result (Option Ref)
leave_chat x clan_id channel_id channel_type is_public s =
    send_request x (channel_leave (channel_join_of clan_id channel_id channel_type is_public))
      (λ env. none) s

-- The channel type to join by, when it is not given.
unfoldable pub join_type : ℤ → ℤ → ℤ
join_type (pos n) mode = if n == 0 then get_channel_type_from_mode mode else pos n
join_type (negsuc n) mode = negsuc n

unfoldable pub join_channel_before_retry :
    Exchange → ReplyMessageData → Sender → Sender × Result (Option Ref)
join_channel_before_retry x d s =
    join_chat x d.clan_id d.channel_id (join_type d.channel_type d.mode) d.is_public s

-- "%w (auto-join failed: %v)"
unfoldable pub join_error : Error → Error → Error
join_error e joining =
    err_text (error_text e ++ (codes " (auto-join failed: " ++ (error_text joining ++ codes ")")))

unfoldable pub after_join :
    Error
    → (Sender → Sender × Result (Option Ref))
    → Sender × Result (Option Ref)
    → Sender × Result (Option Ref)
after_join e again (s, err joining) = (s, err (join_error e joining))
after_join e again (s, ok channel) = again s

unfoldable pub retry_after_join :
    (Sender → Sender × Result (Option Ref))
    → (Sender → Sender × Result (Option Ref))
    → Sender × Result (Option Ref)
    → Sender × Result (Option Ref)
retry_after_join join again (s, ok ack) = (s, ok ack)
retry_after_join join again (s, err e) =
    if is_must_join_channel_error e then after_join e again (join s) else (s, err e)

-- What the three sends of one write meet: the first attempt, the join, the second attempt.
pub record Exchanges : Type 0 where
  pub first : Exchange
  pub joining : Exchange
  pub second : Exchange

unfoldable pub write_with_retry :
    Exchanges
    → ReplyMessageData
    → Request
    → (Envelope → Option Ref)
    → Sender
    → Sender × Result (Option Ref)
write_with_retry xs d request field s =
    retry_after_join (join_channel_before_retry xs.joining d) (send_request xs.second request field)
      (send_request xs.first request field s)
