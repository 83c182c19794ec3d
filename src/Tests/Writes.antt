-- ===== src/Tests/Writes.antt =====
-- types.go and socket_write.go on small inputs.
use mezon_sdk_go.Prelude.{
  ℤ, ◌∷◌, Bytes, pos, ◌≡◌, refl, subst, ◌-◌, ◌^◌, [], Option, none, some, true, false, arith, codes,
  All, itoa, decimal, digits_onto,
}
use mezon_sdk_go.Errors.{Result, ok}
use mezon_sdk_go.Types.{atoi_id, parse_int, parse_digits, parse_uint, digit_of, clamp}
use mezon_sdk_go.Utf16.{Runes}
use mezon_sdk_go.Utf16.Encoding.{IsRune}
use mezon_sdk_go.Socket.{
  Ref, Envelope, Request, empty_envelope, reply_channel_message_ack, clan_join,
}
use mezon_sdk_go.Socket.ReadLoop.{envelope_answer}
use mezon_sdk_go.Socket.Sending.{
  Sender, enter, answered, send_response, send, send_marshalled, write_and_wait, await, accept,
  error_of, envelope_reply, socket_error,
}
use mezon_sdk_go.Types.{ChannelMessageUpdate}
use mezon_sdk_go.Socket.Write.{
  Exchange, Exchanges, write_with_retry, send_request, reply_field, reply_with,
  join_channel_before_retry, retry_after_join, after_join, is_must_join_channel_error, contains,
  has_prefix, error_text, join_chat,
}
use mezon_sdk_go.Socket.Messages.{
  write_ephemeral_message, update_chat_message, update_channel_message, write_chat_message,
}
use mezon_sdk_go.Socket.Data.{EphemeralMessageData, UpdateMessageData, ReplyMessageData}
use mezon_sdk_go.Socket.Guard.{Guarded, writes-Guarded}
use mezon_sdk_go.Socket.Retry.{Retried, write_with_retry-ok}

-- What the parser does with a sign, with a stray letter and past the range.
atoi_id_test :
    (atoi_id (codes "+7") ≡ pos 7)
    × (atoi_id (codes "7x") ≡ pos 0)
    × (atoi_id (codes "99999999999999999999") ≡ pos (2 ^ 63 - 1))
unfolding atoi_id parse_int parse_digits parse_uint digit_of clamp
atoi_id_test = (refl, refl, refl)

abbrev sender : Sender
sender = record { connected = true; next_cid = 1; cids = []; native_ping = true; written = [] }

abbrev exchange : Envelope → Exchange
exchange env = (
  record {
    marshal = λ e. ok (codes "bytes");
    write = λ wire. none;
    meanwhile = λ cids. [];
    outcome = answered (envelope_answer env);
  },
  60,
)

abbrev acked : Envelope
acked = record empty_envelope { reply = λ field. some 77 }

abbrev rejected : Envelope
rejected = record empty_envelope { error = some (record { code = pos 3; message = codes "join" }) }

abbrev rejected_once : Exchanges
rejected_once = record {
  first = exchange rejected;
  joining = exchange acked;
  second = exchange acked;
}

abbrev hello_data : ReplyMessageData
hello_data = record {
  clan_id = codes "1";
  channel_id = codes "2";
  channel_type = pos 0;
  mode = pos 2;
  is_public = true;
  content = some 5;
  mentions = [];
  attachments = [];
  references = [];
  anonymous_message = false;
  mention_everyone = false;
  avatar = [];
  code = pos 0;
  topic_id = [];
}

abbrev hello_json : Option Ref → Result Runes
hello_json content = ok (codes "{}")

hello_runes : (content : Option Ref) (text : Runes) → hello_json content ≡ ok text → All IsRune text
hello_runes content text h = subst (All IsRune) same (omega arith, (omega arith, tt))
  where
    same : codes "{}" ≡ text
    same = ground arith

abbrev hello_ephemeral : EphemeralMessageData
hello_ephemeral = record { receiver_ids = codes "9" ∷ []; reply = hello_data; message_id = [] }

abbrev hello_update : UpdateMessageData
hello_update = record {
  clan_id = codes "1";
  channel_id = codes "2";
  channel_type = pos 0;
  mode = pos 2;
  is_public = true;
  message_id = codes "3";
  content = some 5;
  mentions = [];
  attachments = [];
  create_time_seconds = 0;
  hide_editted = false;
  topic_id = [];
  is_update_msg_topic = false;
}

abbrev encode_update : ChannelMessageUpdate → Result Bytes
encode_update update = ok []

abbrev decode_ids : Bytes → Result (ℤ × ℤ)
decode_ids body = ok (pos 2, pos 3)

writes-Guarded_example :
    Guarded
      (hello_json (some 5))
      sender
      (write_chat_message hello_json rejected_once hello_data sender)
    × Guarded
        (hello_json (some 5))
        sender
        (write_ephemeral_message hello_json rejected_once hello_ephemeral sender)
    × Guarded
        (hello_json (some 5))
        sender
        (update_chat_message hello_json (exchange acked) hello_update sender)
    × Guarded (hello_json (some 5)) sender (
        update_channel_message hello_json encode_update decode_ids
          (exchange acked)
          hello_update
          sender)
writes-Guarded_example =
    writes-Guarded hello_json encode_update decode_ids (exchange acked) rejected_once hello_data
      hello_ephemeral hello_update sender hello_runes

abbrev request : Request
request = clan_join (pos 1)

retried :
    (write_with_retry rejected_once hello_data request
      (reply_field reply_channel_message_ack)
      sender).1
    ≡ ok (some 77)
unfolding write_with_retry send_request reply_field reply_with join_channel_before_retry join_chat
    retry_after_join after_join is_must_join_channel_error contains has_prefix error_text send
    send_response send_marshalled write_and_wait await accept error_of envelope_reply socket_error
    envelope_answer itoa decimal digits_onto enter
retried = refl

write_with_retry-ok_example :
    Retried
      (join_channel_before_retry (exchange acked) hello_data)
      (send_request (exchange acked) request (reply_field reply_channel_message_ack))
      (send_request (exchange rejected) request (reply_field reply_channel_message_ack) sender)
      (some 77)
write_with_retry-ok_example =
    write_with_retry-ok rejected_once hello_data request (reply_field reply_channel_message_ack)
      sender (some 77) retried
