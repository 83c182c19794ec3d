-- ===== src/Socket/Guard.antt =====
-- socket_write.go and content.go: what is written is within the limit on content.
use mezon_sdk_go.Prelude.{
  Bytes, ℤ, ◌≤◌, ◌≡◌, refl, ◌⊎◌, inl, inr, Option, none, length, All, arith, Option-cases,
}
use mezon_sdk_go.Errors.{Error, Result, ok, err}
use mezon_sdk_go.Utf16.{Runes, utf16_len, utf16_encode}
use mezon_sdk_go.Utf16.Encoding.{IsRune, length-utf16_encode}
use mezon_sdk_go.Content.{max_content_length, validate_content_length}
use mezon_sdk_go.Socket.{Ref}
use mezon_sdk_go.Socket.Sending.{Sender}
use mezon_sdk_go.Types.{ChannelMessageUpdate}
use mezon_sdk_go.Socket.Write.{Exchange, Exchanges}
use mezon_sdk_go.Socket.Messages.{
  check_length, with_content, write_chat_message, write_ephemeral_message, update_chat_message,
  update_channel_message,
}
use mezon_sdk_go.Socket.Data.{ReplyMessageData, EphemeralMessageData, UpdateMessageData}

validate_content_length-none :
    (text : Runes) → validate_content_length text ≡ none → utf16_len text ≤ max_content_length
unfolding validate_content_length
validate_content_length-none text h = ground arith

-- Either the text is within the limit, or nothing happens but an error.
abbrev pub Guarded : {A : Type 0} → Result Runes → Sender → Sender × Result A → Type 0
Guarded marshalled s r =
    ((text : Runes) × (marshalled ≡ ok text) × (length (utf16_encode text) ≤ max_content_length))
    ⊎ ((e : Error) × (r ≡ (s, err e)))

with_content-Guarded :
    {A : Type 0} (m : Result Runes) (go_on : Runes → Sender → Sender × Result A) (s : Sender)
    → ((text : Runes) → m ≡ ok text → All IsRune text)
    → Guarded m s (with_content m go_on s)
unfolding with_content check_length
with_content-Guarded (err e) go_on s runes = inr (e, refl)
with_content-Guarded (ok text) go_on s runes = elim (Option-cases (validate_content_length text)) [
  | inl fits ↦
      let small = validate_content_length-none text fits in
      inl (text, refl, omega (arith, length-utf16_encode text (runes text refl), small))
  | inr (e, long) ↦ inr (e, rw (long, check_length) refl)
]

-- WriteChatMessage, WriteEphemeralMessage, UpdateChatMessage and UpdateChannelMessage send nothing,
-- take no cid and return an error, unless the JSON text of the content has at most 8000 UTF-16 code
-- units, as many as JavaScript counts; the encoder's texts are made of runes.
pub writes-Guarded :
    (marshal : Option Ref → Result Runes) (encode : ChannelMessageUpdate → Result Bytes)
    (unmarshal : Bytes → Result (ℤ × ℤ)) (x : Exchange) (xs : Exchanges) (d : ReplyMessageData)
    (ephemeral : EphemeralMessageData) (update : UpdateMessageData) (s : Sender)
    → ((content : Option Ref) (text : Runes) → marshal content ≡ ok text → All IsRune text)
    → Guarded (marshal d.content) s (write_chat_message marshal xs d s)
      × Guarded (marshal ephemeral.reply.content) s (write_ephemeral_message marshal xs ephemeral s)
      × Guarded (marshal update.content) s (update_chat_message marshal x update s)
      × Guarded
          (marshal update.content)
          s
          (update_channel_message marshal encode unmarshal x update s)
unfolding write_chat_message write_ephemeral_message update_chat_message update_channel_message
writes-Guarded marshal encode unmarshal x xs d ephemeral update s runes = (
  with_content-Guarded (marshal d.content) _ s (runes d.content),
  with_content-Guarded (marshal ephemeral.reply.content) _ s (runes ephemeral.reply.content),
  with_content-Guarded (marshal update.content) _ s (runes update.content),
  with_content-Guarded (marshal update.content) _ s (runes update.content),
)
