-- ===== src/Inbound/RoundTrip.antt =====
-- channelmessage.go with the conversions of types.go: what one bot sends, another one reads.
use mezon_sdk_go.Prelude.{
  ◌^◌, ◌<◌, ◌≡◌, refl, sym, ap, ◌∙◌, ℤ, pos, negsuc, int32_of, signed32, List, [], ◌∷◌, map, Bytes,
  arith, All,
}
use mezon_sdk_go.Errors.{ok}
use mezon_sdk_go.Types.{
  Mention, Attachment, MessageRef, itoa_id, atoi_id, mention_to_proto, mentions_to_proto,
  attachment_to_proto, attachments_to_proto, ref_to_proto, refs_to_proto,
}
use mezon_sdk_go.Types.Ids.{IsInt64, atoi_id-itoa_id}
use mezon_sdk_go.Inbound.{
  Codec, Codecs, looks_like_json, converted, decode_blob, mention_from_proto, decode_mentions,
  attachment_from_proto, decode_attachments, ref_from_proto, decode_refs,
}

-- What protobuf promises of the encoding of a message whose one field, number 1, is a list of
-- messages: it is empty for no items, and else begins with the tag of that field and reads back.
abbrev pub Encodes : {A B : Type 0} → Codec A B → List B → Bytes → Type 0
Encodes codec [] blob = blob ≡ []
Encodes codec (x ∷ xs) blob =
    ((rest : Bytes) × (blob ≡ 10 ∷ rest)) × (codec.from_proto blob ≡ ok (x ∷ xs))

-- A text that itoaID prints for an int64.
abbrev pub IsId : Bytes → Type 0
IsId text = (v : ℤ) × IsInt64 v × (text ≡ itoa_id v)

abbrev pub IsInt32 : ℤ → Type 0
IsInt32 (pos n) = n < 2 ^ 31
IsInt32 (negsuc n) = n < 2 ^ 31

pub record IsMention (m : Mention) : Type 0 where
  pub user_id : IsId m.user_id
  pub role_id : IsId m.role_id
  pub s : IsInt32 m.s
  pub e : IsInt32 m.e

pub record IsAttachment (a : Attachment) : Type 0 where
  pub size : IsInt32 a.size
  pub width : IsInt32 a.width
  pub height : IsInt32 a.height
  pub duration : IsInt32 a.duration

pub record IsRef (r : MessageRef) : Type 0 where
  pub message_id : IsId r.message_id
  pub message_ref_id : IsId r.message_ref_id
  pub ref_type : IsInt32 r.ref_type
  pub message_sender_id : IsId r.message_sender_id

int32_of_lem : (v : ℤ) → IsInt32 v → int32_of v ≡ v
unfolding int32_of signed32
int32_of_lem (pos n) h = ground arith
int32_of_lem (negsuc n) h = ground arith

itoa_id-atoi_id : (text : Bytes) → IsId text → itoa_id (atoi_id text) ≡ text
itoa_id-atoi_id text h =
    ap (λ t. itoa_id (atoi_id t)) h.2 ∙ ap itoa_id (atoi_id-itoa_id h.0 h.1) ∙ sym h.2

decode_blob_lem :
    {A B : Type 0} (codec : Codec A B) (blob : Bytes) (convert : B → A) (xs : List B)
    → Encodes codec xs blob
    → decode_blob codec convert blob ≡ map convert xs
unfolding decode_blob converted looks_like_json
decode_blob_lem codec blob convert [] h = ap (decode_blob codec convert) h
decode_blob_lem codec blob convert (x ∷ xs) h =
    ap (decode_blob codec convert) h.0.1
    ∙ ap (λ b. converted convert (codec.from_proto b)) (sym h.0.1)
    ∙ ap (converted convert) h.1

map_back :
    {A B : Type 0} (to : A → B) (back : B → A) (P : A → Type 0)
    → ((a : A) → P a → back (to a) ≡ a)
    → (xs : List A) → All P xs
    → map back (map to xs) ≡ xs
map_back to back P h [] all = refl
map_back to back P h (x ∷ xs) all =
    ap (λ y. y ∷ map back (map to xs)) (h x all.0)
    ∙ ap (λ ys. x ∷ ys) (map_back to back P h xs all.1)

mention_back : (m : Mention) → IsMention m → mention_from_proto (mention_to_proto m) ≡ m
unfolding mention_from_proto mention_to_proto
mention_back m h = ground (
  arith,
  itoa_id-atoi_id m.user_id h.user_id,
  itoa_id-atoi_id m.role_id h.role_id,
  int32_of_lem m.s h.s,
  int32_of_lem m.e h.e,
)

attachment_back :
    (a : Attachment) → IsAttachment a → attachment_from_proto (attachment_to_proto a) ≡ a
unfolding attachment_from_proto attachment_to_proto
attachment_back a h = ground (
  arith,
  int32_of_lem a.size h.size,
  int32_of_lem a.width h.width,
  int32_of_lem a.height h.height,
  int32_of_lem a.duration h.duration,
)

ref_back : (r : MessageRef) → IsRef r → ref_from_proto (ref_to_proto r) ≡ r
unfolding ref_from_proto ref_to_proto
ref_back r h = ground (
  arith,
  itoa_id-atoi_id r.message_id h.message_id,
  itoa_id-atoi_id r.message_ref_id h.message_ref_id,
  int32_of_lem r.ref_type h.ref_type,
  itoa_id-atoi_id r.message_sender_id h.message_sender_id,
)

-- The mentions, attachments and references that a sender converts to protobuf are read back as they
-- were, when each of their ids is the text that itoaID prints for an int64, each number fits an
-- int32, and the blobs are protobuf encodings of the three converted lists.
pub decode-to_proto :
    (codecs : Codecs) (ms : List Mention) (attachments : List Attachment) (rs : List MessageRef)
    (mention_blob attachment_blob ref_blob : Bytes)
    → Encodes codecs.mentions (mentions_to_proto ms) mention_blob
    → Encodes codecs.attachments (attachments_to_proto attachments) attachment_blob
    → Encodes codecs.refs (refs_to_proto rs) ref_blob
    → All IsMention ms
    → All IsAttachment attachments
    → All IsRef rs
    → (decode_mentions codecs mention_blob ≡ ms)
      × (decode_attachments codecs attachment_blob ≡ attachments)
      × (decode_refs codecs ref_blob ≡ rs)
unfolding decode_mentions decode_attachments decode_refs mentions_to_proto attachments_to_proto
    refs_to_proto
decode-to_proto codecs ms attachments rs mb ab rb cm ca cr hm ha hr = (
  decode_blob_lem codecs.mentions mb mention_from_proto (map mention_to_proto ms) cm
      ∙ map_back mention_to_proto mention_from_proto IsMention mention_back ms hm,
  decode_blob_lem codecs.attachments ab attachment_from_proto (map attachment_to_proto attachments)
        ca
      ∙ map_back attachment_to_proto attachment_from_proto IsAttachment attachment_back attachments
          ha,
  decode_blob_lem codecs.refs rb ref_from_proto (map ref_to_proto rs) cr
      ∙ map_back ref_to_proto ref_from_proto IsRef ref_back rs hr,
)
