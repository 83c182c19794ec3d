-- ===== src/Client/Dm.antt =====
-- channelmanager.go, user.go and the rest of sharedcache.go: direct messages and users. The
-- requests of one operation meet different networks, which are given apart.
pub mod Noted
use mezon_sdk_go.Prelude.{
  ℕ, zero, suc, ℤ, pos, negsuc, List, [], ◌∷◌, ◌++◌, Option, none, some, Bool, true, false, not,
  ◌||◌, if◌then◌else◌, Bytes, codes, lookup, insert, nat_eq, bytes_eq,
}
use mezon_sdk_go.Errors.{Error, err_not_found, err_socket_closed, err_text, Result, ok, err}
use mezon_sdk_go.Types.{atoi_id, itoa_id}
use mezon_sdk_go.Helper.{is_valid_user_id}
use mezon_sdk_go.Cache.{set}
use mezon_sdk_go.Socket.{Ref}
use mezon_sdk_go.Socket.Sending.{Sender}
use mezon_sdk_go.Socket.Write.{Exchange, join_chat}
use mezon_sdk_go.Rest.{MezonApi}
use mezon_sdk_go.Rest.Call.{Net}
use mezon_sdk_go.Rest.Endpoints.{list_channel_descs, create_channel_desc}
use mezon_sdk_go.Entities.{Address, User, ChannelDescription, is_zero}
use mezon_sdk_go.Client.{
  Client, Setting, UserDto, CreateChannelDescRequest, create_channel_desc_request, l2_user_prefix,
  l2_get,
}
use mezon_sdk_go.Client.Shared.{decoded_or_none, share_encoded}
use mezon_sdk_go.Client.Clans.{with_api}

-- ch.Type == ChannelTypeDM
unfoldable pub is_dm_type : ℤ → Bool
is_dm_type (pos (suc (suc (suc zero)))) = true
is_dm_type t = false

-- api.CreateChannelDescRequest of a direct channel with one user.
unfoldable pub dm_request : Bytes → CreateChannelDescRequest
dm_request user_id = record {
  clan_id = pos 0;
  parent_id = pos 0;
  channel_id = pos 0;
  category_id = pos 0;
  type = pos 3;
  channel_label = [];
  channel_private = pos 1;
  user_ids = atoi_id user_id ∷ [];
}

-- The socket that the REST client and the client share.
unfoldable pub use_socket :
    {A : Type 0} → (Sender → Sender × Result A) → MezonApi → MezonApi × Result A
use_socket run a = elim a.socket [
  | none ↦ (a, err err_socket_closed)
  | some s ↦ let r = run s in (record a { socket = some r.0 }, r.1)
]

unfoldable pub build_user : UserDto → User
build_user dto = record {
  id = dto.id;
  username = [];
  clan_nick = [];
  clan_avatar = [];
  display_name = [];
  avatar = [];
  dm_channel_id = dto.dm_channel_id;
}

unfoldable pub with_dm : UserDto → Option UserDto
with_dm dto = elim dto.dm_channel_id [ [] ↦ none | c ∷ id ↦ some dto ]

module _ {S : Type 0} where
  -- A channel of direct messages with its first user; any other description is passed over.
  unfoldable pub note_dm_as : ChannelDescription → List ℤ → Client S → Client S
  note_dm_as ch [] c = c
  note_dm_as ch (user ∷ users) c =
      if is_zero ch.channel_id || not (is_dm_type ch.type) then c else record c {
        dm_descs = c.dm_descs ++ (ch ∷ []);
        dm_by_user = insert (itoa_id user) (itoa_id ch.channel_id) c.dm_by_user;
      }

  unfoldable pub note_dms : List ChannelDescription → Client S → Client S
  note_dms [] c = c
  note_dms (ch ∷ chs) c = note_dms chs (note_dm_as ch ch.user_ids c)

  unfoldable pub take_dms : Result (List ChannelDescription) → Client S → Client S × Option Error
  take_dms (err e) c = (c, some e)
  take_dms (ok chs) c = (note_dms chs (record c { dm_by_user = []; dm_descs = [] }), none)

  unfoldable pub init_all_dm_channels : Setting S → Net → Bytes → Client S → Client S × Option Error
  init_all_dm_channels env net [] c = (c, none)
  init_all_dm_channels env net (t ∷ token) c =
      let r =
        list_channel_descs net env.marshal env.desc_list_target (t ∷ token) (pos 3) [] (pos 0)
          (pos 0) [] false c.api in
      take_dms r.1 (with_api r.0 c)

  -- A failed join is not an error.
  unfoldable pub join_dm :
      Exchange → Result ChannelDescription → Client S → Client S × Result ChannelDescription
  join_dm x (err e) c = (c, err e)
  join_dm x (ok ch) c =
      let joined =
        use_socket (join_chat x (itoa_id ch.clan_id) (itoa_id ch.channel_id) ch.type false) c.api in
      (with_api joined.0 c, ok ch)

  unfoldable pub create_dm_as :
      Setting S → Net → Exchange → Bytes → Bytes → Client S → Client S × Result ChannelDescription
  create_dm_as env net x user_id token c =
      let r =
        create_channel_desc net env.marshal env.desc_target token
          (create_channel_desc_request (dm_request user_id)) c.api in
      join_dm x r.1 (with_api r.0 c)

  unfoldable pub create_dm_channel :
      Setting S → Net → Exchange → Bytes → Client S → Client S × Result ChannelDescription
  create_dm_channel env net x user_id c =
      if not (is_valid_user_id user_id) then (c, err err_not_found) else elim c.session [
        | none ↦ (c, err err_not_found)
        | some token ↦ create_dm_as env net x user_id token c
      ]

  -- A new user in the heap and in the cache.
  unfoldable pub add_user : Bytes → User → Client S → Client S × Address
  add_user id user c = (
    record c {
      user_heap = insert c.fresh user c.user_heap;
      users = set c.users id c.fresh;
      fresh = suc c.fresh;
    },
    c.fresh,
  )

  unfoldable pub dto_of_bytes : Setting S → Option Bytes → Option UserDto
  dto_of_bytes env none = none
  dto_of_bytes env (some b) = elim (decoded_or_none (env.decode_user b)) [
    | none ↦ none
    | some dto ↦ with_dm dto
  ]

  unfoldable pub shared_user : Setting S → Bytes → Client S → Option UserDto
  shared_user env id c = dto_of_bytes env (l2_get env (l2_user_prefix ++ id) c)

  unfoldable pub found_user : Client S × Address → Client S × Result Address
  found_user (c, u) = (c, ok u)

  unfoldable pub take_dm :
      Setting S → Bytes → Result ChannelDescription → Client S → Client S × Result Address
  take_dm env id (err e) c = (c, err err_not_found)
  take_dm env id (ok dm) c =
      let dto : UserDto = record { id = id; dm_channel_id = itoa_id dm.channel_id } in
      found_user (
        add_user id (build_user dto)
          (share_encoded env (l2_user_prefix ++ id) (env.encode_user dto) c))

  unfoldable pub fetch_user_as :
      Setting S → Net → Exchange → Bytes → Option UserDto → Client S → Client S × Result Address
  fetch_user_as env net x id (some dto) c = found_user (add_user id (build_user dto) c)
  fetch_user_as env net x id none c =
      let r = create_dm_channel env net x id c in take_dm env id r.1 r.0

  unfoldable pub fetch_user :
      Setting S → Net → Exchange → Bytes → Client S → Client S × Result Address
  fetch_user env net x id c = elim c.session [
    | none ↦ (c, err err_not_found)
    | some token ↦ fetch_user_as env net x id (shared_user env id c) c
  ]
