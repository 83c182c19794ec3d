-- ===== src/Rest/Endpoints.antt =====
-- restapi.go: the methods for single endpoints. The type `M` stands
-- for the generated request messages that the caller fills, `marshal` for proto.Marshal.
use mezon_sdk_go.Prelude.{ℤ, ◌++◌, none, some, Bool, Bytes, codes}
use mezon_sdk_go.Errors.{Result}
use mezon_sdk_go.Types.{ChannelMessageSend, atoi_id}
use mezon_sdk_go.Rest.{MezonApi, Target}
use mezon_sdk_go.Rest.Call.{Net, api_prefix, do_proto}

-- The endpoints that have a method of their own.
pub data Endpoint : Type 0 where
  send_channel_message_endpoint create_channel_desc_endpoint delete_channel_desc_endpoint : Endpoint
  list_clan_descs_endpoint list_channel_detail_endpoint list_channel_descs_endpoint : Endpoint
  list_channel_voice_users_endpoint list_roles_endpoint update_role_endpoint : Endpoint
  create_role_endpoint delete_role_endpoint update_channel_private_endpoint : Endpoint
  add_roles_channel_desc_endpoint set_role_channel_permission_endpoint : Endpoint
  get_list_permission_endpoint add_quick_menu_access_endpoint : Endpoint
  list_quick_menu_access_endpoint : Endpoint

-- The path literals.
unfoldable pub endpoint_name : Endpoint → Bytes
endpoint_name send_channel_message_endpoint = codes "SendChannelMessage"
endpoint_name create_channel_desc_endpoint = codes "CreateChannelDesc"
endpoint_name delete_channel_desc_endpoint = codes "DeleteChannelDesc"
endpoint_name list_clan_descs_endpoint = codes "ListClanDescs"
endpoint_name list_channel_detail_endpoint = codes "ListChannelDetail"
endpoint_name list_channel_descs_endpoint = codes "ListChannelDescs"
endpoint_name list_channel_voice_users_endpoint = codes "ListChannelVoiceUsers"
endpoint_name list_roles_endpoint = codes "ListRoles"
endpoint_name update_role_endpoint = codes "UpdateRole"
endpoint_name create_role_endpoint = codes "CreateRole"
endpoint_name delete_role_endpoint = codes "DeleteRole"
endpoint_name update_channel_private_endpoint = codes "UpdateChannelPrivate"
endpoint_name add_roles_channel_desc_endpoint = codes "AddRolesChannelDesc"
endpoint_name set_role_channel_permission_endpoint = codes "SetRoleChannelPermission"
endpoint_name get_list_permission_endpoint = codes "GetListPermission"
endpoint_name add_quick_menu_access_endpoint = codes "AddQuickMenuAccess"
endpoint_name list_quick_menu_access_endpoint = codes "ListQuickMenuAccess"

unfoldable pub path_of : Endpoint → Bytes
path_of e = api_prefix ++ endpoint_name e

pub record ListChannelDescsRequest : Type 0 where
  pub limit : ℤ
  pub state : ℤ
  pub cursor : Bytes
  pub clan_id : ℤ
  pub channel_type : ℤ
  pub is_mobile : Bool

-- The requests that the methods build, and those that they are given.
pub data ApiRequest (M : Type 0) : Type 0 where
  given : M → ApiRequest M
  given_message : ChannelMessageSend → ApiRequest M
  delete_channel_desc_request : ℤ → ℤ → ApiRequest M
  list_clan_desc_request : ℤ → ℤ → Bytes → ApiRequest M
  list_channel_detail_request : ℤ → ApiRequest M
  list_channel_descs_request : ListChannelDescsRequest → ApiRequest M
  list_channel_users_request : ℤ → ℤ → ApiRequest M
  role_list_event_request : ℤ → ℤ → ℤ → Bytes → ApiRequest M
  delete_role_request : ℤ → ℤ → ApiRequest M
  list_quick_menu_access_request : ℤ → ℤ → ℤ → ApiRequest M

-- A call with a nil response message.
unfoldable pub nil_target : Target (Unit {0})
nil_target = record { zero_value = tt; unmarshal = none }

module _ {M : Type 0} (net : Net) (marshal : ApiRequest M → Result Bytes) where
  unfoldable pub invoke :
      {R : Type 0} → Endpoint → Bytes → ApiRequest M → Target R → MezonApi → MezonApi × Result R
  invoke e bearer request target a =
      do_proto net bearer (path_of e) (some (marshal request)) target a

  unfoldable pub delete_channel_desc :
      Bytes → Bytes → Bytes → MezonApi → MezonApi × Result (Unit {0})
  delete_channel_desc bearer clan_id channel_id a =
      invoke delete_channel_desc_endpoint bearer
        (delete_channel_desc_request (atoi_id clan_id) (atoi_id channel_id)) nil_target a

  unfoldable pub update_role : Bytes → M → MezonApi → MezonApi × Result (Unit {0})
  update_role bearer req a = invoke update_role_endpoint bearer (given req) nil_target a

  unfoldable pub delete_role : Bytes → Bytes → Bytes → MezonApi → MezonApi × Result (Unit {0})
  delete_role bearer role_id clan_id a =
      invoke delete_role_endpoint bearer (delete_role_request (atoi_id role_id) (atoi_id clan_id))
        nil_target a

  unfoldable pub update_channel_private : Bytes → M → MezonApi → MezonApi × Result (Unit {0})
  update_channel_private bearer req a =
      invoke update_channel_private_endpoint bearer (given req) nil_target a

  unfoldable pub add_roles_channel_desc : Bytes → M → MezonApi → MezonApi × Result (Unit {0})
  add_roles_channel_desc bearer req a =
      invoke add_roles_channel_desc_endpoint bearer (given req) nil_target a

  unfoldable pub set_role_channel_permission : Bytes → M → MezonApi → MezonApi × Result (Unit {0})
  set_role_channel_permission bearer req a =
      invoke set_role_channel_permission_endpoint bearer (given req) nil_target a

  unfoldable pub add_quick_menu_access : Bytes → M → MezonApi → MezonApi × Result (Unit {0})
  add_quick_menu_access bearer req a =
      invoke add_quick_menu_access_endpoint bearer (given req) nil_target a

  -- The methods with an answer; `target` is its generated message.
  module _ {R : Type 0} (target : Target R) where
    unfoldable pub send_channel_message :
        Bytes → ChannelMessageSend → MezonApi → MezonApi × Result R
    send_channel_message bearer req a =
        invoke send_channel_message_endpoint bearer (given_message req) target a

    unfoldable pub create_channel_desc : Bytes → M → MezonApi → MezonApi × Result R
    create_channel_desc bearer req a =
        invoke create_channel_desc_endpoint bearer (given req) target a

    unfoldable pub list_clan_descs : Bytes → ℤ → ℤ → Bytes → MezonApi → MezonApi × Result R
    list_clan_descs bearer limit state cursor a =
        invoke list_clan_descs_endpoint bearer (list_clan_desc_request limit state cursor) target a

    unfoldable pub list_channel_detail : Bytes → Bytes → MezonApi → MezonApi × Result R
    list_channel_detail bearer channel_id a =
        invoke list_channel_detail_endpoint bearer
          (list_channel_detail_request (atoi_id channel_id)) target a

    unfoldable pub list_channel_descs :
        Bytes → ℤ → Bytes → ℤ → ℤ → Bytes → Bool → MezonApi → MezonApi × Result R
    list_channel_descs bearer channel_type clan_id limit state cursor is_mobile a =
        let request : ListChannelDescsRequest = record {
          limit = limit;
          state = state;
          cursor = cursor;
          clan_id = atoi_id clan_id;
          channel_type = channel_type;
          is_mobile = is_mobile;
        } in
        invoke list_channel_descs_endpoint bearer (list_channel_descs_request request) target a

    unfoldable pub list_channel_voice_users : Bytes → Bytes → ℤ → MezonApi → MezonApi × Result R
    list_channel_voice_users bearer clan_id limit a =
        invoke list_channel_voice_users_endpoint bearer
          (list_channel_users_request (atoi_id clan_id) limit) target a

    unfoldable pub list_roles : Bytes → Bytes → ℤ → ℤ → Bytes → MezonApi → MezonApi × Result R
    list_roles bearer clan_id limit state cursor a =
        invoke list_roles_endpoint bearer
          (role_list_event_request (atoi_id clan_id) limit state cursor) target a

    unfoldable pub create_role : Bytes → M → MezonApi → MezonApi × Result R
    create_role bearer req a = invoke create_role_endpoint bearer (given req) target a

    unfoldable pub list_quick_menu_access :
        Bytes → Bytes → Bytes → ℤ → MezonApi → MezonApi × Result R
    list_quick_menu_access bearer bot_id channel_id menu_type a =
        invoke list_quick_menu_access_endpoint bearer
          (list_quick_menu_access_request (atoi_id bot_id) (atoi_id channel_id) menu_type) target a

-- No request message at all.
unfoldable pub get_list_permission :
    {R : Type 0} → Net → Target R → Bytes → MezonApi → MezonApi × Result R
get_list_permission net target bearer a =
    do_proto net bearer (path_of get_list_permission_endpoint) none target a
