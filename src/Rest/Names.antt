-- ===== src/Rest/Names.antt =====
-- restapi.go: the methods for single endpoints keep to the names of apiname.go.
use mezon_sdk_go.Prelude.{ℕ, ◌≡◌, refl, some, true, Bytes, get_elem?}
use mezon_sdk_go.ApiName.{api_names}
use mezon_sdk_go.ApiName.Lookup.{api_index_from_name_lem}
use mezon_sdk_go.Socket.Sending.{Sender}
use mezon_sdk_go.Rest.{MezonApi, Target}
use mezon_sdk_go.Rest.Call.{Net, send_over, do_proto_socket}
use mezon_sdk_go.Rest.Fallback.{known_name-path, do_proto_socket-open}
use mezon_sdk_go.Rest.Endpoints.{
  Endpoint, send_channel_message_endpoint, create_channel_desc_endpoint,
  delete_channel_desc_endpoint, list_clan_descs_endpoint, list_channel_detail_endpoint,
  list_channel_descs_endpoint, list_channel_voice_users_endpoint, list_roles_endpoint,
  update_role_endpoint, create_role_endpoint, delete_role_endpoint, update_channel_private_endpoint,
  add_roles_channel_desc_endpoint, set_role_channel_permission_endpoint,
  get_list_permission_endpoint, add_quick_menu_access_endpoint, list_quick_menu_access_endpoint,
  endpoint_name, path_of,
}

-- Where the table has the endpoint.
abbrev endpoint_index : Endpoint → ℕ
endpoint_index send_channel_message_endpoint = 180
endpoint_index create_channel_desc_endpoint = 66
endpoint_index delete_channel_desc_endpoint = 72
endpoint_index list_clan_descs_endpoint = 2
endpoint_index list_channel_detail_endpoint = 39
endpoint_index list_channel_descs_endpoint = 0
endpoint_index list_channel_voice_users_endpoint = 44
endpoint_index list_roles_endpoint = 4
endpoint_index update_role_endpoint = 114
endpoint_index create_role_endpoint = 67
endpoint_index delete_role_endpoint = 69
endpoint_index update_channel_private_endpoint = 113
endpoint_index add_roles_channel_desc_endpoint = 64
endpoint_index set_role_channel_permission_endpoint = 94
endpoint_index get_list_permission_endpoint = 7
endpoint_index add_quick_menu_access_endpoint = 177
endpoint_index list_quick_menu_access_endpoint = 12

endpoint_index_lem :
    (e : Endpoint) → get_elem? api_names (endpoint_index e) ≡ some (endpoint_name e)
unfolding api_names endpoint_name
endpoint_index_lem send_channel_message_endpoint = refl
endpoint_index_lem create_channel_desc_endpoint = refl
endpoint_index_lem delete_channel_desc_endpoint = refl
endpoint_index_lem list_clan_descs_endpoint = refl
endpoint_index_lem list_channel_detail_endpoint = refl
endpoint_index_lem list_channel_descs_endpoint = refl
endpoint_index_lem list_channel_voice_users_endpoint = refl
endpoint_index_lem list_roles_endpoint = refl
endpoint_index_lem update_role_endpoint = refl
endpoint_index_lem create_role_endpoint = refl
endpoint_index_lem delete_role_endpoint = refl
endpoint_index_lem update_channel_private_endpoint = refl
endpoint_index_lem add_roles_channel_desc_endpoint = refl
endpoint_index_lem set_role_channel_permission_endpoint = refl
endpoint_index_lem get_list_permission_endpoint = refl
endpoint_index_lem add_quick_menu_access_endpoint = refl
endpoint_index_lem list_quick_menu_access_endpoint = refl

-- The path of every method is one that the socket takes: it has an index in the table of names, and
-- on an open socket the request goes out under that name, so that none of them is always sent over
-- HTTP.
pub do_proto_socket-path_of :
    {R : Type 0} (e : Endpoint) (net : Net) (body : Bytes) (target : Target R) (a : MezonApi)
    (s : Sender)
    → a.socket ≡ some s
    → s.connected ≡ true
    → ((index : ℕ) × (get_elem? api_names index ≡ some (endpoint_name e)))
      × (do_proto_socket net (path_of e) body target a
          ≡ send_over net (endpoint_name e) body target s a)
unfolding path_of
do_proto_socket-path_of e net body target a s attached is_open =
    let found =
      (api_index_from_name_lem (endpoint_name e) (endpoint_index e)).1 (endpoint_index_lem e) in
    (
      (endpoint_index e, endpoint_index_lem e),
      do_proto_socket-open net body target a (path_of e) (endpoint_name e) s attached is_open
          (known_name-path (endpoint_name e) (endpoint_index e) found),
    )
