-- ===== src/Client/Requests.antt =====
-- clan.go: the requests for roles, permissions and voice users, each by the clan's session token.
use mezon_sdk_go.Prelude.{
  ℤ, pos, negsuc, List, map, Bool, ltb, leb, not, ◌||◌, if◌then◌else◌, Bytes, codes,
}
use mezon_sdk_go.Errors.{err_text, Result, err}
use mezon_sdk_go.Types.{atoi_id}
use mezon_sdk_go.Rest.{MezonApi, Target}
use mezon_sdk_go.Rest.Call.{Net}
use mezon_sdk_go.Rest.Endpoints
use mezon_sdk_go.Rest.Endpoints.{ApiRequest}
use mezon_sdk_go.Entities.{Clan, is_zero}
use mezon_sdk_go.Client.{
  Filled, ChangeChannelPrivateRequest, change_channel_private_request,
  add_role_channel_desc_request,
}
use mezon_sdk_go.Client.Clans.{flag}

-- 0 < limit <= 500
unfoldable pub in_voice_limit : ℤ → Bool
in_voice_limit (pos n) = not (leb n 0 || ltb 500 n)
in_voice_limit (negsuc n) = Bool.false

module _ (net : Net) (marshal : ApiRequest Filled → Result Bytes) (clan : Clan) where
  unfoldable pub list_roles :
      {R : Type 0} → Target R → ℤ → ℤ → Bytes → MezonApi → MezonApi × Result R
  list_roles target limit state cursor a =
      Endpoints.list_roles net marshal target clan.session_token clan.id limit state cursor a

  unfoldable pub update_role : Filled → MezonApi → MezonApi × Result (Unit {0})
  update_role req a = Endpoints.update_role net marshal clan.session_token req a

  -- A request is a clan id and a message of it; a clan id of zero is filled in from the clan.
  unfoldable pub create_role :
      {R : Type 0} → Target R → ℤ → (ℤ → Filled) → MezonApi → MezonApi × Result R
  create_role target clan_id req a =
      Endpoints.create_role net marshal target clan.session_token
        (req (if is_zero clan_id then atoi_id clan.id else clan_id)) a

  unfoldable pub delete_role : Bytes → MezonApi → MezonApi × Result (Unit {0})
  delete_role role_id a = Endpoints.delete_role net marshal clan.session_token role_id clan.id a

  unfoldable pub update_channel_private :
      Bytes → Bool → List Bytes → List Bytes → MezonApi → MezonApi × Result (Unit {0})
  update_channel_private channel_id private role_ids user_ids a =
      let req : ChangeChannelPrivateRequest = record {
        clan_id = atoi_id clan.id;
        channel_id = atoi_id channel_id;
        channel_private = flag private;
        role_ids = map atoi_id role_ids;
        user_ids = map atoi_id user_ids;
      } in
      Endpoints.update_channel_private net marshal clan.session_token
        (change_channel_private_request req) a

  unfoldable pub add_roles_to_channel : Bytes → List Bytes → MezonApi → MezonApi × Result (Unit {0})
  add_roles_to_channel channel_id role_ids a =
      Endpoints.add_roles_channel_desc net marshal clan.session_token
        (add_role_channel_desc_request (atoi_id channel_id) (map atoi_id role_ids)) a

  unfoldable pub set_role_channel_permission : Filled → MezonApi → MezonApi × Result (Unit {0})
  set_role_channel_permission req a =
      Endpoints.set_role_channel_permission net marshal clan.session_token req a

  unfoldable pub list_channel_voice_users :
      {R : Type 0} → Target R → ℤ → MezonApi → MezonApi × Result R
  list_channel_voice_users target limit a =
      if in_voice_limit limit
      then Endpoints.list_channel_voice_users net marshal target clan.session_token clan.id limit a
      else (a, err (err_text (codes "0 < limit <= 500")))

unfoldable pub list_permissions :
    {R : Type 0} → Net → Target R → Clan → MezonApi → MezonApi × Result R
list_permissions net target clan a = Endpoints.get_list_permission net target clan.session_token a
