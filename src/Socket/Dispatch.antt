-- ===== src/Socket/Dispatch.antt =====
-- socket_dispatch.go, with the event names of constants.go: which event an envelope becomes.
-- channelMessageFromProto is the parameter `convert`, to a type `M` of friendly messages.
use mezon_sdk_go.Prelude.{List, [], ◌∷◌, Option, none, some, Bool, if◌then◌else◌, not, Bytes, codes}
use mezon_sdk_go.Socket.{
  Ref, Envelope, EventField, channel_message, message_reaction_event, channel_created_event,
  channel_deleted_event, channel_updated_event, channel_archive_event, user_channel_added_event,
  user_channel_removed_event, user_clan_removed_event, add_clan_user_event, role_event,
  role_assign_event, give_coffee_event, token_sent_event, clan_event_created,
  message_button_clicked, streaming_joined_event, streaming_leaved_event, dropdown_box_selected,
  webrtc_signaling_fwd, voice_started_event, voice_ended_event, voice_joined_event,
  voice_leaved_event, notifications, quick_menu_event, aiagent_enabled_event, clan_updated_event,
  clan_profile_updated_event, user_profile_updated_event, clan_deleted_event,
}

-- The event that a field is emitted as.
unfoldable pub event_name : EventField → Bytes
event_name channel_message = codes "channel_message"
event_name message_reaction_event = codes "message_reaction_event"
event_name channel_created_event = codes "channel_created_event"
event_name channel_deleted_event = codes "channel_deleted_event"
event_name channel_updated_event = codes "channel_updated_event"
event_name channel_archive_event = codes "channel_archive_event"
event_name user_channel_added_event = codes "user_channel_added_event"
event_name user_channel_removed_event = codes "user_channel_removed_event"
event_name user_clan_removed_event = codes "user_clan_removed_event"
event_name add_clan_user_event = codes "add_clan_user_event"
event_name role_event = codes "role_event"
event_name role_assign_event = codes "role_assign_event"
event_name give_coffee_event = codes "give_coffee_event"
event_name token_sent_event = codes "token_sent_event"
event_name clan_event_created = codes "clan_event_created"
event_name message_button_clicked = codes "message_button_clicked"
event_name streaming_joined_event = codes "streaming_joined_event"
event_name streaming_leaved_event = codes "streaming_leaved_event"
event_name dropdown_box_selected = codes "dropdown_box_selected"
event_name webrtc_signaling_fwd = codes "webrtc_signaling_fwd"
event_name voice_started_event = codes "voice_started_event"
event_name voice_ended_event = codes "voice_ended_event"
event_name voice_joined_event = codes "voice_joined_event"
event_name voice_leaved_event = codes "voice_leaved_event"
event_name notifications = codes "notifications"
event_name quick_menu_event = codes "quick_menu_event"
event_name aiagent_enabled_event = codes "aiagent_enabled_event"
event_name clan_updated_event = codes "clan_updated_event"
event_name clan_profile_updated_event = codes "clan_profile_updated_event"
event_name user_profile_updated_event = codes "user_profile_updated_event"
event_name clan_deleted_event = codes "clan_deleted_event"

-- The cases of the switch, in order.
unfoldable pub dispatch_order : List EventField
dispatch_order =
    channel_message ∷ message_reaction_event ∷ channel_created_event ∷ channel_deleted_event
    ∷ channel_updated_event ∷ channel_archive_event ∷ user_channel_added_event
    ∷ user_channel_removed_event ∷ user_clan_removed_event ∷ add_clan_user_event ∷ role_event
    ∷ role_assign_event ∷ give_coffee_event ∷ token_sent_event ∷ clan_event_created
    ∷ message_button_clicked ∷ streaming_joined_event ∷ streaming_leaved_event
    ∷ dropdown_box_selected ∷ webrtc_signaling_fwd ∷ voice_started_event ∷ voice_ended_event
    ∷ voice_joined_event ∷ voice_leaved_event ∷ notifications ∷ quick_menu_event
    ∷ aiagent_enabled_event ∷ clan_updated_event ∷ clan_profile_updated_event
    ∷ user_profile_updated_event ∷ clan_deleted_event ∷ []

-- What a handler receives: the decoded protobuf message, or a friendly message.
pub data Payload (M : Type 0) : Type 0 where
  proto_message : Ref → Payload M
  friendly_message : M → Payload M

unfoldable pub payload_of : {M : Type 0} → (Ref → M) → EventField → Ref → Payload M
payload_of convert channel_message r = friendly_message (convert r)
payload_of convert message_reaction_event r = proto_message r
payload_of convert channel_created_event r = proto_message r
payload_of convert channel_deleted_event r = proto_message r
payload_of convert channel_updated_event r = proto_message r
payload_of convert channel_archive_event r = proto_message r
payload_of convert user_channel_added_event r = proto_message r
payload_of convert user_channel_removed_event r = proto_message r
payload_of convert user_clan_removed_event r = proto_message r
payload_of convert add_clan_user_event r = proto_message r
payload_of convert role_event r = proto_message r
payload_of convert role_assign_event r = proto_message r
payload_of convert give_coffee_event r = proto_message r
payload_of convert token_sent_event r = proto_message r
payload_of convert clan_event_created r = proto_message r
payload_of convert message_button_clicked r = proto_message r
payload_of convert streaming_joined_event r = proto_message r
payload_of convert streaming_leaved_event r = proto_message r
payload_of convert dropdown_box_selected r = proto_message r
payload_of convert webrtc_signaling_fwd r = proto_message r
payload_of convert voice_started_event r = proto_message r
payload_of convert voice_ended_event r = proto_message r
payload_of convert voice_joined_event r = proto_message r
payload_of convert voice_leaved_event r = proto_message r
payload_of convert notifications r = proto_message r
payload_of convert quick_menu_event r = proto_message r
payload_of convert aiagent_enabled_event r = proto_message r
payload_of convert clan_updated_event r = proto_message r
payload_of convert clan_profile_updated_event r = proto_message r
payload_of convert user_profile_updated_event r = proto_message r
payload_of convert clan_deleted_event r = proto_message r

unfoldable pub first_set :
    {M : Type 0}
    → (Ref → M)
    → (EventField → Option Ref)
    → List EventField
    → Option (Bytes × Payload M)
first_set convert event [] = none
first_set convert event (field ∷ order) = elim (event field) [
  | some r ↦ some (event_name field, payload_of convert field r)
  | none ↦ first_set convert event order
]

-- The call of `emit`, if there is one; `has_emit` is whether the socket's `emit` is set.
unfoldable pub dispatch : {M : Type 0} → (Ref → M) → Bool → Envelope → Option (Bytes × Payload M)
dispatch convert has_emit env =
    if not has_emit then none else first_set convert env.event dispatch_order
