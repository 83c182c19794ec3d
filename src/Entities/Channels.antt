-- ===== src/Entities/Channels.antt =====
-- channel.go and clan.go: new objects, and how a fresh description changes an old one.
use mezon_sdk_go.Prelude.{ℤ, pos, List, [], Option, none, some, Bool, false, not, Bytes, codes}
use mezon_sdk_go.Types.{Mention, Attachment, MessageRef, itoa_id}
use mezon_sdk_go.Cache.{new_cache_manager}
use mezon_sdk_go.Helper.{convert_channel_type_to_channel_mode}
use mezon_sdk_go.Socket.{Ref}
use mezon_sdk_go.Socket.Data.{ReplyMessageData, EphemeralMessageData}
use mezon_sdk_go.Entities.{Address, TextChannel, Clan, ChannelDescription, is_zero, or_string}

-- TextChannel.updateFromDesc
unfoldable pub update_from_desc : ChannelDescription → TextChannel → TextChannel
update_from_desc d c = record c {
  name = d.channel_label;
  channel_type = d.type;
  is_private = not (is_zero d.channel_private);
  category_id = itoa_id d.category_id;
  category_name = d.category_name;
  parent_id = itoa_id d.parent_id;
  meeting_code = d.meeting_code;
}

-- A channel with the zero values of its fields, and its cache of 200 messages.
unfoldable pub blank_channel : Bytes → Address → TextChannel
blank_channel id clan = record {
  id = id;
  name = [];
  is_private = false;
  channel_type = pos 0;
  category_id = [];
  category_name = [];
  parent_id = [];
  meeting_code = [];
  clan = clan;
  messages = new_cache_manager (pos 200);
}

unfoldable pub new_text_channel : ChannelDescription → Address → TextChannel
new_text_channel d clan = update_from_desc d (blank_channel (itoa_id d.channel_id) clan)

-- newClan, with the client's id.
unfoldable pub new_clan : Bytes → Bytes → Bytes → Bytes → Bytes → Bytes → Clan
new_clan id name welcome_channel_id clan_name client_id session_token = record {
  id = id;
  name = name;
  welcome_channel_id = welcome_channel_id;
  clan_name = clan_name;
  channels = new_cache_manager (pos 0);
  session_token = session_token;
  client_id = client_id;
  channels_loaded = false;
}

-- Clan.updateFromDesc: an empty name or welcome channel keeps the old one.
unfoldable pub update_clan_from_desc : Bytes → Bytes → Bytes → Clan → Clan
update_clan_from_desc name welcome_channel_id session_token c = record c {
  name = or_string name c.name;
  clan_name = or_string name c.clan_name;
  welcome_channel_id = or_string welcome_channel_id c.welcome_channel_id;
  session_token = session_token;
}

pub record SendOptions : Type 0 where
  pub mentions : List Mention
  pub attachments : List Attachment
  pub references : List MessageRef
  pub mention_everyone : Bool
  pub anonymous : Bool
  pub topic_id : Bytes
  pub code : ℤ

-- &SendOptions{}
unfoldable pub no_options : SendOptions
no_options = record {
  mentions = [];
  attachments = [];
  references = [];
  mention_everyone = false;
  anonymous = false;
  topic_id = [];
  code = pos 0;
}

unfoldable pub options_or : Option SendOptions → SendOptions
options_or none = no_options
options_or (some opts) = opts

unfoldable pub mode_of : TextChannel → ℤ
mode_of c = pos (convert_channel_type_to_channel_mode c.channel_type)

-- The data of TextChannel.Send, which leaves the avatar unset.
unfoldable pub send_data : Bytes → TextChannel → Option Ref → SendOptions → ReplyMessageData
send_data clan_id c content opts = record {
  clan_id = clan_id;
  channel_id = c.id;
  channel_type = c.channel_type;
  mode = mode_of c;
  is_public = not c.is_private;
  content = content;
  mentions = opts.mentions;
  attachments = opts.attachments;
  references = opts.references;
  anonymous_message = opts.anonymous;
  mention_everyone = opts.mention_everyone;
  avatar = [];
  code = opts.code;
  topic_id = opts.topic_id;
}

-- Of SendEphemeral.
unfoldable pub ephemeral_data :
    List Bytes → Bytes → TextChannel → Option Ref → SendOptions → EphemeralMessageData
ephemeral_data receiver_ids clan_id c content opts = record {
  receiver_ids = receiver_ids;
  reply = record (send_data clan_id c content opts) {
    code = pos 12;
    topic_id = or_string opts.topic_id (codes "0");
  };
  message_id = [];
}
