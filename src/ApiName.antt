-- ===== src/ApiName.antt =====
-- apiname.go: the names of the server's API, each known to it by its place in the list.
pub mod Lookup
use mezon_sdk_go.Prelude.{
  ℕ, zero, suc, ◌+◌, List, [], ◌∷◌, Option, Bytes, codes, insert, lookup, bytes_eq,
}

unfoldable pub api_names : List Bytes
api_names =
    codes "ListChannelDescs"
    ∷ codes "GetAccount"
    ∷ codes "ListClanDescs"
    ∷ codes "ListClanUsers"
    ∷ codes "ListRoles"
    ∷ codes "ListEvents"
    ∷ codes "GetRoleOfUserInTheClan"
    ∷ codes "GetListPermission"
    ∷ codes "ListUserPermissionInChannel"
    ∷ codes "GetNotificationClan"
    ∷ codes "ListMutedChannel"
    ∷ codes "ListStreamingChannelUsers"
    ∷ codes "ListQuickMenuAccess"
    ∷ codes "GetNotificationChannel"
    ∷ codes "ListFriends"
    ∷ codes "EmojiRecentList"
    ∷ codes "GetListEmojisByUserId"
    ∷ codes "ListClanBadgeCount"
    ∷ codes "ListChannelBadgeCount"
    ∷ codes "ListLogedDevice"
    ∷ codes "ListClanUsersStatus"
    ∷ codes "ListChannelApps"
    ∷ codes "GetListFavoriteChannel"
    ∷ codes "ListCategoryDescs"
    ∷ codes "ListOnboarding"
    ∷ codes "GetListStickersByUserId"
    ∷ codes "GetSystemMessageByClanId"
    ∷ codes "GetPinMessagesList"
    ∷ codes "GetChannelCanvasList"
    ∷ codes "ListChannelTimeline"
    ∷ codes "ListChannelMessages"
    ∷ codes "ListActivity"
    ∷ codes "ListChannelByUserId"
    ∷ codes "ListUserClansByUserId"
    ∷ codes "GetUserProfileOnClan"
    ∷ codes "RegistFCMDeviceToken"
    ∷ codes "IsBanned"
    ∷ codes "ListThreadDescs"
    ∷ codes "ListArchivedChannelDescs"
    ∷ codes "ListChannelDetail"
    ∷ codes "GetChannelCategoryNotiSettingsList"
    ∷ codes "ListRoleUsers"
    ∷ codes "ListChannelUsers"
    ∷ codes "ListChannelAttachment"
    ∷ codes "ListChannelVoiceUsers"
    ∷ codes "ListUserOnline"
    ∷ codes "ListNotifications"
    ∷ codes "ListChannelUsersUC"
    ∷ codes "ListWebhookByChannelId"
    ∷ codes "GetPermissionByRoleIdChannelId"
    ∷ codes "ListChannelSetting"
    ∷ codes "ListApps"
    ∷ codes "GetApp"
    ∷ codes "ListForSaleItems"
    ∷ codes "ListClanWebhook"
    ∷ codes "GetUserStatus"
    ∷ codes "ListSdTopic"
    ∷ codes "AddFriends"
    ∷ codes "AddChannelUsers"
    ∷ codes "RegistrationEmail"
    ∷ codes "BlockFriends"
    ∷ codes "UnblockFriends"
    ∷ codes "UploadAttachmentFile"
    ∷ codes "UploadOauthFile"
    ∷ codes "AddRolesChannelDesc"
    ∷ codes "CreateCategoryDesc"
    ∷ codes "CreateChannelDesc"
    ∷ codes "CreateRole"
    ∷ codes "CreateEvent"
    ∷ codes "DeleteRole"
    ∷ codes "DeleteEvent"
    ∷ codes "DeleteRoleChannelDesc"
    ∷ codes "DeleteChannelDesc"
    ∷ codes "CloseDMByChannelId"
    ∷ codes "OpenDMByChannelId"
    ∷ codes "DeleteAccount"
    ∷ codes "DeleteFriends"
    ∷ codes "DeleteCategoryDesc"
    ∷ codes "DeleteNotifications"
    ∷ codes "DeleteClanDesc"
    ∷ codes "UpdateUser"
    ∷ codes "UpdateUserProfileByClan"
    ∷ codes "UpdateClanOrder"
    ∷ codes "RemoveChannelUsers"
    ∷ codes "LeaveThread"
    ∷ codes "ArchiveChannel"
    ∷ codes "LinkSMS"
    ∷ codes "ConfirmLinkMezonOTP"
    ∷ codes "LinkEmail"
    ∷ codes "CreateClanDesc"
    ∷ codes "RemoveClanUsers"
    ∷ codes "BanClanUsers"
    ∷ codes "CreateLinkInviteUser"
    ∷ codes "InviteUser"
    ∷ codes "SetRoleChannelPermission"
    ∷ codes "SetNotificationChannelSetting"
    ∷ codes "SetMuteChannel"
    ∷ codes "SetMuteCategory"
    ∷ codes "SetNotificationClanSetting"
    ∷ codes "SetNotificationCategorySetting"
    ∷ codes "DeleteNotificationCategorySetting"
    ∷ codes "DeleteNotificationChannel"
    ∷ codes "CreatePinMessage"
    ∷ codes "CreateMessage2Inbox"
    ∷ codes "UnlinkMezon"
    ∷ codes "UnlinkEmail"
    ∷ codes "UpdateAccount"
    ∷ codes "UpdateUsername"
    ∷ codes "UpdateCategory"
    ∷ codes "UpdateCategoryOrder"
    ∷ codes "UpdateRoleOrder"
    ∷ codes "UpdateClanDesc"
    ∷ codes "UpdateChannelDesc"
    ∷ codes "UpdateChannelPrivate"
    ∷ codes "UpdateRole"
    ∷ codes "UpdateEvent"
    ∷ codes "SearchMessage"
    ∷ codes "CreateClanEmoji"
    ∷ codes "DeleteByIdClanEmoji"
    ∷ codes "UpdateClanEmojiById"
    ∷ codes "GenerateWebhook"
    ∷ codes "HandleWebhook"
    ∷ codes "UpdateWebhookById"
    ∷ codes "DeleteWebhookById"
    ∷ codes "AddClanSticker"
    ∷ codes "UpdateClanStickerById"
    ∷ codes "DeleteClanStickerById"
    ∷ codes "ChangeChannelCategory"
    ∷ codes "CheckDuplicateName"
    ∷ codes "AddApp"
    ∷ codes "DeleteApp"
    ∷ codes "UpdateApp"
    ∷ codes "AddAppToClan"
    ∷ codes "CreateSystemMessage"
    ∷ codes "UpdateSystemMessage"
    ∷ codes "DeleteSystemMessage"
    ∷ codes "StreamingServerCallback"
    ∷ codes "EditChannelCanvases"
    ∷ codes "GetChannelCanvasDetail"
    ∷ codes "DeleteChannelCanvas"
    ∷ codes "AddChannelFavorite"
    ∷ codes "RemoveChannelFavorite"
    ∷ codes "CreateActiviy"
    ∷ codes "GetPubKeys"
    ∷ codes "PushPubKey"
    ∷ codes "GetChanEncryptionMethod"
    ∷ codes "SetChanEncryptionMethod"
    ∷ codes "GetKeyServer"
    ∷ codes "ListAuditLog"
    ∷ codes "GetOnboardingDetail"
    ∷ codes "CreateOnboarding"
    ∷ codes "UpdateOnboarding"
    ∷ codes "DeleteOnboarding"
    ∷ codes "ListOnboardingStep"
    ∷ codes "UpdateOnboardingStep"
    ∷ codes "GenerateClanWebhook"
    ∷ codes "UpdateClanWebhookById"
    ∷ codes "DeleteClanWebhookById"
    ∷ codes "HandleClanWebhook"
    ∷ codes "UpdateUserStatus"
    ∷ codes "UpdateUserCustomStatus"
    ∷ codes "GetTopicDetail"
    ∷ codes "CreateSdTopic"
    ∷ codes "DeleteSdTopic"
    ∷ codes "CreateExternalMezonMeet"
    ∷ codes "GenerateMeetToken"
    ∷ codes "RemoveParticipantMezonMeet"
    ∷ codes "MuteParticipantMezonMeet"
    ∷ codes "CreateRoomChannelApps"
    ∷ codes "GetMezonOauthClient"
    ∷ codes "DeleteMezonOauthClient"
    ∷ codes "UpdateMezonOauthClient"
    ∷ codes "SearchThread"
    ∷ codes "GenerateHashChannelApps"
    ∷ codes "DeleteUserEvent"
    ∷ codes "AddUserEvent"
    ∷ codes "DeleteQuickMenuAccess"
    ∷ codes "AddQuickMenuAccess"
    ∷ codes "UpdateQuickMenuAccess"
    ∷ codes "TransferOwnership"
    ∷ codes "SendChannelMessage"
    ∷ codes "UpdateChannelMessage"
    ∷ codes "DeleteChannelMessage"
    ∷ codes "ReportMessageAbuse"
    ∷ codes "MessageButtonClick"
    ∷ codes "DropdownBoxSelected"
    ∷ codes "ActiveArchivedThread"
    ∷ codes "UpdateChannelTimeline"
    ∷ codes "AddAgentToChannel"
    ∷ codes "DisconnectAgent"
    ∷ codes "CreateChannelTimeline"
    ∷ codes "DetailChannelTimeline"
    ∷ codes "CreatePoll"
    ∷ codes "VotePoll"
    ∷ codes "ClosePoll"
    ∷ codes "GetPoll"
    ∷ codes "ReactChannelMessage"
    ∷ codes "MultipartUploadAttachmentFileStart"
    ∷ codes "MultipartUploadAttachmentFileFinish"
    ∷ codes "SessionRefresh"
    ∷ codes "SessionLogout"
    ∷ codes "Healthcheck"
    ∷ codes "UnbanClanUsers"
    ∷ codes "ListBannedUsers"
    ∷ codes "GetNotificationCategory"
    ∷ codes "ListRolePermissions"
    ∷ codes "IsFollower"
    ∷ codes "DeletePinMessage"
    ∷ codes "MarkAsRead"
    ∷ codes "UploadBatchAttachmentFile"
    ∷ []

-- The loop that fills the map, at the name number `i`.
unfoldable pub index_names : ℕ → List Bytes → List (Bytes × ℕ) → List (Bytes × ℕ)
index_names i [] m = m
index_names i (name ∷ names) m = index_names (suc i) names (insert name i m)

unfoldable pub api_name_index : List (Bytes × ℕ)
api_name_index = index_names 0 api_names []

unfoldable pub api_index_from_name : Bytes → Option ℕ
api_index_from_name name = lookup name api_name_index
