-- ===== src/Protocol.antt =====
-- The numbers on the wire: the enumerations of server/public/include/Const.h, where a value counts up
-- from the one before it, and those of
-- client/src/adapters/connection_gateway/ClientProtocol.h, where each value is written out.
pub mod Agreement
use wim.Prelude.{Bool, if◌then◌else◌, int_eq, nat_eq, string_eq, ℕ, ◌%◌, ◌+◌, ◌==◌, ◌^◌, ◌||◌}

pub data ErrorCodes : Type 0 where
  success json_parser rpc_failed verification_expired : ErrorCodes
  verification_code_invalid user_exist passwd_err email_not_match : ErrorCodes
  passwd_up_failed passwd_invalid token_invalid uid_invalid user_not_online : ErrorCodes
  user_not_friend user_online user_offline not_found repeat_message : ErrorCodes
  mysql_failed file_type_error internal_error group_already_exists : ErrorCodes
  group_not_exists group_notify_failed group_reply_failed : ErrorCodes
  authentication_required message_ownership_invalid deadline_exceeded : ErrorCodes
  resource_exhausted dependency_unavailable idempotency_conflict : ErrorCodes

pub data ServiceId : Type 0 where
  pull_friend_list_req pull_friend_list_rsp pull_friend_apply_list_req : ServiceId
  pull_friend_apply_list_rsp pull_session_message_list_req : ServiceId
  pull_session_message_list_rsp pull_message_list_req pull_message_list_rsp : ServiceId
  group_pull_member_req group_pull_member_rsp ping_req ping_rsp : ServiceId
  login_init_req login_init_rsp user_quit_req user_quit_rsp : ServiceId
  init_user_info_req init_user_info_rsp search_user_req search_user_rsp : ServiceId
  notify_add_friend_req notify_add_friend_rsp reply_add_friend_req : ServiceId
  reply_add_friend_rsp remove_friend_req remove_friend_rsp text_send_req : ServiceId
  text_send_rsp file_send_req file_send_rsp file_upload_req file_upload_rsp : ServiceId
  ack null group_create_req group_create_rsp group_notify_join_req : ServiceId
  group_notify_join_rsp group_reply_join_req group_reply_join_rsp : ServiceId
  group_quit_req group_quit_rsp group_text_send_req group_text_send_rsp : ServiceId

-- The value of an enumerator of the server.
unfoldable pub error_value : ErrorCodes → ℕ
error_value success = 0
error_value json_parser = 1000
error_value rpc_failed = 1001
error_value verification_expired = 1002
error_value verification_code_invalid = 1003
error_value user_exist = 1004
error_value passwd_err = 1005
error_value email_not_match = 1006
error_value passwd_up_failed = 1007
error_value passwd_invalid = 1008
error_value token_invalid = 1009
error_value uid_invalid = 1010
error_value user_not_online = 1011
error_value user_not_friend = 1012
error_value user_online = 1013
error_value user_offline = 1014
error_value not_found = 1015
error_value repeat_message = 1016
error_value mysql_failed = 1017
error_value file_type_error = 1018
error_value internal_error = 1019
error_value group_already_exists = 1020
error_value group_not_exists = 1021
error_value group_notify_failed = 1022
error_value group_reply_failed = 1023
error_value authentication_required = 1024
error_value message_ownership_invalid = 1025
error_value deadline_exceeded = 1026
error_value resource_exhausted = 1027
error_value dependency_unavailable = 1028
error_value idempotency_conflict = 1029

unfoldable pub service_value : ServiceId → ℕ
service_value pull_friend_list_req = 1001
service_value pull_friend_list_rsp = 1002
service_value pull_friend_apply_list_req = 1003
service_value pull_friend_apply_list_rsp = 1004
service_value pull_session_message_list_req = 1005
service_value pull_session_message_list_rsp = 1006
service_value pull_message_list_req = 1007
service_value pull_message_list_rsp = 1008
service_value group_pull_member_req = 1009
service_value group_pull_member_rsp = 1010
service_value ping_req = 1011
service_value ping_rsp = 1012
service_value login_init_req = 1013
service_value login_init_rsp = 1014
service_value user_quit_req = 1015
service_value user_quit_rsp = 1016
service_value init_user_info_req = 1017
service_value init_user_info_rsp = 1018
service_value search_user_req = 1019
service_value search_user_rsp = 1020
service_value notify_add_friend_req = 1021
service_value notify_add_friend_rsp = 1022
service_value reply_add_friend_req = 1023
service_value reply_add_friend_rsp = 1024
service_value remove_friend_req = 1025
service_value remove_friend_rsp = 1026
service_value text_send_req = 1027
service_value text_send_rsp = 1028
service_value file_send_req = 1029
service_value file_send_rsp = 1030
service_value file_upload_req = 1031
service_value file_upload_rsp = 1032
service_value ack = 1033
service_value null = 1034
service_value group_create_req = 1035
service_value group_create_rsp = 1036
service_value group_notify_join_req = 1037
service_value group_notify_join_rsp = 1038
service_value group_reply_join_req = 1039
service_value group_reply_join_rsp = 1040
service_value group_quit_req = 1041
service_value group_quit_rsp = 1042
service_value group_text_send_req = 1043
service_value group_text_send_rsp = 1044

-- The value that the client gives it.
unfoldable pub client_error_value : ErrorCodes → ℕ
client_error_value success = 0
client_error_value json_parser = 1000
client_error_value rpc_failed = 1001
client_error_value verification_expired = 1002
client_error_value verification_code_invalid = 1003
client_error_value user_exist = 1004
client_error_value passwd_err = 1005
client_error_value email_not_match = 1006
client_error_value passwd_up_failed = 1007
client_error_value passwd_invalid = 1008
client_error_value token_invalid = 1009
client_error_value uid_invalid = 1010
client_error_value user_not_online = 1011
client_error_value user_not_friend = 1012
client_error_value user_online = 1013
client_error_value user_offline = 1014
client_error_value not_found = 1015
client_error_value repeat_message = 1016
client_error_value mysql_failed = 1017
client_error_value file_type_error = 1018
client_error_value internal_error = 1019
client_error_value group_already_exists = 1020
client_error_value group_not_exists = 1021
client_error_value group_notify_failed = 1022
client_error_value group_reply_failed = 1023
client_error_value authentication_required = 1024
client_error_value message_ownership_invalid = 1025
client_error_value deadline_exceeded = 1026
client_error_value resource_exhausted = 1027
client_error_value dependency_unavailable = 1028
client_error_value idempotency_conflict = 1029

unfoldable pub client_service_value : ServiceId → ℕ
client_service_value pull_friend_list_req = 1001
client_service_value pull_friend_list_rsp = 1002
client_service_value pull_friend_apply_list_req = 1003
client_service_value pull_friend_apply_list_rsp = 1004
client_service_value pull_session_message_list_req = 1005
client_service_value pull_session_message_list_rsp = 1006
client_service_value pull_message_list_req = 1007
client_service_value pull_message_list_rsp = 1008
client_service_value group_pull_member_req = 1009
client_service_value group_pull_member_rsp = 1010
client_service_value ping_req = 1011
client_service_value ping_rsp = 1012
client_service_value login_init_req = 1013
client_service_value login_init_rsp = 1014
client_service_value user_quit_req = 1015
client_service_value user_quit_rsp = 1016
client_service_value init_user_info_req = 1017
client_service_value init_user_info_rsp = 1018
client_service_value search_user_req = 1019
client_service_value search_user_rsp = 1020
client_service_value notify_add_friend_req = 1021
client_service_value notify_add_friend_rsp = 1022
client_service_value reply_add_friend_req = 1023
client_service_value reply_add_friend_rsp = 1024
client_service_value remove_friend_req = 1025
client_service_value remove_friend_rsp = 1026
client_service_value text_send_req = 1027
client_service_value text_send_rsp = 1028
client_service_value file_send_req = 1029
client_service_value file_send_rsp = 1030
client_service_value file_upload_req = 1031
client_service_value file_upload_rsp = 1032
client_service_value ack = 1033
client_service_value null = 1034
client_service_value group_create_req = 1035
client_service_value group_create_rsp = 1036
client_service_value group_notify_join_req = 1037
client_service_value group_notify_join_rsp = 1038
client_service_value group_reply_join_req = 1039
client_service_value group_reply_join_rsp = 1040
client_service_value group_quit_req = 1041
client_service_value group_quit_rsp = 1042
client_service_value group_text_send_req = 1043
client_service_value group_text_send_rsp = 1044

-- `isRetryableError`
unfoldable pub is_retryable_error : ℕ → Bool
unfolding error_value
is_retryable_error code =
    code == error_value ErrorCodes.rpc_failed
    || code == error_value ErrorCodes.mysql_failed
    || code == error_value ErrorCodes.internal_error
    || code == error_value ErrorCodes.deadline_exceeded
    || code == error_value ErrorCodes.resource_exhausted
    || code == error_value ErrorCodes.dependency_unavailable

-- `IsRetryableError` of the client.
unfoldable pub client_is_retryable_error : ℕ → Bool
unfolding client_error_value
client_is_retryable_error code =
    code == client_error_value ErrorCodes.rpc_failed
    || code == client_error_value ErrorCodes.mysql_failed
    || code == client_error_value ErrorCodes.internal_error
    || code == client_error_value ErrorCodes.deadline_exceeded
    || code == client_error_value ErrorCodes.resource_exhausted
    || code == client_error_value ErrorCodes.dependency_unavailable

-- `__getServiceResponseId`
unfoldable pub get_service_response_id : ℕ → ℕ
get_service_response_id id = id + 1

-- `ResponseFor` of the client, at a quint32.
unfoldable pub response_for : ℕ → ℕ
unfolding client_service_value
response_for id =
    if id == client_service_value ServiceId.ack
    then client_service_value ServiceId.null
    else (id + 1) % 2 ^ 32
