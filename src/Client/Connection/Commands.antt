-- ===== src/Client/Connection/Commands.antt =====
-- The requests and receipts that the application asks for (ConnectionGatewayClient.cc, PullFriendList to
-- AcknowledgeRead): each is one packet for QueueRequest or SendReceipt.
use wim.Prelude.{
  Bool, List, String, if◌then◌else◌, is_positive, max, min, pos, pos_part, some, ℕ, ℤ,
}
use wim.Client.Connection.{Connection, next_sequence}
use wim.Client.Connection.Requests.{queue_request, send_receipt}
use wim.Client.FrameCodec.{DataStream}
use wim.Client.Packet.{Packet, Serializer, blank_packet}
use wim.Gateway.Manager.{accepts}
use wim.Protocol.{
  ServiceId, client_service_value, file_upload_req, group_create_req, group_notify_join_req,
  group_reply_join_req, group_text_send_req, notify_add_friend_req, pull_friend_apply_list_req,
  pull_friend_list_req, pull_message_list_req, pull_session_message_list_req, reply_add_friend_req,
  text_send_req,
}
use wim.Wire.Packet.{delivered_receipt, read_receipt, transport_receipt}

abbrev at_least_zero : ℤ → ℤ
at_least_zero n = pos (pos_part n)

-- `std::clamp(limit, 1, 200)`
unfoldable pub clamp_limit : ℤ → ℤ
clamp_limit limit = pos (min 200 (max 1 (pos_part limit)))

module _ (qt : DataStream) (pb : Serializer) (request_id : String) where
  abbrev ask : ServiceId → Packet → Connection → Connection
  ask service packet = queue_request qt pb request_id (client_service_value service) packet 5000

  unfoldable pub pull_friend_list : Connection → Connection
  pull_friend_list = ask pull_friend_list_req blank_packet

  unfoldable pub pull_friend_applications : Connection → Connection
  pull_friend_applications = ask pull_friend_apply_list_req blank_packet

  unfoldable pub pull_conversation_messages : ℤ → ℤ → ℤ → Connection → Connection
  pull_conversation_messages conversation after limit =
      ask pull_session_message_list_req (record blank_packet {
        conversation_id = some conversation;
        after_seq = some (at_least_zero after);
        limit = some (clamp_limit limit);
      })

  unfoldable pub pull_all_messages : ℤ → ℤ → Connection → Connection
  pull_all_messages last_message limit = ask pull_message_list_req (record blank_packet {
    last_msg_id = some (at_least_zero last_message);
    limit = some (clamp_limit limit);
  })

  unfoldable pub send_friend_request : ℤ → String → Connection → Connection
  send_friend_request recipient message =
      ask notify_add_friend_req
        (record blank_packet { to = some recipient; request_message = some message })

  unfoldable pub reply_friend_request : ℤ → Bool → String → Connection → Connection
  reply_friend_request recipient accepts message = ask reply_add_friend_req (record blank_packet {
    to = some recipient;
    accept = some accepts;
    reply_message = some message;
  })

  abbrev with_conversation : ℤ → Packet → Packet
  with_conversation conversation p =
      if is_positive conversation
      then record p { conversation_id = some conversation; session_key = some conversation }
      else p

  unfoldable pub send_text : ℤ → List ℕ → String → ℤ → Connection → Connection
  send_text recipient text client_message conversation c =
      let (c', sequence) = next_sequence c in
      ask text_send_req
        (with_conversation conversation (record blank_packet {
          seq = some (pos sequence);
          to = some recipient;
          data_bytes = some text;
          client_message_id = some client_message;
        }))
        c'

  unfoldable pub upload_file : ℤ → String → String → List ℕ → Connection → Connection
  upload_file sequence name kind content =
      queue_request qt pb request_id (client_service_value file_upload_req)
        (record blank_packet {
          seq = some sequence;
          file_name = some name;
          file_type = some kind;
          data_bytes = some content;
        })
        10000

  unfoldable pub create_group : String → Connection → Connection
  create_group name = ask group_create_req (record blank_packet { group_name = some name })

  unfoldable pub request_join_group : ℤ → String → Connection → Connection
  request_join_group group message =
      ask group_notify_join_req
        (record blank_packet { gid = some group; request_message = some message })

  unfoldable pub reply_join_group : ℤ → ℤ → Bool → Connection → Connection
  reply_join_group group requestor accepts = ask group_reply_join_req (record blank_packet {
    gid = some group;
    requestor_uid = some requestor;
    accept = some accepts;
  })

  unfoldable pub send_group_text : ℤ → List ℕ → String → ℤ → Connection → Connection
  send_group_text group text client_message conversation c =
      let (c', sequence) = next_sequence c in
      ask group_text_send_req
        (with_conversation conversation (record blank_packet {
          seq = some (pos sequence);
          gid = some group;
          data_bytes = some text;
          client_message_id = some client_message;
        }))
        c'

module _ (qt : DataStream) (pb : Serializer) where
  unfoldable pub acknowledge_transport : ℤ → Connection → Connection
  acknowledge_transport message = send_receipt qt pb message transport_receipt (pos 0) (pos 0)

  unfoldable pub acknowledge_delivered : ℤ → ℤ → ℤ → Connection → Connection
  acknowledge_delivered message conversation sequence =
      send_receipt qt pb message delivered_receipt conversation sequence

  unfoldable pub acknowledge_read : ℤ → ℤ → ℤ → Connection → Connection
  acknowledge_read message conversation sequence =
      send_receipt qt pb message read_receipt conversation sequence
