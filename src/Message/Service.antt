-- ===== src/Message/Service.antt =====
-- The class MessageService of server/message/src/service/MessageService.cc. The database is the tables of
-- Store.antt; `to_text` is std::to_string. The diagnostic texts of failures are left out.
pub mod Pull
pub mod Receipt
use wim.Prelude.{
  Bool, List, String, [], eqb, false, if◌then◌else◌, is_empty, is_positive, not, pos, some, ℤ, ◌&&◌,
  ◌||◌, ◌∷◌,
}
use wim.Client.Connection.Reentry.{request}
use wim.Message.Packet.{MessagePacket, has, no_fields, state_accepted}
use wim.Protocol.{error_value, is_retryable_error, json_parser, success}
use wim.Store.{Ending, Tables}
use wim.Store.Accept.{AcceptResult, TextCommand, accept_direct_text, accept_group_text}
use wim.Wire.Packet.{value_or}

pub record AcceptedText : Type 0 where
  pub response : MessagePacket
  pub delivery : MessagePacket
  pub recipients : List ℤ
  pub should_deliver : Bool

abbrev pub not_accepted : MessagePacket → AcceptedText
not_accepted response = record {
  response = response;
  delivery = no_fields;
  recipients = [];
  should_deliver = false;
}

module _ (to_text : ℤ → String) where
  unfoldable pub client_id : MessagePacket → String
  client_id request =
      if has request.client_message_id && not (is_empty (value_or "" request.client_message_id))
      then value_or "" request.client_message_id
      else to_text (value_or (pos 0) request.seq)

  unfoldable pub bad_text : ℤ → ℤ → MessagePacket → Bool
  bad_text sender receiver request =
      not (is_positive sender)
      || not (is_positive receiver)
      || is_empty (value_or "" request.text)
      || is_empty (client_id request)
      || (not (has request.client_message_id) && not (is_positive (value_or (pos 0) request.seq)))

  unfoldable pub text_command : ℤ → ℤ → String → MessagePacket → TextCommand
  text_command sender receiver now request = record {
    sender = sender;
    receiver = receiver;
    client_message_id = client_id request;
    content = value_or "" request.text;
    send_date_time = now;
  }

  -- The fields of an answer that does not depend on the database.
  unfoldable pub first_answer : MessagePacket → MessagePacket
  first_answer request = record no_fields {
    seq = some (value_or (pos 0) request.seq);
    client_message_id = some (client_id request);
  }

  unfoldable pub refused_answer : MessagePacket → MessagePacket
  refused_answer answer = record answer {
    error = some (error_value json_parser);
    retryable = some false;
  }

  unfoldable pub failed_answer : AcceptResult → MessagePacket → MessagePacket
  failed_answer r answer = record answer {
    error = some r.error;
    retryable = some (is_retryable_error r.error);
  }

  unfoldable pub accepted_answer : AcceptResult → MessagePacket → MessagePacket
  accepted_answer r answer = record answer {
    error = some r.error;
    status = some "accepted";
    message_id = some (pos r.message_id);
    conversation_id = some r.conversation_id;
    conversation_seq = some (pos r.conversation_seq);
    session_key = some r.conversation_id;
    message_state = some state_accepted;
    retryable = some false;
  }

  -- What the recipients get: the request with the stored ids.
  unfoldable pub delivery_of : ℤ → String → AcceptResult → MessagePacket → MessagePacket
  delivery_of sender now r request = record request {
    from = some sender;
    seq = some (pos r.message_id);
    message_id = some (pos r.message_id);
    client_message_id = some (client_id request);
    conversation_id = some r.conversation_id;
    conversation_seq = some (pos r.conversation_seq);
    session_key = some r.conversation_id;
    message_state = some state_accepted;
    send_date_time = some now;
  }

  unfoldable pub answer_text :
      ℤ → String → List ℤ → MessagePacket → MessagePacket → AcceptResult → AcceptedText
  answer_text sender now recipients answer request r =
      if not (eqb r.error (error_value success))
      then not_accepted (failed_answer r answer)
      else record {
        response = accepted_answer r answer;
        delivery = delivery_of sender now r request;
        recipients = recipients;
        should_deliver = not r.duplicate;
      }

  unfoldable pub accept_text : Ending → String → MessagePacket → Tables → Tables × AcceptedText
  accept_text ending now request t =
      let from = value_or (pos 0) request.uid in
      let to = value_or (pos 0) request.to in
      let answer = first_answer request in
      let stored = accept_direct_text ending (text_command from to now request) t in
      if bad_text from to request then (t, not_accepted (refused_answer answer)) else (
        stored.0,
        answer_text from now (to ∷ []) answer (record request { uid = some from }) stored.1,
      )

  unfoldable pub group_of : MessagePacket → ℤ
  group_of request =
      if has request.gid then value_or (pos 0) request.gid else value_or (pos 0) request.group_id

  unfoldable pub accept_group : Ending → String → MessagePacket → Tables → Tables × AcceptedText
  accept_group ending now request t =
      let from = value_or (pos 0) request.uid in
      let gid' = group_of request in
      let answer = record (first_answer request) { gid = some gid' } in
      let stored = accept_group_text ending (text_command from gid' now request) t in
      if bad_text from gid' request then (t, not_accepted (refused_answer answer)) else (
        stored.0,
        answer_text from now stored.1.recipients answer (record request { gid = some gid' })
            stored.1,
      )

  unfoldable pub send_text : Ending → String → MessagePacket → Tables → Tables × MessagePacket
  send_text ending now request t =
      let (t', accepted') = accept_text ending now request t in (t', accepted'.response)

-- SendFile and SendGroupText do nothing.
unfoldable pub send_file : MessagePacket → MessagePacket
send_file request = no_fields

unfoldable pub send_group_text : MessagePacket → MessagePacket
send_group_text request = no_fields
