-- ===== src/Message/Stream/Delivered.antt =====
-- A text goes to its recipient when it is stored, and only then.
use wim.Prelude.{
  Bool-cases, List, String, [], eqb, false, if_elim, inl, inr, pos, refl, some, true, ℕ, ℤ, ◌++◌,
  ◌∷◌, ◌≡◌, ◌⊎◌,
}
use wim.Client.Connection.Reentry.{request}
use wim.Gateway.Frames.{CommandEnvelope}
use wim.Message.Packet.{MessagePacket, packet_error}
use wim.Message.Service.{
  AcceptedText, accept_text, accepted_answer, answer_text, bad_text, delivery_of, first_answer,
  text_command,
}
use wim.Message.Stream.{Delivery}
use wim.Message.Stream.Worker.{
  TaskResult, Wire, deliveries_of, delivery_to, result_of, run_business, text_result,
}
use wim.Protocol.{error_value, service_value, success, text_send_req}
use wim.Store.{Ending, MessageRow, Tables, committed, lost_reply, no_session, undone}
use wim.Store.Accept.{
  AcceptResult, TextCommand, accept_direct_text, accepted_as, direct_body, finish_accept, new_row,
}
use wim.Store.Accept.Stores.{Adds, AddsNothing, direct_between-AddsOne, is_new}
use wim.Wire.Packet.{value_or}

module _ (wire : Wire) (to_text : ℤ → String)
    (execute : ℕ → ℤ → MessagePacket → Tables → Tables × MessagePacket) where
  -- One delivery, to the receiver of the new row and with its ids.
  abbrev pub SentOnce : Tables → TaskResult → Type 0
  SentOnce t r =
      (row : MessageRow) × (d : Delivery) × (r.tables.messages ≡ t.messages ++ (row ∷ []))
      × (r.deliveries ≡ d ∷ [])
      × (d.recipient_uid ≡ row.receiver_id)
      × (d.message_id ≡ pos row.message_id)
      × (d.conversation_id ≡ row.conversation_id)
      × (d.conversation_seq ≡ pos row.conversation_seq)
      × (r.answer.error ≡ error_value success)

  abbrev pub NotSent : Ending → Tables → TaskResult → Type 0
  NotSent ending t r =
      (r.deliveries ≡ []) × ((r.tables.messages ≡ t.messages) ⊎ (ending ≡ lost_reply))

  -- What run_business does with a text to a user.
  abbrev pub direct_task : Ending → String → CommandEnvelope → MessagePacket → Tables → TaskResult
  direct_task ending now c p t =
      text_result wire to_text c (service_value text_send_req) (accept_text to_text ending now p t)

  quiet :
      (sender : ℤ) (now : String) (recipients : List ℤ) (answer request : MessagePacket)
      (r : AcceptResult)
      → is_new r ≡ false
      → deliveries_of wire to_text
          (service_value text_send_req)
          (answer_text to_text sender now recipients answer request r)
        ≡ []
  unfolding deliveries_of answer_text
  quiet sender now recipients answer request r h =
      elim (Bool-cases (eqb r.error (error_value success))) [
        | inr bad ↦ rw bad refl
        | inl ok ↦ elim (Bool-cases r.duplicate) [
          | inl again ↦ rw (ok, again) refl
          | inr fresh ↦ absurd (cc (rw (ok, fresh) at h))
        ]
      ]

  module _ (now : String) (c : CommandEnvelope) (p : MessagePacket) (t : Tables) where
    abbrev sender : ℤ
    sender = value_or (pos 0) p.uid

    abbrev receiver : ℤ
    receiver = value_or (pos 0) p.to

    abbrev written : TextCommand
    written = text_command to_text sender receiver now p

    -- The task, once the request has been found good.
    abbrev good_task : Tables × AcceptResult → TaskResult
    good_task stored = text_result wire to_text c (service_value text_send_req) (
      stored.0,
      answer_text to_text sender now (receiver ∷ []) (first_answer to_text p)
          (record p { uid = some sender }) stored.1,
    )

    good_task-SentOnce : (r : Tables × AcceptResult) → Adds written t r → SentOnce t (good_task r)
    unfolding text_result deliveries_of answer_text accepted_answer delivery_to result_of
        packet_error text_command error_value
    good_task-SentOnce r (conversation, seq, id, rows, answer) = rw answer (
      new_row conversation seq id written,
      delivery_to wire to_text (service_value text_send_req)
          (accepted_answer to_text (accepted_as false id conversation seq [])
            (first_answer to_text p))
          (delivery_of to_text sender now (accepted_as false id conversation seq [])
            (record p { uid = some sender }))
          receiver,
      rows,
      refl,
      refl,
      refl,
      refl,
      refl,
      refl,
    )

    good_task-NotSent :
        (ending : Ending) (r : Tables × AcceptResult)
        → is_new r.1 ≡ false
        → (r.0.messages ≡ t.messages) ⊎ (ending ≡ lost_reply)
        → NotSent ending t (good_task r)
    unfolding text_result
    good_task-NotSent ending r h rows = (
      quiet sender now (receiver ∷ []) (first_answer to_text p) (record p { uid = some sender }) r.1
          h,
      rows,
    )

    ended_task :
        (ending : Ending)
        → Adds written t (direct_body written t) ⊎ AddsNothing t (direct_body written t)
        → SentOnce t (good_task (accept_direct_text ending written t))
          ⊎ NotSent ending t (good_task (accept_direct_text ending written t))
    unfolding accept_direct_text finish_accept error_value
    ended_task committed (inl adds) = inl (good_task-SentOnce (direct_body written t) adds)
    ended_task committed (inr same) =
        inr (good_task-NotSent committed (direct_body written t) same.1 (inl same.0))
    ended_task lost_reply o = inr (good_task-NotSent lost_reply _ refl (inr refl))
    ended_task no_session o = inr (good_task-NotSent no_session _ refl (inl refl))
    ended_task (undone ids) o = inr (good_task-NotSent (undone ids) _ refl (inl refl))

    direct_case :
        (ending : Ending)
        → SentOnce t (direct_task ending now c p t)
          ⊎ NotSent ending t (direct_task ending now c p t)
    unfolding accept_text direct_body text_result deliveries_of text_command
    direct_case ending =
        if_elim
          (λ (r : Tables × AcceptedText).
            SentOnce t (text_result wire to_text c (service_value text_send_req) r)
            ⊎ NotSent ending t (text_result wire to_text c (service_value text_send_req) r))
          (bad_text to_text sender receiver p) (λ bad. inr (refl, inl refl))
          (λ good. ended_task ending (direct_between-AddsOne (t.friends sender receiver) written t))

    -- A command with a text to a user, whatever the request holds and however its transaction ends: either one message
    -- is stored, the Gateway is answered with success, and one delivery goes out, to the receiver of
    -- that message and with its id, conversation and sequence number; or no delivery goes out, and
    -- the stored messages are as before unless the reply to a committed transaction was lost.
    pub text_delivered_once :
        (ending : Ending)
        → eqb c.service_id (service_value text_send_req) ≡ true
        → SentOnce t (run_business wire to_text execute ending now c p t)
          ⊎ NotSent ending t (run_business wire to_text execute ending now c p t)
    unfolding run_business
    text_delivered_once ending is_text = rw is_text (direct_case ending)
