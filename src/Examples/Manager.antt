-- ===== src/Examples/Manager.antt =====
-- Runs of the links to the Message nodes.
use mathlib.Core.List.Memᴰ
use wim.Prelude.{
  List, String, [], arith, false, if◌then◌else◌, inl, inr, int_eq, is_empty, length, nat_eq, none,
  pos, refl, some, string_eq, true, ℕ, ℤ, ◌++◌, ◌+◌, ◌<◌, ◌==◌, ◌∷◌, ◌≡◌, ◌≤◌,
}
use wim.Examples.Leases.{plain}
use wim.Gateway.Frames.{CommandEnvelope, register_gateway}
use wim.Gateway.Link.{Link, enqueue, max_stream_queue, new_link, on_write_done, start, write_done}
use wim.Gateway.Link.Writes.{here, link_history, next}
use wim.Gateway.Manager.{
  Manager, PendingCommand, accepts, candidates, new_manager, on_link, select_link,
}
use wim.Gateway.Manager.Choice.{IsBetter, IsEligible, select_link-IsBetter}
use wim.Gateway.Manager.Commands.{
  abandon_pending, can_retry_on_another_message_node, forward_admit, retry_each, retry_ids,
  retry_one, retry_pending,
}
use wim.Gateway.Manager.Commands.Admission.{forward_admitted}
use wim.Gateway.Manager.Commands.Conservation.{ran, waiting}
use wim.Gateway.Manager.Commands.Once.{without}
use wim.Gateway.Manager.History.{
  Trace, abandons, admits, all_issued, applies, link_done, link_moves, start_of_trace, then_event,
}
use wim.Gateway.Manager.History.Callbacks.{callbacks_conserved, count}
use wim.Gateway.Manager.History.Resent.{retry_pending_once}
use wim.Gateway.Manager.Topology.{TopologySnapshot, apply_topology, on_link_done}
use wim.Gateway.Manager.Topology.Applied.{
  apply_topology_keeps, apply_topology_names, is_some, named,
}
use wim.Gateway.Select.{highest, pick_highest}
use wim.Prelude.Map.{Map, insert, lookup}
use wim.Protocol.{service_value}

abbrev hash : String → ℕ
hash s = 7

abbrev print : ℤ → String
print z = "1"

abbrev fresh_link : Link
fresh_link = start (new_link "n1" "h" 1 0) "g" "i" 0

link_history_example :
    ((on_write_done fresh_link true).writes ++ (on_write_done fresh_link true).write_queue
      ≡ register_gateway "g" "i" 0 max_stream_queue ∷ [])
    × ((on_write_done fresh_link true).outstanding ≤ 1)
    × (length (on_write_done fresh_link true).write_queue ≤ max_stream_queue)
    × ((on_write_done fresh_link true).released ≤ 1)
unfolding start new_link enqueue
link_history_example = link_history "n1" "h" "g" "i" 1 0 (next here (write_done true (omega arith)))

abbrev healthy_link : Link
healthy_link = record fresh_link { healthy = true }

abbrev one_link : Manager
one_link = record (new_manager "g" "i") {
  links = ("n1", 0) ∷ [];
  store = (0, healthy_link) ∷ [];
  next_address = 1;
  configured_nodes = ("n1", record { id = "n1"; host = "h"; port = 1 }) ∷ [];
}

abbrev text_command : CommandEnvelope
text_command = record {
  request_id = "r1";
  actor_uid = pos 5;
  connection_id = "c1";
  connection_generation = pos 1;
  service_id = 1027;
  conversation_id = pos 3;
  deadline_unix_ms = 3900;
  packet = [];
}

text_command-admitted : (forward_admit hash print 900 text_command (some 4) one_link).1 ≡ some 0
unfolding forward_admit select_link new_manager start new_link enqueue wim.Gateway.Select.highest
    candidates lookup
text_command-admitted = refl

forward_admitted_example :
    (is_empty text_command.request_id ≡ false)
    × (900 < text_command.deadline_unix_ms)
    × (lookup text_command.request_id one_link.pending ≡ none)
    × ((l : Link) × (lookup 0 one_link.store ≡ some l)
        × (l.healthy ≡ true)
        × (lookup "r1" (forward_admit hash print 900 text_command (some 4) one_link).0.pending ≡ (
            if text_command.request_id == "r1"
            then some
                (record { command = text_command; callback = some 4; link_id = l.id; attempts = 0 })
            else lookup "r1" one_link.pending)))
forward_admitted_example =
    forward_admitted hash print one_link 900 text_command (some 4) 0 "r1" text_command-admitted

abbrev waiting_command : Manager
waiting_command = (forward_admit hash print 900 text_command (some 4) one_link).0

first-IsEligible : IsEligible one_link "" "n1" (0, healthy_link)
unfolding lookup new_manager start new_link enqueue
first-IsEligible = (Memᴰ.head refl, λ e. cc ((string_eq.tests_iff "n1" "").1 e), refl, refl)

select_link-IsBetter_example :
    (c : ℕ × Link) × (select_link hash print one_link (pos 3) "" ≡ some c)
    × ((chosen : String) × IsEligible one_link "" chosen c)
    × IsBetter hash print (pos 3) (0, healthy_link) c
select_link-IsBetter_example =
    select_link-IsBetter hash print one_link (pos 3) "" "n1" (0, healthy_link) first-IsEligible

abbrev snapshot : TopologySnapshot
snapshot = record {
  version = 1;
  changed = true;
  nodes =
      record { id = "n1"; host = "h"; port = 1 } ∷ record { id = "n2"; host = "h"; port = 2 } ∷ [];
}

apply_topology_names_example :
    is_some (lookup "n2" (apply_topology snapshot 5 one_link).links) ≡ named "n2" snapshot.nodes
apply_topology_names_example = apply_topology_names snapshot 5 one_link "n2"

apply_topology_keeps_example : lookup "n1" (apply_topology snapshot 5 one_link).links ≡ some 0
unfolding lookup named new_manager
apply_topology_keeps_example =
    apply_topology_keeps snapshot 5 one_link "n1" 0 (record { id = "n1"; host = "h"; port = 1 })
      refl refl refl (inr (refl, refl), (inl refl, tt))

abbrev empty_manager : Manager
empty_manager = new_manager "g" "i"

-- A topology with two nodes is applied, the stream to the first becomes healthy, a command with the
-- callback 4 is taken on, and it is abandoned.
abbrev joined : Manager
joined = on_link (apply_topology snapshot 5 empty_manager) 0 (λ l. record l { healthy = true })

abbrev busy : Manager
busy = (forward_admit hash print 900 text_command (some 4) joined).0

abbrev busy_run : Trace hash print plain empty_manager (abandon_pending plain busy)
busy_run =
    then_event
      (then_event
        (then_event (then_event start_of_trace (applies snapshot 5))
          (link_moves 0 (λ l. record l { healthy = true })))
        (admits 900 text_command (some 4)))
      abandons

callbacks_conserved_example :
    ran 4 (abandon_pending plain busy).calls + waiting 4 (abandon_pending plain busy).pending
    ≡ count 4 (all_issued hash print plain busy_run)
callbacks_conserved_example = callbacks_conserved hash print plain 4 "g" "i" busy_run

-- The first node fails; the command, which may go to another node, goes to the second, which then fails too.
abbrev two_links : Manager
two_links = record (new_manager "g" "i") {
  links = ("n1", 0) ∷ ("n2", 1) ∷ [];
  store = (0, healthy_link) ∷ (1, record healthy_link { id = "n2" }) ∷ [];
  next_address = 2;
  configured_nodes = ("n2", record { id = "n2"; host = "h"; port = 2 }) ∷ [];
}

abbrev sent_first : Manager
sent_first = (forward_admit hash print 900 text_command (some 4) two_links).0

abbrev sent_again : Manager
sent_again = retry_pending hash print "n1" 920 sent_first

abbrev second_failed : Manager
second_failed = (on_link_done hash print "n2" 1 950 3 sent_again).0

abbrev second_failure : Trace hash print plain sent_again second_failed
second_failure = then_event start_of_trace (link_done "n2" 1 950 3)

abbrev sent_command : PendingCommand
sent_command = record { command = text_command; callback = some 4; link_id = "n1"; attempts = 0 }

sent_to_first : lookup "r1" sent_first.pending ≡ some sent_command
unfolding forward_admit select_link new_manager start new_link enqueue highest pick_highest
    candidates lookup wim.Prelude.Map.insert
sent_to_first = refl

sent_to_second :
    lookup "r1" sent_again.pending ≡ some (record sent_command { link_id = "n2"; attempts = 1 })
unfolding forward_admit select_link new_manager start new_link enqueue highest pick_highest
    candidates lookup retry_pending retry_one retry_ids accepts wim.Prelude.Map.insert
    can_retry_on_another_message_node wim.Protocol.service_value
sent_to_second = refl

retry_pending_once_example :
    retry_pending hash print "n2" 960 second_failed
    ≡ retry_each hash print "n2" 960
        (without "r1" (retry_ids "n2" second_failed.pending))
        second_failed
retry_pending_once_example =
    retry_pending_once hash print plain "r1" "n1" "n2" 920 960 sent_command sent_first sent_to_first
      refl second_failure (tt, tt)
