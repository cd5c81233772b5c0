-- ===== src/Message/Stream/Twice.antt =====
-- A stream that registers a second time: HandleRegister takes the new names over before it checks them, and
-- OnDone unregisters the latest name only.
use wim.Prelude.{
  String, ap, arith, false, if_elim, if◌then◌else◌, int_eq, nat_eq, none, not, refl, some,
  string_eq, true, ℕ, ℤ, ◌==◌, ◌∙◌, ◌≡◌,
}
use wim.Message.Stream.{
  OutFrame, Reactor, StreamService, accepts_registration, enqueue_frame, handle_register, on_done,
  register_stream, registered_answer, registration,
}
use wim.Message.Stream.Reading.{on_read, read_by}
use wim.Message.Stream.Table.{on_done-streams}
use wim.Message.Stream.Worker.{Wire}
use wim.Prelude.Map.{lookup, lookup-insert, lookup_inserted}

enqueue_frame-name : (r : Reactor) (f : OutFrame) → (enqueue_frame r f).0.gateway_id ≡ r.gateway_id
unfolding enqueue_frame
enqueue_frame-name r f = ground arith

-- What registering leaves of the reactor: its latest name.
handle_register-reactor :
    (address : ℕ) (r : Reactor) (version : ℕ) (g i : String) (epoch : ℕ) (s : StreamService)
    → (q : Reactor) × (lookup address (handle_register address r version g i epoch s).reactors
        ≡ some q)
      × (q.gateway_id ≡ g)
unfolding handle_register
handle_register-reactor address r version g i epoch s =
    let valid = accepts_registration version g i r s in
    let named : Reactor = record r { gateway_id = g; instance_id = i; stream_epoch = epoch } in
    let known = if valid then record named { registered = true } else named in
    let f = registered_answer valid s.message_node_id epoch (not valid) in
    (
      (enqueue_frame known f).0,
      lookup_inserted address (enqueue_frame known f).0 _,
      enqueue_frame-name known f
          ∙ if_elim (λ (q : Reactor). q.gateway_id ≡ g) valid (λ _. refl) (λ _. refl),
    )

handle_register-streams :
    (address : ℕ) (r : Reactor) (version : ℕ) (g i : String) (epoch : ℕ) (s : StreamService)
    → accepts_registration version g i r s ≡ true
    → lookup g (handle_register address r version g i epoch s).streams
      ≡ some (record { instance_id = i; reactor = address })
unfolding handle_register register_stream
handle_register-streams address r version g i epoch s valid =
    rw valid (lookup_inserted g _ s.streams)

handle_register-others :
    (address : ℕ) (r : Reactor) (version : ℕ) (g i other : String) (epoch : ℕ) (s : StreamService)
    → (g == other) ≡ false
    → lookup other (handle_register address r version g i epoch s).streams ≡ lookup other s.streams
unfolding handle_register register_stream
handle_register-others address r version g i other epoch s differ =
    if_elim (λ (x : StreamService). lookup other x.streams ≡ lookup other s.streams)
      (accepts_registration version g i r s)
      (λ _. lookup-insert g other _ s.streams ∙ (rw differ refl)) (λ _. refl)

module _ (wire : Wire) (to_text : ℤ → String) where
  abbrev pub registers : ℕ → ℕ → ℕ → String → String → ℕ → StreamService → StreamService
  registers now address version g i epoch s =
      (on_read wire to_text now true address (some (registration version g i epoch)) s).0

  registers-handle_register :
      (now address version : ℕ) (g i : String) (epoch : ℕ) (r : Reactor) (s : StreamService)
      → lookup address s.reactors ≡ some r
      → registers now address version g i epoch s ≡ handle_register address r version g i epoch s
  unfolding on_read
  registers-handle_register now address version g i epoch r s e =
      ap
        (λ o. (read_by wire to_text now true address o (some (registration version g i epoch)) s).0)
        e

  -- When a stream that was accepted under one name sends another registration, with a different name,
  -- accepted or not, and then ends: the table still holds the address of its reactor under the first
  -- name, and the reactor is freed.
  pub second_registration_leaks :
      (now later address v w : ℕ) (g i h j : String) (epoch epoch' : ℕ) (r : Reactor)
      (s : StreamService)
      → lookup address s.reactors ≡ some r
      → accepts_registration v g i r s ≡ true
      → (h == g) ≡ false
      → (lookup g
            (on_done address
              (registers later address w h j epoch' (registers now address v g i epoch s))).streams
          ≡ some (record { instance_id = i; reactor = address }))
        × (lookup address
              (on_done address (
                registers later address w h j epoch'
                  (registers now address v g i epoch s))).reactors
            ≡ none)
  second_registration_leaks now later address v w g i h j epoch epoch' r s e valid differ =
      let s1 = handle_register address r v g i epoch s in
      let (q, found, q_name) = handle_register-reactor address r v g i epoch s in
      let s2 = handle_register address q w h j epoch' s1 in
      let (p, found', p_name) = handle_register-reactor address q w h j epoch' s1 in
      let ended = on_done-streams address p g s2 found' in
      let first : lookup g s2.streams ≡ some (record { instance_id = i; reactor = address }) =
        handle_register-others address q w h j g epoch' s1 differ
        ∙ handle_register-streams address r v g i epoch s valid in
      let other : (p.gateway_id == g) ≡ false = ap (λ x. x == g) p_name ∙ differ in
      rw
        (
          registers-handle_register now address v g i epoch r s e,
          registers-handle_register later address w h j epoch' q s1 found,
        )
        (ended.0 ∙ (rw other first), ended.1)
