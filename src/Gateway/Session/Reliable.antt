-- ===== src/Gateway/Session/Reliable.antt =====
-- How often a delivery is sent before the client acknowledges it.
use wim.Prelude.{
  ==_refl, Bool, List, Option, [], ap, arith, false, if_elim, int_eq, leb, length, length-append,
  ltb, nat_eq, none, refl, some, string_eq, suc, zero, ℕ, ℤ, ◌+◌, ◌-◌, ◌<◌, ◌∙◌, ◌∷◌, ◌≡◌, ◌≤◌,
}
use wim.Gateway.Session.{
  GatewaySession, ReliableWrite, close, max_queued_writes, on_timer, resend, send_raw,
}
use wim.Prelude.Map.{Map, erase, insert, lookup, lookup-erase, lookup-insert}
use wim.Wire.{encode_frame}

-- The timer of one reliable write runs out `n` times.
abbrev pub timeouts : ℕ → ℤ → GatewaySession → GatewaySession
timeouts zero ack_seq s = s
timeouts (suc n) ack_seq s = timeouts n ack_seq (on_timer ack_seq s)

-- The timeouts that a reliable write has left, the last of which gives it up.
abbrev pub left : Option ReliableWrite → ℕ
left none = 0
left (some w) = suc (3 - w.attempts)

left-none : (o : Option ReliableWrite) → left o ≡ 0 → o ≡ none
left-none none h = refl
left-none (some w) h = absurd (omega (arith, h))

-- What `SendRaw` does to the accepted frames and to the reliable writes.
abbrev Sent : GatewaySession → GatewaySession × Bool → Type 0
Sent s r =
    (length r.0.accepted ≤ length s.accepted + 1)
    × (r.0.reliable_writes ≡ s.reliable_writes)
    × (r.1 ≡ false → r.0.accepted ≡ s.accepted)

send_raw-Sent : (packet : List ℕ) (id : ℕ) (s : GatewaySession) → Sent s (send_raw packet id s)
unfolding send_raw close
send_raw-Sent packet id s =
    if_elim (Sent s) s.closed (λ _. (omega arith, refl, λ h. refl))
      (λ _.
        if_elim (Sent s) (ltb max_queued_writes (s.queued_writes + 1))
          (λ _. (omega arith, refl, λ h. refl))
          (λ _. (
            omega (arith, length-append s.accepted (encode_frame id packet ∷ [])),
            refl,
            λ h. absurd (cc),
          )))

-- One timeout: a frame is sent only if a further timeout is left, and the timeouts left go down.
abbrev Spends : ℤ → ℕ → GatewaySession → GatewaySession → Type 0
Spends seq m s t =
    (length t.accepted + (left (lookup seq t.reliable_writes) - 1) ≤ length s.accepted + (m - 1))
    × (left (lookup seq t.reliable_writes) ≤ m - 1)

erased : (seq : ℤ) (m : Map ℤ ReliableWrite) → lookup seq (erase seq m) ≡ none
erased seq m = lookup-erase seq seq m ∙ rw (==_refl seq) refl

inserted :
    (seq : ℤ) (w : ReliableWrite) (m : Map ℤ ReliableWrite) → lookup seq (insert seq w m) ≡ some w
inserted seq w m = lookup-insert seq seq w m ∙ rw (==_refl seq) refl

resend-Spends :
    (seq : ℤ) (o : Option ReliableWrite) (s : GatewaySession)
    → lookup seq s.reliable_writes ≡ o
    → Spends seq (left o) s (resend seq o s)
resend-Spends seq none s e = (omega (arith, ap left e), omega (arith, ap left e))
resend-Spends seq (some w) s e =
    if_elim (Spends seq (left (some w)) s) (leb 3 w.attempts)
      (λ late. (
        omega (arith, ap left (erased seq s.reliable_writes)),
        omega (arith, ap left (erased seq s.reliable_writes)),
      ))
      (λ early.
        if_elim (Spends seq (left (some w)) s) (send_raw w.packet w.protocol_id tried).1
          (λ ok.
            (omega (arith, sent.0, still, leb_false early), omega (arith, still, leb_false early)))
          (λ full. (omega (arith, gone, ap length (sent.2 full)), omega (arith, gone))))
  where
    tried : GatewaySession
    tried = record s {
      reliable_writes = insert seq (record w { attempts = w.attempts + 1 }) s.reliable_writes;
    }

    sent : Sent tried (send_raw w.packet w.protocol_id tried)
    sent = send_raw-Sent w.packet w.protocol_id tried

    still :
        left (lookup seq (send_raw w.packet w.protocol_id tried).0.reliable_writes)
        ≡ suc (3 - (w.attempts + 1))
    still =
        ap (λ m. left (lookup seq m)) sent.1
        ∙ ap left (inserted seq (record w { attempts = w.attempts + 1 }) s.reliable_writes)

    gone :
        left (lookup seq (erase seq (send_raw w.packet w.protocol_id tried).0.reliable_writes)) ≡ 0
    gone = ap left (erased seq (send_raw w.packet w.protocol_id tried).0.reliable_writes)

    leb_false : leb 3 w.attempts ≡ false → w.attempts < 3
    leb_false h = ground arith

timeouts-Spends :
    (n : ℕ) (seq : ℤ) (s : GatewaySession)
    → (length (timeouts n seq s).accepted
        ≤ length s.accepted + (left (lookup seq s.reliable_writes) - 1))
      × (left (lookup seq (timeouts n seq s).reliable_writes)
          ≤ left (lookup seq s.reliable_writes) - n)
unfolding on_timer
timeouts-Spends zero seq s = (omega arith, omega arith)
timeouts-Spends (suc n) seq s =
    let one = resend-Spends seq (lookup seq s.reliable_writes) s refl in
    let rest = timeouts-Spends n seq (on_timer seq s) in
    (omega (arith, one.0, one.1, rest.0), omega (arith, one.1, rest.1))

-- Once a delivery is kept for retransmission, its timer sends it at most twice more, however often it
-- runs out, and after three timeouts without an acknowledgement the delivery is given up.
pub retransmissions_end :
    (n : ℕ) (seq : ℤ) (w : ReliableWrite) (s : GatewaySession)
    → lookup seq s.reliable_writes ≡ some w
    → 1 ≤ w.attempts
    → (length (timeouts n seq s).accepted ≤ length s.accepted + 2)
      × (lookup seq (timeouts (3 + n) seq s).reliable_writes ≡ none)
retransmissions_end n seq w s e h = (
  omega (arith, (timeouts-Spends n seq s).0, ap left e),
  left-none (lookup seq (timeouts (3 + n) seq s).reliable_writes)
      (omega (arith, (timeouts-Spends (3 + n) seq s).1, ap left e)),
)
