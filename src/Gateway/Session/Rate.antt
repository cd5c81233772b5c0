-- ===== src/Gateway/Session/Rate.antt =====
-- How many commands of one connection the fixed windows let through.
use wim.Prelude.{
  All, Bool-cases, List, [], arith, if◌then◌else◌, inl, inr, leb, length, ℕ, ◌+◌, ◌-◌, ◌<◌, ◌^◌,
  ◌∷◌, ◌≤◌,
}
use wim.Gateway.Session.{GatewaySession}
use wim.Gateway.Session.Packets.{admit}

-- How many of the commands that arrive at these times are admitted.
unfoldable pub admitted_count : List ℕ → GatewaySession → ℕ
unfolding admit
admitted_count [] s = 0
admitted_count (now ∷ later) s =
    let rest = admitted_count later (admit now s).0 in if (admit now s).1 then rest + 1 else rest

abbrev Within : ℕ → List ℕ → Type 0
Within t times = All (λ x. (t ≤ x) × (x < t + 1000)) times

-- While no window can open, what is left of the open one bounds the commands.
same_window :
    (t : ℕ) (times : List ℕ) (s : GatewaySession)
    → Within t times
    → t ≤ s.rate_window_started
    → s.commands_in_rate_window + length times < 2 ^ 32
    → admitted_count times s ≤ 100 - s.commands_in_rate_window
unfolding admitted_count admit
same_window t [] s w h b = omega arith
same_window t (now ∷ later) s w h b = ground (arith, same_window t later (admit now s).0 w.1)

-- At most one window opens in the interval.
two_windows :
    (t : ℕ) (times : List ℕ) (s : GatewaySession)
    → Within t times
    → s.commands_in_rate_window + length times < 2 ^ 32
    → admitted_count times s ≤ 100 - s.commands_in_rate_window + 100
unfolding admitted_count admit
two_windows t [] s w b = omega arith
two_windows t (now ∷ later) s w b = elim (Bool-cases (leb 1000 (now - s.rate_window_started))) [
  | inl opens ↦ ground (arith, same_window t later (admit now s).0 w.1)
  | inr open_still ↦ ground (arith, two_windows t later (admit now s).0 w.1)
]

-- In any interval of one second at most 200 commands are admitted, whatever the state of the limiter,
-- as long as its counter and the commands are fewer than 2^32.
pub admitted_count_le :
    (t : ℕ) (times : List ℕ) (s : GatewaySession)
    → Within t times
    → s.commands_in_rate_window + length times < 2 ^ 32
    → admitted_count times s ≤ 200
admitted_count_le t times s w b = omega (arith, two_windows t times s w b)
