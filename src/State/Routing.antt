-- ===== src/State/Routing.antt =====
-- Which nodes the State service hands out.
use mathlib.Core.Path.{subst}
use native.Mathlib.Nat.{add-mul, div-add-mod', mod-lt, mod-eq_of_lt, mul-add-mod_self_right}
use wim.Prelude.{
  All, Bool-cases, List, Option, Option-cases, [], ap, arith, eqb, false, get_elem?, if_elim, inl,
  inr, leb, length, none, refl, some, suc, sym, true, zero, ℕ, ◌%◌, ◌*◌, ◌+◌, ◌-◌, ◌/◌, ◌<◌, ◌^◌,
  ◌∙◌, ◌∷◌, ◌≡◌, ◌≤◌, ◌⊎◌,
}
use wim.Client.MessageList.Forward.{reached}
use wim.Gateway.Link.{start}
use wim.State.{ServiceNodeInfo, StateService, active, pick_connection_gateway, pick_from, prefer}

get_elem?-some {ℓ} :
    {A : Type ℓ} (xs : List A) (i : ℕ) → i < length xs → (a : A) × (get_elem? xs i ≡ some a)
get_elem?-some [] i h = absurd (omega (arith, h))
get_elem?-some (x ∷ xs) zero h = (x, refl)
get_elem?-some (x ∷ xs) (suc i) h = get_elem?-some xs i (omega (arith, h))

-- The place that the loop looks at.
abbrev place : List ServiceNodeInfo → ℕ → ℕ → ℕ
place nodes start offset = (start + offset) % 2 ^ 64 % length nodes

-- Every node that the loop hands out is an active node of the list.
pub record Picked (nodes : List ServiceNodeInfo) (n : ServiceNodeInfo) : Type 0 where
  pub position : ℕ
  pub listed : get_elem? nodes position ≡ some n
  pub is_active : active n ≡ true

abbrev Sound : List ServiceNodeInfo → Option ServiceNodeInfo → Type 0
Sound nodes none = Unit
Sound nodes (some n) = Picked nodes n

prefer-Sound :
    (nodes : List ServiceNodeInfo) (position : ℕ) (o later : Option ServiceNodeInfo)
    → get_elem? nodes position ≡ o
    → Sound nodes later
    → Sound nodes (prefer o later)
prefer-Sound nodes position none later e h = tt
prefer-Sound nodes position (some n) later e h =
    if_elim (Sound nodes) (active n)
      (λ yes. record { position = position; listed = e; is_active = yes }) (λ no. h)

pick_from-Sound :
    (nodes : List ServiceNodeInfo) (begin offset todo : ℕ)
    → Sound nodes (pick_from nodes begin offset todo)
unfolding pick_from
pick_from-Sound nodes begin offset zero = tt
pick_from-Sound nodes begin offset (suc todo) =
    prefer-Sound nodes (place nodes begin offset) (get_elem? nodes (place nodes begin offset))
      (pick_from nodes begin (offset + 1) todo) refl (pick_from-Sound nodes begin (offset + 1) todo)

prefer-none :
    (n : ServiceNodeInfo) (o later : Option ServiceNodeInfo)
    → o ≡ some n
    → prefer o later ≡ none
    → (active n ≡ false) × (later ≡ none)
prefer-none n none later e h = absurd (cc)
prefer-none n (some m) later e h = elim (Bool-cases (active m)) [
  | inl lives ↦ absurd (cc (rw lives at h))
  | inr idle ↦ (ap active (sym (same e)) ∙ idle, rw idle at h)
]
  where
    same : some m ≡ some n → m ≡ n
    same e = cc

-- Where the loop finds nothing, each place that it has looked at has an inactive node.
pick_from-none :
    (nodes : List ServiceNodeInfo) (begin offset todo i : ℕ) (n : ServiceNodeInfo)
    → 0 < length nodes
    → pick_from nodes begin offset todo ≡ none
    → offset ≤ i
    → i < offset + todo
    → get_elem? nodes (place nodes begin i) ≡ some n
    → active n ≡ false
unfolding pick_from
pick_from-none nodes begin offset zero i n some_nodes h lo hi e = absurd (omega (arith, lo, hi))
pick_from-none nodes begin offset (suc todo) i n some_nodes h lo hi e =
    let (m, f) =
      get_elem?-some nodes (place nodes begin offset)
        (mod-lt ((begin + offset) % 2 ^ 64) some_nodes) in
    let two =
      prefer-none m (get_elem? nodes (place nodes begin offset))
        (pick_from nodes begin (offset + 1) todo) f h in
    elim (Bool-cases (eqb offset i)) [
      | inl reached ↦
          (let at : offset ≡ i = ground arith in
            (prefer-none n (get_elem? nodes (place nodes begin offset))
              (pick_from nodes begin (offset + 1) todo)
              (ap (λ k. get_elem? nodes (place nodes begin k)) at ∙ e) h).0)
      | inr later ↦
          pick_from-none nodes begin (offset + 1) todo i n some_nodes two.1 (ground arith)
            (omega (arith, hi)) e
    ]

-- The loop looks at every place.
offset_for : (begin size j : ℕ) → j < size → (i : ℕ) × (i < size) × ((begin + i) % size ≡ j)
offset_for begin size j h = elim (Bool-cases (leb (begin % size) j)) [
  | inl low ↦ (
    j - begin % size,
    omega (arith, h),
    turn (begin / size) (j - begin % size) (ground (arith, div-add-mod' begin size)),
  )
  | inr high ↦ (
    j + size - begin % size,
    ground arith,
    turn (begin / size + 1) (j + size - begin % size) beyond,
  )
]
  where
    turn : (q i : ℕ) → begin + i ≡ q * size + j → (begin + i) % size ≡ j
    turn q i e = ap (λ k. k % size) e ∙ mul-add-mod_self_right q size j ∙ mod-eq_of_lt h

    size_positive : 0 < size
    size_positive = omega (arith, h)

    beyond : begin + (j + size - begin % size) ≡ (begin / size + 1) * size + j
    beyond =
        ground (
          arith,
          div-add-mod' begin size,
          mod-lt begin size_positive,
          add-mul (begin / size) 1 size,
        )

get_elem?-lt {ℓ} :
    {A : Type ℓ} (xs : List A) (i : ℕ) {a : A} → get_elem? xs i ≡ some a → i < length xs
get_elem?-lt [] i e = absurd (cc)
get_elem?-lt (x ∷ xs) zero e = omega arith
get_elem?-lt (x ∷ xs) (suc i) e = omega (arith, get_elem?-lt xs i e)

All-get_elem? {ℓ κ} :
    {A : Type ℓ} (P : A → Type κ) (xs : List A)
    → ((j : ℕ) (a : A) → get_elem? xs j ≡ some a → P a)
    → All P xs
All-get_elem? P [] h = tt
All-get_elem? P (x ∷ xs) h = (h 0 x refl, All-get_elem? P xs (λ j. h (suc j)))

-- Either an active node of the list, or nothing, and then no node of the list is active.
abbrev pub Answers : List ServiceNodeInfo → Option ServiceNodeInfo → Type 0
Answers nodes o =
    ((n : ServiceNodeInfo) × (o ≡ some n) × Picked nodes n)
    ⊎ ((o ≡ none) × All (λ n. active n ≡ false) nodes)

pick_from-Answers :
    (nodes : List ServiceNodeInfo) (begin : ℕ)
    → begin + length nodes < 2 ^ 64
    → 0 < length nodes
    → Answers nodes (pick_from nodes begin 0 (length nodes))
pick_from-Answers nodes begin h some_nodes =
    elim (Option-cases (pick_from nodes begin 0 (length nodes))) [
      | inr (n, e) ↦
          inl (n, e, subst (Sound nodes) e (pick_from-Sound nodes begin 0 (length nodes)))
      | inl e ↦ inr (e, All-get_elem? (λ n. active n ≡ false) nodes (all_idle e))
    ]
  where
    all_idle :
        pick_from nodes begin 0 (length nodes) ≡ none
        → (j : ℕ) (n : ServiceNodeInfo) → get_elem? nodes j ≡ some n
        → active n ≡ false
    all_idle e j n f =
        let (i, lt, there) = offset_for begin (length nodes) j (get_elem?-lt nodes j f) in
        let small : begin + i < 2 ^ 64 = omega (arith, h, lt) in
        pick_from-none nodes begin 0 (length nodes) i n some_nodes e (omega arith)
          (omega (arith, lt))
          (ap (λ k. get_elem? nodes (k % length nodes)) (mod-eq_of_lt small)
            ∙ ap (get_elem? nodes) there
            ∙ f)

-- PickConnectionGateway hands out an active node of the configuration, or answers UNAVAILABLE and then no
-- node is active; the counter is further than the number of nodes away from the end of its range.
pub pick_connection_gateway_lem :
    (s : StateService)
    → s.gateway_route_count + length s.gateway_nodes < 2 ^ 64
    → Answers s.gateway_nodes (pick_connection_gateway s).1
unfolding pick_connection_gateway
pick_connection_gateway_lem s h =
    if_elim (λ (r : StateService × Option ServiceNodeInfo). Answers s.gateway_nodes r.1)
      (eqb (length s.gateway_nodes) 0)
      (λ none_listed. inr (
        refl,
        All-get_elem? (λ n. active n ≡ false) s.gateway_nodes
            (λ j n e. absurd (ground (arith, none_listed, get_elem?-lt s.gateway_nodes j e))),
      ))
      (λ listed. pick_from-Answers s.gateway_nodes s.gateway_route_count h (ground (arith, listed)))
