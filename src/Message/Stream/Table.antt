-- ===== src/Message/Stream/Table.antt =====
-- The table of the registered streams: a stream that ends leaves a newer one alone, and a stream that has
-- registered under two names leaves its address behind.
use mathlib.Core.Path.{subst}
use wim.Prelude.{
  ==_cases, ==_refl, Bool-cases, String, if_elim, if◌then◌else◌, inl, inr, int_eq, nat_eq, none,
  refl, some, string_eq, sym, ℕ, ◌&&◌, ◌==◌, ◌∙◌, ◌≡◌,
}
use wim.Message.Stream.{Reactor, StreamService, is_stream, on_done, unregister_stream}
use wim.Prelude.Map.{lookup, lookup-erase}

own_name :
    (gateway i : String) (address : ℕ) (s : StreamService)
    → lookup gateway (unregister_stream gateway i address s).streams ≡ (
        if gateway == gateway && is_stream i address (lookup gateway s.streams)
        then none
        else lookup gateway s.streams)
unfolding unregister_stream
own_name gateway i address s = elim (Bool-cases (is_stream i address (lookup gateway s.streams))) [
  | inl own ↦ rw (own, lookup-erase gateway gateway s.streams, ==_refl gateway) refl
  | inr other ↦ rw (other, ==_refl gateway) refl
]

unregister-streams :
    (gateway g i : String) (address : ℕ) (s : StreamService)
    → lookup gateway (unregister_stream g i address s).streams ≡ (
        if g == gateway && is_stream i address (lookup gateway s.streams)
        then none
        else lookup gateway s.streams)
unfolding unregister_stream
unregister-streams gateway g i address s = elim (==_cases g gateway) [
  | inl (hit, same) ↦
      subst
        (λ x. lookup gateway (unregister_stream x i address s).streams ≡ (
          if x == gateway && is_stream i address (lookup gateway s.streams)
          then none
          else lookup gateway s.streams))
        (sym same) (own_name gateway i address s)
  | inr (miss, differ) ↦ rw miss (
      if_elim (λ (x : StreamService). lookup gateway x.streams ≡ lookup gateway s.streams)
        (is_stream i address (lookup g s.streams))
        (λ _. lookup-erase g gateway s.streams ∙ (rw miss refl)) (λ _. refl))
]

-- When the stream at an address ends, the table loses the entry of that stream and no other: under every
-- name the entry stays as it was, unless it is the name that the stream goes by and the entry has its
-- instance and its address, and then it is gone; the reactor itself is freed.
pub on_done-streams :
    (address : ℕ) (r : Reactor) (gateway : String) (s : StreamService)
    → lookup address s.reactors ≡ some r
    → (lookup gateway (on_done address s).streams ≡ (
        if r.gateway_id == gateway && is_stream r.instance_id address (lookup gateway s.streams)
        then none
        else lookup gateway s.streams))
      × (lookup address (on_done address s).reactors ≡ none)
unfolding on_done
on_done-streams address r gateway s e = rw e (
  unregister-streams gateway r.gateway_id r.instance_id address s,
  rw
      (
        lookup-erase address address
            (unregister_stream r.gateway_id r.instance_id address s).reactors,
        ==_refl address,
      )
      refl,
)
