-- ===== src/Server/Lifecycle/Keeping.antt =====
-- savate/server.py: relays through the turns of the server.
use savate.Server.Lifecycle.{
  Served, Signal, TcpServer, Turn, Turned, died, died_reloading, dies, dies_reloading, ended,
  goes_on, graceful_stop, reload, serving, stop, turn,
}
use savate.Server.Lifecycle.Relaying.{IsTended, SameRelays, Times, WithoutOne}
use savate.Prelude.{Bool, Bytes, List, Option, [], false, ℕ, ◌+◌, ◌∷◌, ◌≡◌, ◌≤◌, ◌⊎◌}
use savate.Configuration.{Relays}

-- No reload is asked for.
abbrev pub AllPlain : List Signal → Type 0
AllPlain [] = Unit
AllPlain (stop ∷ gs) = AllPlain gs
AllPlain (graceful_stop ∷ gs) = AllPlain gs
AllPlain (reload ∷ gs) = ⊥

-- Clocks that do not go back, and no reloads.
abbrev pub IsPlain : ℕ → List Turn → Type 0
IsPlain now [] = Unit
IsPlain now (t ∷ ts) = (now ≤ t.now) × AllPlain t.signals × IsPlain t.now ts

-- Signals leave the relays alone, and without a reload they ask for none.
abbrev Untouched : TcpServer → Turned → Type 0
Untouched s (goes_on s') = (s'.relays ≡ s.relays) × (s'.reloading ≡ s.reloading)
Untouched s (dies s') = s'.relays ≡ s.relays
Untouched s dies_reloading = ⊥

-- The relays are there as before, or one of them is missing.
abbrev pub AtMostOneLost : Relays → Relays → Type 0
AtMostOneLost r r' = SameRelays r r' ⊎ WithoutOne r r'

module _ (is_udp : Bytes → Bool) (getaddrinfo : Bytes → List ℕ)
    (connects : Bytes → Option ℕ → Bool) where
  -- A turn of a server that does not reload.
  abbrev Turns : ℕ → TcpServer → Turned → Type 0
  Turns now s (goes_on s') = IsTended now (now + 1) s.relays s'.relays × (s'.reloading ≡ false)
  Turns now s (dies s') = AtMostOneLost s.relays s'.relays
  Turns now s dies_reloading = ⊥

  abbrev one_turn : Turn → TcpServer → Turned
  one_turn t s = turn is_udp getaddrinfo connects t s

  abbrev pub last_time : ℕ → List Turn → ℕ
  last_time now [] = now
  last_time now (t ∷ ts) = last_time t.now ts

  -- What a server's turns leave of its relays, `now` being the time of the last one.
  abbrev pub KeepsRelays : Relays → ℕ → Served → Type 0
  KeepsRelays r now (serving s') =
      SameRelays r s'.relays × Times now (now + 1) s'.relays.relays_to_restart
  KeepsRelays r now (ended s') = SameRelays r s'.relays
  KeepsRelays r now (died s') = AtMostOneLost r s'.relays
  KeepsRelays r now died_reloading = ⊥
