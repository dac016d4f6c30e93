-- ===== src/Configuration/Adding/Settled.antt =====
-- savate/configuration.py: lemmas on the loops of configure_relays.
use mathlib.Core.Path.{subst}
use savate.Prelude.{
  Bool, Bytes, List, Option, [], arith, false, none, refl, same_bytes, same_bytes_refl, some, true,
  ℕ, ◌++◌, ◌||◌, ◌∙◌, ◌∷◌, ◌≡◌,
}
use savate.Configuration.{Relay, Relays, in_index, same_address}
use savate.Configuration.Adding.{add_missing}

abbrev pub AllRelays : (Relay → Type 0) → List Relay → Type 0
AllRelays P [] = Unit
AllRelays P (r ∷ rs) = P r × AllRelays P rs

pub AllRelays-append :
    (P : Relay → Type 0) (rs : List Relay) (r : Relay)
    → AllRelays P rs
    → P r
    → AllRelays P (rs ++ r ∷ [])
AllRelays-append P [] r h k = (k, tt)
AllRelays-append P (x ∷ rs) r (h, hs) k = (h, AllRelays-append P rs r hs k)

-- Whether a URL is among those of a mount.
abbrev pub mem_url : Bytes → List Bytes → Bool
mem_url u [] = false
mem_url u (x ∷ xs) = same_bytes x u || mem_url u xs

pub in_index-append :
    (u p : Bytes) (a : Option ℕ) (rs ts : List Relay)
    → in_index u p a (rs ++ ts) ≡ in_index u p a rs || in_index u p a ts
unfolding in_index
in_index-append u p a [] ts = refl
in_index-append u p a (r ∷ rs) ts = ground (arith, in_index-append u p a rs ts)

same_address_refl : (a : Option ℕ) → same_address a a ≡ true
unfolding same_address
same_address_refl none = refl
same_address_refl (some n) = ground arith

in_index_self : (r : Relay) → in_index r.url r.path r.addr_info (r ∷ []) ≡ true
unfolding in_index
in_index_self r =
    ground (arith, same_bytes_refl r.url, same_bytes_refl r.path, same_address_refl r.addr_info)

-- Relays for wanted URLs have come to those there were, and nothing else has changed.
pub record Added (wants : Bytes → Bytes → Bool) (s s' : Relays) : Type 0 where
  pub wanted :
      AllRelays (λ r. wants r.url r.path ≡ true) s.relays
      → AllRelays (λ r. wants r.url r.path ≡ true) s'.relays
  pub kept :
      (u p : Bytes) (a : Option ℕ)
      → in_index u p a s.relays ≡ true
      → in_index u p a s'.relays ≡ true
  pub restarts : s'.relays_to_restart ≡ s.relays_to_restart
  pub closed : s'.closed ≡ s.closed

Added-refl : (wants : Bytes → Bytes → Bool) (s : Relays) → Added wants s s
Added-refl wants s = record { wanted = λ h. h; kept = λ u p a h. h; restarts = refl; closed = refl }

Added-trans :
    (wants : Bytes → Bytes → Bool) (s t v : Relays)
    → Added wants s t
    → Added wants t v
    → Added wants s v
Added-trans wants s t v x y = record {
  wanted = λ h. y.wanted (x.wanted h);
  kept = λ u p a h. y.kept u p a (x.kept u p a h);
  restarts = y.restarts ∙ x.restarts;
  closed = y.closed ∙ x.closed;
}

abbrev pub Covers : List Relay → List Relay → Type 0
Covers known rs =
    (u p : Bytes) (a : Option ℕ) → in_index u p a rs ≡ true → in_index u p a known ≡ true

-- A step of configure_relays, from its index: it adds what is wanted, and has nothing left to do where the
-- index knows what there was and what it has added.
pub record Settled (wants : Bytes → Bytes → Bool) (step : List Relay → Relays → Option Relays)
    (index : List Relay) (s s' : Relays) : Type 0 where
  pub added : Added wants s s'
  pub again :
      (known : List Relay) (t : Relays)
      → Covers known index
      → Covers known s'.relays
      → step known t ≡ some t

abbrev pub IsSettling : (Bytes → Bytes → Bool) → (List Relay → Relays → Option Relays) → Type 0
IsSettling wants step =
    (index : List Relay) (s s' : Relays) → step index s ≡ some s' → Settled wants step index s s'

unfoldable pub nothing : List Relay → Relays → Option Relays
nothing index s = some s

pub nothing-IsSettling : (wants : Bytes → Bytes → Bool) → IsSettling wants nothing
unfolding nothing
nothing-IsSettling wants index s s' e =
    let same : s ≡ s' = ground (arith, e) in
    record {
      added = subst (λ t. Added wants s t) same (Added-refl wants s);
      again = λ known t c d. refl;
    }

unfoldable pub in_turn :
    (List Relay → Relays → Option Relays)
    → (List Relay → Relays → Option Relays)
    → List Relay
    → Relays
    → Option Relays
in_turn f g index s = elim (f index s) [ none ↦ none | some s' ↦ g index s' ]

in_turn-some :
    (f g : List Relay → Relays → Option Relays) (known : List Relay) (t : Relays)
    → f known t ≡ some t
    → g known t ≡ some t
    → in_turn f g known t ≡ some t
unfolding in_turn
in_turn-some f g known t p q = rw (p, in_turn) q

pub in_turn-IsSettling :
    (wants : Bytes → Bytes → Bool) (f g : List Relay → Relays → Option Relays)
    → IsSettling wants f
    → IsSettling wants g
    → IsSettling wants (in_turn f g)
unfolding in_turn
in_turn-IsSettling wants f g x y index s s' e = go (f index s) refl
  where
    go : (o : Option Relays) → f index s ≡ o → Settled wants (in_turn f g) index s s'
    go none p = absurd (ground (arith, p, e))
    go (some s1) p =
        let q : g index s1 ≡ some s' = ground (arith, p, e) in
        let u = x index s s1 p in
        let v = y index s1 s' q in
        record {
          added = Added-trans wants s s1 s' u.added v.added;
          again = λ known t c d.
              in_turn-some f g known t
                (u.again known t c (λ a b n h. d a b n (v.added.kept a b n h)))
                (v.again known t c d);
        }

module _ (is_udp : Bytes → Bool) (getaddrinfo : Bytes → List ℕ) (connects : Bytes → Option ℕ → Bool)
    (wants : Bytes → Bytes → Bool) where
  add_missing-found :
      (known : List Relay) (r : Relay) (t : Relays)
      → in_index r.url r.path r.addr_info known ≡ true
      → add_missing is_udp getaddrinfo connects known r t ≡ some t
  unfolding add_missing
  add_missing-found known r t p = rw p refl

  pub add_missing-IsSettling :
      (r : Relay)
      → wants r.url r.path ≡ true
      → IsSettling wants (λ index s. add_missing is_udp getaddrinfo connects index r s)
  unfolding add_missing
  add_missing-IsSettling r w index s s' e =
      go (in_index r.url r.path r.addr_info index) refl (connects r.url r.addr_info) refl
    where
      more : Relays
      more = record s { relays = s.relays ++ r ∷ [] }

      step : List Relay → Relays → Option Relays
      step known t = add_missing is_udp getaddrinfo connects known r t

      go :
          (b : Bool)
          → in_index r.url r.path r.addr_info index ≡ b
          → (c : Bool) → connects r.url r.addr_info ≡ c
          → Settled wants step index s s'
      go true p c q =
          let same : s ≡ s' = ground (arith, p, e) in
          record {
            added = subst (λ t. Added wants s t) same (Added-refl wants s);
            again = λ known t c d. add_missing-found known r t (c r.url r.path r.addr_info p);
          }
      go false p false q = absurd (ground (arith, p, q, e))
      go false p true q =
          let same : more ≡ s' = ground (arith, p, q, e) in
          subst (λ t. Settled wants step index s t) same
            (record {
              added = record {
                wanted = λ h. AllRelays-append (λ x. wants x.url x.path ≡ true) s.relays r h w;
                kept = λ u v a h. ground (arith, h, in_index-append u v a s.relays (r ∷ []));
                restarts = refl;
                closed = refl;
              };
              again = λ known t c d. add_missing-found known r t (
                  d r.url r.path r.addr_info (
                    ground (
                      arith,
                      in_index_self r,
                      in_index-append r.url r.path r.addr_info s.relays (r ∷ []),
                    )));
            })
