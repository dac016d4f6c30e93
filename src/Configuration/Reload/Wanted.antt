-- ===== src/Configuration/Reload/Wanted.antt =====
-- savate/configuration.py: the relays before and after a reload.
use mathlib.Core.Path.{subst}
use savate.Prelude.{
  Bool, Bytes, List, Option, [], ap, arith, none, refl, some, sym, true, ℕ, ◌++◌, ◌∙◌, ◌∷◌, ◌≡◌,
}
use savate.Dict.{Dict}
use savate.Configuration.{Config, Mount, Relay, Relays, in_index, indexed, waiting}
use savate.Configuration.Adding.{configure_relays}
use savate.Configuration.Adding.Settled.{Added, AllRelays}
use savate.Configuration.Adding.Once.{add_mounts-IsSettling, wanted}
use savate.Configuration.Reload.{
  Params, index_mounts, params, reconfigure, reloaded, sift, sift_restarts,
}
use savate.Configuration.Reload.Sifting.{Fits, IsWanted, index_mounts-Fits, sift-Sifted, unwanted}

-- What a reload leaves: relays that are wanted and no others, among them those that there were; the ones to
-- restart that are wanted; and the relays that were not wanted closed, in their order.
pub record IsReload (mounts : List Mount) (s s' : Relays) : Type 0 where
  pub all : AllRelays (IsWanted mounts) s'.relays
  pub kept :
      (u p : Bytes) (a : Option ℕ)
      → wanted mounts u p ≡ true
      → in_index u p a s.relays ≡ true
      → in_index u p a s'.relays ≡ true
  pub restarts : AllRelays (IsWanted mounts) (waiting s'.relays_to_restart)
  pub closed : s'.closed ≡ s.closed ++ unwanted mounts s.relays

sift_restarts-IsWanted :
    (mounts : List Mount) (index : Dict (Bytes × Bytes) Params) (rs : List (ℕ × Relay))
    → Fits mounts index
    → AllRelays (IsWanted mounts) (waiting (sift_restarts index rs))
unfolding sift_restarts waiting
sift_restarts-IsWanted mounts index [] f = tt
sift_restarts-IsWanted mounts index ((t, r) ∷ rs) f =
    go (params r.url r.path index) refl (sift_restarts-IsWanted mounts index rs f)
  where
    go :
        (o : Option Params)
        → params r.url r.path index ≡ o
        → AllRelays (IsWanted mounts) (waiting (sift_restarts index rs))
        → AllRelays (IsWanted mounts) (waiting (sift_restarts index ((t, r) ∷ rs)))
    go none e ih =
        let same : sift_restarts index rs ≡ sift_restarts index ((t, r) ∷ rs) = ground (arith, e) in
        subst (λ l. AllRelays (IsWanted mounts) (waiting l)) same ih
    go (some p) e ih =
        let w : wanted mounts r.url r.path ≡ true = ground (arith, e, f r.url r.path) in
        let same : (t, r) ∷ sift_restarts index rs ≡ sift_restarts index ((t, r) ∷ rs) =
          ground (arith, e) in
        subst (λ l. AllRelays (IsWanted mounts) (waiting l)) same (w, ih)

module _ (is_udp : Bytes → Bool) (getaddrinfo : Bytes → List ℕ)
    (connects : Bytes → Option ℕ → Bool) where
  -- What sifting and adding make of a state together.
  added-IsReload :
      (conf : Config) (index : Dict (Bytes × Bytes) Params) (s s1 s' : Relays)
      → Fits conf.mounts index
      → s1 ≡ record s { relays = []; relays_to_restart = sift_restarts index s.relays_to_restart }
      → Added (wanted conf.mounts) (sift index s.relays s1) s'
      → IsReload conf.mounts s s'
  added-IsReload conf index s s1 s' f e x =
      let v = sift-Sifted conf.mounts index s.relays s1 f in
      let c : s1.closed ≡ s.closed = ap (λ q. q.closed) e in
      let t : s1.relays_to_restart ≡ sift_restarts index s.relays_to_restart =
        ap (λ q. q.relays_to_restart) e in
      let n : s1.relays ≡ [] = ap (λ q. q.relays) e in
      record {
        all = x.wanted (v.all (subst (λ l. AllRelays (IsWanted conf.mounts) l) (sym n) tt));
        kept = λ u p a w h. x.kept u p a (v.kept u p a w h);
        restarts =
            subst (λ l. AllRelays (IsWanted conf.mounts) (waiting l))
              (sym (x.restarts ∙ v.restarts ∙ t))
              (sift_restarts-IsWanted conf.mounts index s.relays_to_restart f);
        closed = x.closed ∙ v.closed ∙ ap (λ l. l ++ unwanted conf.mounts s.relays) c;
      }

  -- A reload that ends normally leaves relays for source URLs of the configuration's mounts only, running
  -- or waiting for a restart. A relay that was running and is wanted is still there, with its address, and
  -- those that are not wanted are closed, all of them and in their order.
  pub reconfigure-IsReload :
      (conf : Config) (s s' : Relays)
      → reconfigure is_udp getaddrinfo connects conf s ≡ reloaded s'
      → IsReload conf.mounts s s'
  unfolding reconfigure configure_relays
  reconfigure-IsReload conf s s' e = go (index_mounts conf conf.mounts []) refl
    where
      start : Dict (Bytes × Bytes) Params → Relays
      start index = record s {
        relays = [];
        relays_to_restart = sift_restarts index s.relays_to_restart;
      }

      add : Relays → Option Relays
      add t = configure_relays is_udp getaddrinfo connects conf t

      fin :
          (index : Dict (Bytes × Bytes) Params)
          → index_mounts conf conf.mounts [] ≡ some index
          → (o : Option Relays) → add (sift index s.relays (start index)) ≡ o
          → IsReload conf.mounts s s'
      fin index i none q = absurd (ground (arith, i, q, e))
      fin index i (some t) q =
          let same : t ≡ s' = ground (arith, i, q, e) in
          let s2 = sift index s.relays (start index) in
          let v =
            add_mounts-IsSettling is_udp getaddrinfo connects (wanted conf.mounts) conf conf.mounts
              (λ u p h. h) (indexed s2) s2 t q in
          subst (λ y. IsReload conf.mounts s y) same
            (added-IsReload conf index s (start index) t (index_mounts-Fits conf index i) refl
              v.added)

      go :
          (o : Option (Dict (Bytes × Bytes) Params))
          → index_mounts conf conf.mounts [] ≡ o
          → IsReload conf.mounts s s'
      go none i = absurd (ground (arith, i, e))
      go (some index) i = fin index i (add (sift index s.relays (start index))) refl
