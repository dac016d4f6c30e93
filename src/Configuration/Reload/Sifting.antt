-- ===== src/Configuration/Reload/Sifting.antt =====
-- savate/configuration.py: the relay index, and the loop over the relays.
use savate.Prelude.{
  Bool, Bool-cases, Bytes, List, Option, [], append-nil, append_assoc, arith, false, if◌then◌else◌,
  inl, inr, none, refl, same_bytes, same_bytes_iff, some, sym, true, ℕ, ◌&&◌, ◌++◌, ◌||◌, ◌∙◌, ◌∷◌,
  ◌≡◌,
}
use savate.Dict.{Dict}
use savate.Configuration.{Config, Mount, Relay, Relays, convert_burst_size, get_default, in_index}
use savate.Configuration.Adding.Settled.{AllRelays, AllRelays-append, in_index-append, mem_url}
use savate.Configuration.Adding.Once.{wanted}
use savate.Configuration.Reload.{Params, index_mounts, index_urls, params, sift}

abbrev pub has_params : Bytes → Bytes → Dict (Bytes × Bytes) Params → Bool
has_params u q d = elim (params u q d) [ none ↦ false | some p ↦ true ]

params-index_urls :
    (path : Bytes) (p : Params) (urls : List Bytes) (d : Dict (Bytes × Bytes) Params) (u q : Bytes)
    → has_params u q (index_urls path p urls d)
      ≡ ((same_bytes path q && mem_url u urls) || has_params u q d)
unfolding params index_urls
params-index_urls path p [] d u q = ground arith
params-index_urls path p (url ∷ urls) d u q =
    ground (arith, params-index_urls path p urls (((url, path), p) ∷ d) u q)

-- The relay index has a key exactly where the configuration wants a relay.
index_mounts-wanted :
    (conf : Config) (mounts : List Mount) (d index : Dict (Bytes × Bytes) Params) (u q : Bytes)
    → index_mounts conf mounts d ≡ some index
    → has_params u q index ≡ (wanted mounts u q || has_params u q d)
unfolding index_mounts
index_mounts-wanted conf [] d index u q e = ground (arith, e)
index_mounts-wanted conf (m ∷ mounts) d index u q e =
    go (get_default m.source_urls []) refl
      (convert_burst_size (get_default m.burst_size conf.burst_size)) refl
      (λ d'. index_mounts-wanted conf mounts d' index u q)
  where
    Ih : Type 0
    Ih =
        (d' : Dict (Bytes × Bytes) Params)
        → index_mounts conf mounts d' ≡ some index
        → has_params u q index ≡ (wanted mounts u q || has_params u q d')

    go :
        (urls : List Bytes)
        → get_default m.source_urls [] ≡ urls
        → (b : Option (Option ℕ))
        → convert_burst_size (get_default m.burst_size conf.burst_size) ≡ b
        → Ih
        → has_params u q index ≡ (wanted (m ∷ mounts) u q || has_params u q d)
    go [] p b c ih =
        let q' : index_mounts conf mounts d ≡ some index = ground (arith, p, e) in
        ground (arith, p, ih d q')
    go (url ∷ urls) p none c ih = absurd (ground (arith, p, c, e))
    go (url ∷ urls) p (some burst_size) c ih =
        let k : Params = record {
          burst_size = burst_size;
          keepalive = get_default m.keepalive conf.keepalive;
        } in
        let d' = index_urls m.path k (url ∷ urls) d in
        let q' : index_mounts conf mounts d' ≡ some index = ground (arith, p, c, e) in
        ground (arith, p, ih d' q', params-index_urls m.path k (url ∷ urls) d u q)

-- The relays that are not wanted.
abbrev pub unwanted : List Mount → List Relay → List Relay
unwanted mounts [] = []
unwanted mounts (r ∷ rs) =
    let rest = unwanted mounts rs in if wanted mounts r.url r.path then rest else r ∷ rest

abbrev pub IsWanted : List Mount → Relay → Type 0
IsWanted mounts r = wanted mounts r.url r.path ≡ true

-- What a run of the loop over relays does.
pub record Sifted (mounts : List Mount) (rs : List Relay) (s s' : Relays) : Type 0 where
  pub all : AllRelays (IsWanted mounts) s.relays → AllRelays (IsWanted mounts) s'.relays
  pub still :
      (u p : Bytes) (a : Option ℕ)
      → in_index u p a s.relays ≡ true
      → in_index u p a s'.relays ≡ true
  pub kept :
      (u p : Bytes) (a : Option ℕ)
      → wanted mounts u p ≡ true
      → in_index u p a rs ≡ true
      → in_index u p a s'.relays ≡ true
  pub restarts : s'.relays_to_restart ≡ s.relays_to_restart
  pub closed : s'.closed ≡ s.closed ++ unwanted mounts rs

abbrev pub Fits : List Mount → Dict (Bytes × Bytes) Params → Type 0
Fits mounts index = (u q : Bytes) → has_params u q index ≡ wanted mounts u q

pub index_mounts-Fits :
    (conf : Config) (index : Dict (Bytes × Bytes) Params)
    → index_mounts conf conf.mounts [] ≡ some index
    → Fits conf.mounts index
unfolding params
index_mounts-Fits conf index i u q =
    ground (arith, index_mounts-wanted conf conf.mounts [] index u q i)

in_index-unwanted :
    (mounts : List Mount) (r : Relay) (rs : List Relay) (u p : Bytes) (a : Option ℕ)
    → wanted mounts r.url r.path ≡ false
    → wanted mounts u p ≡ true
    → in_index u p a (r ∷ rs) ≡ true
    → in_index u p a rs ≡ true
unfolding in_index
in_index-unwanted mounts r rs u p a v w h =
    elim (Bool-cases (same_bytes r.url u && same_bytes r.path p)) [
      | inl e ↦
          let q : r.url ≡ u = ground (arith, e, same_bytes_iff r.url u) in
          let t : r.path ≡ p = ground (arith, e, same_bytes_iff r.path p) in
          let same : wanted mounts r.url r.path ≡ wanted mounts u p = rw (q, t) refl in
          absurd (ground (arith, v, w, same))
      | inr e ↦ ground (arith, e, h)
    ]

in_index-cases :
    (r : Relay) (rs : List Relay) (u p : Bytes) (a : Option ℕ)
    → in_index u p a (r ∷ rs) ≡ true
    → in_index u p a rs ≡ false
    → in_index u p a (r ∷ []) ≡ true
unfolding in_index
in_index-cases r rs u p a h e = ground (arith, e, h)

-- A relay with new parameters is found as before.
in_index-same :
    (r : Relay) (p : Params) (u q : Bytes) (a : Option ℕ)
    → in_index u q a ((record r { burst_size = p.burst_size; keepalive = p.keepalive }) ∷ [])
      ≡ in_index u q a (r ∷ [])
unfolding in_index
in_index-same r p u q a = refl

pub sift-Sifted :
    (mounts : List Mount) (index : Dict (Bytes × Bytes) Params) (rs : List Relay) (s : Relays)
    → Fits mounts index
    → Sifted mounts rs s (sift index rs s)
unfolding sift
sift-Sifted mounts index [] s f = record {
  all = λ h. h;
  still = λ u p a h. h;
  kept = λ u p a w h. absurd (unfold in_index in ground (arith, h));
  restarts = refl;
  closed = sym (append-nil s.closed);
}
sift-Sifted mounts index (r ∷ rs) s f =
    go (params r.url r.path index) refl (λ s1. sift-Sifted mounts index rs s1 f)
  where
    Ih : Type 0
    Ih = (s1 : Relays) → Sifted mounts rs s1 (sift index rs s1)

    go :
        (o : Option Params)
        → params r.url r.path index ≡ o
        → Ih
        → Sifted mounts (r ∷ rs) s (sift index (r ∷ rs) s)
    go none e ih =
        let w : wanted mounts r.url r.path ≡ false = ground (arith, e, f r.url r.path) in
        let v = ih (record s { closed = s.closed ++ r ∷ [] }) in
        rw (e, sift)
          (record {
            all = v.all;
            still = v.still;
            kept = λ u p a h k. v.kept u p a h (in_index-unwanted mounts r rs u p a w h k);
            restarts = v.restarts;
            closed =
                v.closed ∙ ground (arith, w, append_assoc s.closed (r ∷ []) (unwanted mounts rs));
          })
    go (some p) e ih =
        let w : wanted mounts r.url r.path ≡ true = ground (arith, e, f r.url r.path) in
        let r' : Relay = record r { burst_size = p.burst_size; keepalive = p.keepalive } in
        let v = ih (record s { relays = s.relays ++ r' ∷ [] }) in
        rw (e, sift)
          (record {
            all = λ h. v.all (AllRelays-append (IsWanted mounts) s.relays r' h w);
            still = λ u q a h.
                v.still u q a (ground (arith, h, in_index-append u q a s.relays (r' ∷ [])));
            kept = λ u q a h k. elim (Bool-cases (in_index u q a rs)) [
              | inl g ↦ v.kept u q a h g
              | inr g ↦ v.still u q a (
                  ground (
                    arith,
                    in_index-append u q a s.relays (r' ∷ []),
                    in_index-cases r rs u q a k g,
                    in_index-same r p u q a,
                  ))
            ];
            restarts = v.restarts;
            closed = v.closed ∙ ground (arith, w);
          })
