-- ===== src/Server/Census/Removing.antt =====
-- remove_source, on a path with other sources and on one without.
use mathlib.Core.Path.{subst}
use savate.Prelude.{
  Bool, Bool-cases, Bytes, List, Option, [], arith, false, if◌then◌else◌, inl, inr, is_empty,
  length, ltb, none, refl, some, true, ℕ, ◌+◌, ◌∙◌, ◌∷◌, ◌≡◌, ◌≤◌,
}
use savate.Dict.{Dict, put, remove}
use savate.Dict.Sums.{HasOnce, sum_entries, sum_entries-remove}
use savate.Server.Routing.{Server, add_client, keys}
use savate.Server.Registry.{Removed, migrate, removed}
use savate.Server.Census.{IsTable, having, weigh, weigh_clients}
use savate.Server.Census.Tables.{fresh-absent}
use savate.Server.Census.Joining.{add_client-Joins}
use savate.Server.Census.Departing.{TakesIn}
use savate.Prelude.{bytes_eq, nat_eq}

keys-weight : {V : Type 0} (d : Dict ℕ V) → is_empty (keys d) ≡ true → sum_entries (λ k v. 1) d ≡ 0
unfolding keys sum_entries
keys-weight [] h = refl
keys-weight (a ∷ d) h = absurd (ground (arith, h))

length-weight : {V : Type 0} (d : Dict ℕ V) → sum_entries (λ k v. 1) d ≡ length d
unfolding sum_entries
length-weight [] = refl
length-weight (a ∷ d) = omega (arith, length-weight d)

-- One of several sources is not the last.
pub keys-remove :
    {V : Type 0} (k : ℕ) (d : Dict ℕ V)
    → HasOnce d
    → ltb 1 (length d) ≡ true
    → is_empty (keys (remove k d)) ≡ false
keys-remove k d h l = elim (Bool-cases (is_empty (keys (remove k d)))) [
  | inl e ↦ absurd (
      ground (
        arith,
        l,
        keys-weight (remove k d) e,
        length-weight d,
        sum_entries-remove (λ j v. 1) k d h,
      ))
  | inr e ↦ e
]

module _ (activates : ℕ → Bool) (path : Bytes) (remaining : List ℕ) where
  abbrev go_on : List ℕ → Dict ℕ ℕ → Server → Removed
  go_on turn cs s = migrate activates path remaining turn cs s

  pub migrate-TakesIn :
      (turn : List ℕ) (cs : Dict ℕ ℕ) (s s' : Server)
      → is_empty remaining ≡ false
      → go_on turn cs s ≡ removed s'
      → IsTable s
      → ((f : ℕ) → weigh (having f) s + weigh_clients (having f) cs ≤ 1)
      → TakesIn cs s s'
  unfolding migrate sum_entries
  migrate-TakesIn turn [] s s' r h t once =
      let same : s ≡ s' = ground (arith, h) in
      subst (λ x. TakesIn [] s x) same
        (record { weights = λ w. omega arith; table = t; count = refl })
  migrate-TakesIn turn ((fd, client) ∷ cs) s s' r h t once =
      go (if is_empty turn then remaining else turn) refl (λ tn s1. migrate-TakesIn tn cs s1 s' r)
    where
      Goal : Type 0
      Goal = TakesIn ((fd, client) ∷ cs) s s'

      Ih : Type 0
      Ih =
          (turn : List ℕ) (s1 : Server)
          → go_on turn cs s1 ≡ removed s'
          → IsTable s1
          → ((f : ℕ) → weigh (having f) s1 + weigh_clients (having f) cs ≤ 1)
          → TakesIn cs s1 s'

      at : ℕ → Server
      at new_source = record s { client_source = put client new_source s.client_source }

      added :
          (new_source : ℕ) (rest : List ℕ)
          → (if is_empty turn then remaining else turn) ≡ new_source ∷ rest
          → (o : Option Server) → add_client path new_source fd client (at new_source) ≡ o
          → (b : Bool) → activates new_source ≡ b
          → Ih
          → Goal
      added n rest e none a b m ih = absurd (ground (arith, e, a, h))
      added n rest e (some s1) a false m ih = absurd (ground (arith, e, a, m, h))
      added n rest e (some s1) a true m ih =
          let tn : IsTable (at n) = record {
            paths = t.paths;
            tables = t.tables;
            clients = t.clients;
            kept = t.kept;
          } in
          let j =
            add_client-Joins path n fd client (at n) s1 a tn
              (λ d x p q. fresh-absent fd path n x d (at n) p q (ground (arith, once fd))) in
          let x =
            ih rest s1 (ground (arith, e, a, m, h)) j.table
              (λ f. ground (arith, once f, j.weights (having f))) in
          record {
            weights = λ w. ground (arith, x.weights w, j.weights w);
            table = x.table;
            count = x.count ∙ (j.others).1;
          }

      go : (l : List ℕ) → (if is_empty turn then remaining else turn) ≡ l → Ih → Goal
      go [] e ih = absurd (ground (arith, e, r))
      go (n ∷ rest) e ih =
          added n rest e (add_client path n fd client (at n)) refl (activates n) refl ih
