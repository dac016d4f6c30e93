-- ===== src/Status/Figures.antt =====
-- savate/status.py: the figures of the status page.
use mathlib.Core.Path.{subst}
use savate.Prelude.{
  Bytes, List, Option, [], ap, append-nil, append_assoc, arith, length, length-append, none, refl,
  some, suc, sym, total_length, true, zero, ℕ, ◌++◌, ◌+◌, ◌/◌, ◌<◌, ◌∙◌, ◌∷◌, ◌≡◌, ◌≤◌,
}
use savate.Dict.{Dict, put}
use savate.Status.{
  Client, JsonStatus, Page, Sources, add_clients, add_paths, add_sources, average, get_elem?,
  get_status, last_elem?, or_minus_one, some_figures, sort, sum, summary,
}
use savate.Status.Sorting.{
  AllSizes, IsSorted, count_ge, count_ge-sort, count_le, count_le-sort, length-sort, mem, mem-sort,
  sort-IsSorted, sum-sort,
}
use savate.Prelude.{bytes_eq, nat_eq}

-- The sizes of all clients' queues.
abbrev client_sizes : Dict ℕ Client → List ℕ
client_sizes [] = []
client_sizes ((fd, client) ∷ clients) = total_length client.buffer_queue ∷ client_sizes clients

abbrev source_sizes : Dict ℕ (Dict ℕ Client) → List ℕ
source_sizes [] = []
source_sizes ((source, clients) ∷ d) = client_sizes clients ++ source_sizes d

abbrev pub queue_lengths : Sources → List ℕ
queue_lengths [] = []
queue_lengths ((path, d) ∷ s) = source_sizes d ++ queue_lengths s

-- A page that has taken in some sizes.
abbrev Takes : Page → List ℕ → Page → Type 0
Takes p l p' =
    (p'.queue_sizes ≡ p.queue_sizes ++ l)
    × (p'.total_clients_number ≡ p.total_clients_number + length l)

Takes-trans : (p q r : Page) (a b : List ℕ) → Takes p a q → Takes q b r → Takes p (a ++ b) r
Takes-trans p q r a b (x, m) (y, n) =
    (y ∙ ap (λ l. l ++ b) x ∙ append_assoc p.queue_sizes a b, omega (arith, length-append a b))

add_clients-Takes :
    (path : Bytes) (source : ℕ) (clients : Dict ℕ Client) (shown : Dict ℕ Bytes) (p : Page)
    → Takes p (client_sizes clients) (add_clients path source clients shown p).1
unfolding add_clients
add_clients-Takes path source [] shown p = (sym (append-nil p.queue_sizes), omega arith)
add_clients-Takes path source ((fd, client) ∷ clients) shown p =
    let n = total_length client.buffer_queue in
    let p' : Page = record p {
      total_clients_number = p.total_clients_number + 1;
      queue_sizes = p.queue_sizes ++ n ∷ [];
    } in
    Takes-trans p p' (add_clients path source clients (put fd client.address shown) p').1 (n ∷ [])
      (client_sizes clients) (refl, omega arith)
      (add_clients-Takes path source clients (put fd client.address shown) p')

add_sources-Takes :
    (path : Bytes) (d : Dict ℕ (Dict ℕ Client)) (shown : Dict ℕ (Dict ℕ Bytes)) (p : Page)
    → Takes p (source_sizes d) (add_sources path d shown p).1
unfolding add_sources
add_sources-Takes path [] shown p = (sym (append-nil p.queue_sizes), omega arith)
add_sources-Takes path ((source, clients) ∷ d) shown p =
    let a = add_clients path source clients [] p in
    Takes-trans p a.1 (add_sources path d (put source a.0 shown) a.1).1 (client_sizes clients)
      (source_sizes d) (add_clients-Takes path source clients [] p)
      (add_sources-Takes path d (put source a.0 shown) a.1)

add_paths-Takes : (s : Sources) (p : Page) → Takes p (queue_lengths s) (add_paths s p)
unfolding add_paths
add_paths-Takes [] p = (sym (append-nil p.queue_sizes), omega arith)
add_paths-Takes ((path, d) ∷ s) p =
    let a = add_sources path d [] p in
    let p' : Page = record (a.1) { sources_dict = put path a.0 (a.1).sources_dict } in
    Takes-trans p p' (add_paths s p') (source_sizes d) (queue_lengths s)
      (add_sources-Takes path d [] p) (add_paths-Takes s p')

count_ge_all : (x : ℕ) (l : List ℕ) → AllSizes (λ y. x ≤ y) l → count_ge x l ≡ length l
count_ge_all x [] h = refl
count_ge_all x (y ∷ l) (h, hs) = ground (arith, count_ge_all x l hs)

le_of_mem : (x v : ℕ) (l : List ℕ) → AllSizes (λ y. x ≤ y) l → mem v l ≡ true → x ≤ v
le_of_mem x v [] h m = absurd (ground (arith, m))
le_of_mem x v (y ∷ l) (h, hs) m = ground (arith, le_of_mem x v l hs)

-- A place in a sorted list: enough are at most, and enough at least, what stands there.
get_elem?-sorted :
    (l : List ℕ) (i : ℕ)
    → IsSorted l
    → i < length l
    → (v : ℕ) × (get_elem? (some_figures l) i ≡ some (some v))
      × (mem v l ≡ true)
      × (i < count_le v l)
      × (length l ≤ count_ge v l + i)
unfolding get_elem? some_figures
get_elem?-sorted [] i s h = absurd (omega arith)
get_elem?-sorted (x ∷ l) zero (a, s) h =
    (x, refl, ground arith, ground arith, ground (arith, count_ge_all x l a))
get_elem?-sorted (x ∷ l) (suc i) (a, s) h =
    let (v, e, m, p, q) = get_elem?-sorted l i s (omega arith) in
    let le = le_of_mem x v l a m in
    (v, e, ground (arith, m), ground (arith, le, p), ground (arith, le, q))

last_elem?-sorted :
    (x : ℕ) (l : List ℕ)
    → IsSorted (x ∷ l)
    → (v : ℕ) × (last_elem? (some_figures (x ∷ l)) ≡ some (some v))
      × (mem v (x ∷ l) ≡ true)
      × (count_le v (x ∷ l) ≡ suc (length l))
unfolding last_elem? some_figures
last_elem?-sorted x [] s = (x, refl, ground arith, ground arith)
last_elem?-sorted x (y ∷ l) (a, s) =
    let (v, e, m, c) = last_elem?-sorted y l s in
    let le = le_of_mem x v (y ∷ l) a m in (v, e, ground (arith, m), ground (arith, le, c))

-- What the figures say of the sizes of the queues: without a client each is -1; otherwise the largest and
-- the smallest are sizes that bound all of them, the median is a size with more than half of them at most
-- so large and half of them at least so large, and the average is that of all.
abbrev pub Summarises : List ℕ → JsonStatus → Type 0
Summarises [] j =
    (j.max_buffer_queue_size ≡ none)
    × (j.min_buffer_queue_size ≡ none)
    × (j.median_buffer_queue_size ≡ none)
    × (j.average_buffer_queue_size ≡ none)
Summarises (n ∷ ns) j =
    ((v : ℕ) × (j.max_buffer_queue_size ≡ some v)
      × (mem v (n ∷ ns) ≡ true)
      × (count_le v (n ∷ ns) ≡ length (n ∷ ns)))
    × ((v : ℕ) × (j.min_buffer_queue_size ≡ some v)
        × (mem v (n ∷ ns) ≡ true)
        × (count_ge v (n ∷ ns) ≡ length (n ∷ ns)))
    × ((v : ℕ) × (j.median_buffer_queue_size ≡ some v)
        × (mem v (n ∷ ns) ≡ true)
        × (length (n ∷ ns) / 2 < count_le v (n ∷ ns))
        × (length (n ∷ ns) ≤ count_ge v (n ∷ ns) + length (n ∷ ns) / 2))
    × (j.average_buffer_queue_size ≡ some (sum (n ∷ ns), length (n ∷ ns)))

abbrev page : Dict Bytes (Dict ℕ (Dict ℕ Bytes)) → ℕ → List ℕ → Page
page d t ns = record { sources_dict = d; total_clients_number = t; queue_sizes = ns }

abbrev IsSummary : List ℕ → Option JsonStatus → Type 0
IsSummary ns o =
    (j : JsonStatus) × (o ≡ some j) × (j.total_clients_number ≡ length ns) × Summarises ns j

count_ge-le : (x : ℕ) (l : List ℕ) → count_ge x l ≤ length l
count_ge-le x [] = omega arith
count_ge-le x (y ∷ l) = ground (arith, count_ge-le x l)

sort-nil : sort [] ≡ []
unfolding sort
sort-nil = refl

page-IsSummary :
    (d : Dict Bytes (Dict ℕ (Dict ℕ Bytes))) (t : ℕ) (ns : List ℕ)
    → t ≡ length ns
    → IsSummary ns (summary (page d t ns))
unfolding summary or_minus_one average last_elem? get_elem? some_figures
page-IsSummary d t [] e = (
  record {
    total_clients_number = t;
    max_buffer_queue_size = none;
    min_buffer_queue_size = none;
    median_buffer_queue_size = none;
    average_buffer_queue_size = none;
    sources = d;
  },
  ground (arith, sort-nil, e),
  e,
  (refl, refl, refl, refl),
)
page-IsSummary d t (n ∷ ns) e = go (sort (n ∷ ns)) refl
  where
    of_ge :
        (v : ℕ) {c : ℕ} {s : List ℕ}
        → sort (n ∷ ns) ≡ s
        → count_ge v s ≡ c
        → count_ge v (n ∷ ns) ≡ c
    of_ge v b h = sym (count_ge-sort v (n ∷ ns)) ∙ ap (count_ge v) b ∙ h

    of_le :
        (v : ℕ) {c : ℕ} {s : List ℕ}
        → sort (n ∷ ns) ≡ s
        → count_le v s ≡ c
        → count_le v (n ∷ ns) ≡ c
    of_le v b h = sym (count_le-sort v (n ∷ ns)) ∙ ap (count_le v) b ∙ h

    found :
        (hi lo mid : ℕ) {x : ℕ} {xs : List ℕ}
        → sort (n ∷ ns) ≡ x ∷ xs
        → last_elem? (some_figures (x ∷ xs)) ≡ some (some hi)
        → get_elem? (some_figures (x ∷ xs)) 0 ≡ some (some lo)
        → get_elem? (some_figures (x ∷ xs)) (t / 2) ≡ some (some mid)
        → summary (page d t (n ∷ ns))
          ≡ some (record {
            total_clients_number = t;
            max_buffer_queue_size = some hi;
            min_buffer_queue_size = some lo;
            median_buffer_queue_size = some mid;
            average_buffer_queue_size = some (sum (n ∷ ns), length (n ∷ ns));
            sources = d;
          })
    found hi lo mid {x} {xs} b he le me =
        let total : sum (x ∷ xs) ≡ sum (n ∷ ns) = ap sum (sym b) ∙ sum-sort (n ∷ ns) in
        let k : length (x ∷ xs) ≡ length (n ∷ ns) = ap length (sym b) ∙ length-sort (n ∷ ns) in
        ground (arith, b, he, le, me, total, k)

    go :
        (sorted : List ℕ)
        → sort (n ∷ ns) ≡ sorted
        → IsSummary (n ∷ ns) (summary (page d t (n ∷ ns)))
    go [] b = absurd (ground (arith, b, length-sort (n ∷ ns)))
    go (x ∷ xs) b =
        let s : IsSorted (x ∷ xs) = subst (λ l. IsSorted l) b (sort-IsSorted (n ∷ ns)) in
        let k : length (x ∷ xs) ≡ length (n ∷ ns) = ap length (sym b) ∙ length-sort (n ∷ ns) in
        let (hi, he, hm, hc) = last_elem?-sorted x xs s in
        let (lo, le, lm, lp, lq) = get_elem?-sorted (x ∷ xs) 0 s (omega arith) in
        let (mid, me, mm, mp, mq) = get_elem?-sorted (x ∷ xs) (t / 2) s (omega arith) in
        (
          record {
            total_clients_number = t;
            max_buffer_queue_size = some hi;
            min_buffer_queue_size = some lo;
            median_buffer_queue_size = some mid;
            average_buffer_queue_size = some (sum (n ∷ ns), length (n ∷ ns));
            sources = d;
          },
          found hi lo mid b he le me,
          e,
          (
            (
              hi,
              refl,
              sym (mem-sort hi (n ∷ ns)) ∙ ap (mem hi) b ∙ hm,
              sym (count_le-sort hi (n ∷ ns)) ∙ ap (count_le hi) b ∙ hc ∙ k,
            ),
            (
              lo,
              refl,
              sym (mem-sort lo (n ∷ ns)) ∙ ap (mem lo) b ∙ lm,
              of_ge lo b (ground (arith, lq, count_ge-le lo (x ∷ xs))) ∙ k,
            ),
            (
              mid,
              refl,
              sym (mem-sort mid (n ∷ ns)) ∙ ap (mem mid) b ∙ mm,
              omega (arith, e, k, mp, of_le mid b refl),
              omega (arith, e, k, mq, of_ge mid b refl),
            ),
            refl,
          ),
        )

-- The status page never fails, whatever the sources and their clients: it counts the clients there are and
-- summarises the sizes of their queues.
pub get_status-Summarises :
    (s : Sources)
    → (j : JsonStatus) × (get_status s ≡ some j)
      × (j.total_clients_number ≡ length (queue_lengths s))
      × Summarises (queue_lengths s) j
unfolding get_status
get_status-Summarises s =
    let p0 : Page = record { sources_dict = []; total_clients_number = 0; queue_sizes = [] } in
    let p = add_paths s p0 in
    let (e, n) = add_paths-Takes s p0 in
    subst (λ l. IsSummary l (summary p)) e
      (page-IsSummary p.sources_dict p.total_clients_number p.queue_sizes
        (omega (arith, ap length e)))
