-- ===== src/Status.antt =====
-- savate/status.py: the figures of the JSON status page, and the page that is a file. Sources are numbers,
-- an address is a text; `json.dumps` and the process id are left out.
pub mod Sorting
pub mod Figures
mod Examples
use savate.Prelude.{
  Bytes, List, Option, [], codes_of, if◌then◌else◌, leb, length, none, some, suc, total_length,
  zero, ℕ, ◌++◌, ◌+◌, ◌/◌, ◌∷◌,
}
use savate.Dict.{Dict, put}
use savate.Http.{HttpResponse}
use savate.Prelude.{bytes_eq, nat_eq}

-- What the page reads of a client.
pub record Client : Type 0 where
  pub address : Bytes
  pub buffer_queue : List Bytes

-- `server.sources`
abbrev pub Sources : Type 0
Sources = Dict Bytes (Dict ℕ (Dict ℕ Client))

-- list.sort()
pub insert : ℕ → List ℕ → List ℕ
insert x [] = x ∷ []
insert x (y ∷ ys) = let rest = insert x ys in if leb x y then x ∷ y ∷ ys else y ∷ rest

pub sort : List ℕ → List ℕ
sort [] = []
sort (x ∷ xs) = insert x (sort xs)

-- The page so far: the addresses by path, source and descriptor, the number of clients and their queues.
pub record Page : Type 0 where
  pub sources_dict : Dict Bytes (Dict ℕ (Dict ℕ Bytes))
  pub total_clients_number : ℕ
  pub queue_sizes : List ℕ

-- The innermost loop. A key of the dictionary that is gone over comes once.
pub add_clients : Bytes → ℕ → Dict ℕ Client → Dict ℕ Bytes → Page → Dict ℕ Bytes × Page
add_clients path source [] shown p = (shown, p)
add_clients path source ((fd, client) ∷ clients) shown p =
    add_clients path source clients (put fd client.address shown) (record p {
      total_clients_number = p.total_clients_number + 1;
      queue_sizes = p.queue_sizes ++ total_length client.buffer_queue ∷ [];
    })

pub add_sources :
    Bytes → Dict ℕ (Dict ℕ Client) → Dict ℕ (Dict ℕ Bytes) → Page → Dict ℕ (Dict ℕ Bytes) × Page
add_sources path [] shown p = (shown, p)
add_sources path ((source, clients) ∷ rest) shown p =
    let (these, p') = add_clients path source clients [] p in
    add_sources path rest (put source these shown) p'

pub add_paths : Sources → Page → Page
add_paths [] p = p
add_paths ((path, d) ∷ rest) p =
    let (these, p') = add_sources path d [] p in
    add_paths rest (record p' { sources_dict = put path these p'.sources_dict })

-- A figure: `none` is the -1 that stands for no queue at all.
abbrev pub Figure : Type 0
Figure = Option ℕ

pub some_figures : List ℕ → List Figure
some_figures [] = []
some_figures (n ∷ ns) = some n ∷ some_figures ns

pub or_minus_one : List ℕ → List Figure
or_minus_one [] = none ∷ []
or_minus_one (n ∷ ns) = some_figures (n ∷ ns)

pub get_elem? : List Figure → ℕ → Option Figure
get_elem? [] i = none
get_elem? (x ∷ xs) zero = some x
get_elem? (x ∷ xs) (suc i) = get_elem? xs i

-- xs[-1]
pub last_elem? : List Figure → Option Figure
last_elem? [] = none
last_elem? (x ∷ []) = some x
last_elem? (x ∷ y ∷ ys) = last_elem? (y ∷ ys)

pub record JsonStatus : Type 0 where
  pub total_clients_number : ℕ
  pub max_buffer_queue_size : Figure
  pub min_buffer_queue_size : Figure
  pub median_buffer_queue_size : Figure
  -- a sum and the number it is divided by; without clients it is -1 too
  pub average_buffer_queue_size : Option (ℕ × ℕ)
  pub sources : Dict Bytes (Dict ℕ (Dict ℕ Bytes))

pub sum : List ℕ → ℕ
sum [] = 0
sum (x ∷ xs) = x + sum xs

pub average : List ℕ → Option (ℕ × ℕ)
average [] = none
average (n ∷ ns) = some (sum (n ∷ ns), length (n ∷ ns))

-- What follows the loops; `none` is an IndexError.
pub summary : Page → Option JsonStatus
summary p =
    let sorted = or_minus_one (sort p.queue_sizes) in
    elim (last_elem? sorted) [
      | none ↦ none
      | some largest ↦ elim (get_elem? sorted 0) [
        | none ↦ none
        | some smallest ↦ elim (get_elem? sorted (p.total_clients_number / 2)) [
          | none ↦ none
          | some median ↦ some (record {
            total_clients_number = p.total_clients_number;
            max_buffer_queue_size = largest;
            min_buffer_queue_size = smallest;
            median_buffer_queue_size = median;
            average_buffer_queue_size = average (sort p.queue_sizes);
            sources = p.sources_dict;
          })
        ]
      ]
    ]

-- JSONStatusClient.get_status, up to the text of the response.
pub get_status : Sources → Option JsonStatus
get_status s =
    summary (add_paths s (record { sources_dict = []; total_clients_number = 0; queue_sizes = [] }))

-- StaticFileStatusClient.get_status, where reading the file gives its text or an IOError.
pub get_static_status : Option Bytes → HttpResponse
get_static_status (some status_body) = record {
  status = 200;
  reason = codes_of "OK";
  headers = (codes_of "Content-Type", some (codes_of "application/octet-stream")) ∷ [];
  body = status_body;
}
get_static_status none = record {
  status = 500;
  reason = codes_of "Internal Server Error";
  headers = (codes_of "Content-Type", some (codes_of "text/plain")) ∷ [];
  body = codes_of "Failed to open static status file" ++ 10 ∷ [];
}
