-- ===== src/Status/Examples.antt =====
-- Two listeners of one source.
use savate.Prelude.{[], codes_of, refl, some, ℕ, ◌∷◌, ◌≡◌}
use savate.Dict.{put}
use savate.Status.{
  Client, JsonStatus, Sources, add_clients, add_paths, add_sources, average, get_elem?, get_status,
  insert, last_elem?, or_minus_one, some_figures, sort, sum, summary,
}
use savate.Status.Figures.{Summarises, get_status-Summarises}
use savate.Prelude.{bytes_eq, nat_eq}

abbrev listener : ℕ → Client
listener n = record { address = codes_of "::1"; buffer_queue = (n ∷ n ∷ []) ∷ (n ∷ []) ∷ [] }

abbrev idle_listener : Client
idle_listener = record { address = codes_of "::2"; buffer_queue = [] }

abbrev two_listeners : Sources
two_listeners = (b'/' ∷ [], (1, (8, listener 5) ∷ (9, idle_listener) ∷ []) ∷ []) ∷ []

two_listeners-status :
    get_status two_listeners
    ≡ some (record {
      total_clients_number = 2;
      max_buffer_queue_size = some 3;
      min_buffer_queue_size = some 0;
      median_buffer_queue_size = some 3;
      average_buffer_queue_size = some (3, 2);
      sources = (b'/' ∷ [], (1, (8, codes_of "::1") ∷ (9, codes_of "::2") ∷ []) ∷ []) ∷ [];
    })
unfolding get_status summary add_paths add_sources add_clients put sort insert or_minus_one
    some_figures last_elem? get_elem? average sum
two_listeners-status = refl

get_status-Summarises_example :
    (j : JsonStatus) × (get_status two_listeners ≡ some j)
    × (j.total_clients_number ≡ 2)
    × Summarises (3 ∷ 0 ∷ []) j
get_status-Summarises_example = get_status-Summarises two_listeners
