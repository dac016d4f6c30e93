-- ===== src/Http/RoundTrip.antt =====
-- savate/helpers.py: a response, and an independent reader of its lines.
use savate.Http.{
  HttpResponse, as_bytes, build_http_headers, default_headers, header_lines, status_line, update,
}
use savate.Prelude.{
  Bool, Bytes, List, Option, [], ap, append_assoc, arith, false, if◌then◌else◌, is_empty, length,
  length-append, none, refl, same_bytes, same_bytes_iff, some, suc, true, zero, ℕ, ◌++◌, ◌<◌, ◌==◌,
  ◌∙◌, ◌∷◌, ◌≡◌, ◌≤◌,
}
use savate.Dict.{Dict, put}
use savate.Text.{contains}
use savate.Prelude.{bytes_eq, nat_eq}
use savate.Text.Laws.{contains-append}
use mathlib.Core.Path.{subst}

-- A line of RFC 9112, up to CR LF, and what follows it; a bare CR is an error.
after_cr : Bytes → Option (Bytes × Bytes)
after_cr [] = none
after_cr (c ∷ s) = if c == 10 then some ([], s) else none

-- A field line, cut at its first colon and the space behind it.
after_colon : Bytes → Option (Bytes × Bytes)
after_colon [] = none
after_colon (c ∷ s) = if c == b' ' then some ([], s) else none

cons_first : ℕ → Option (Bytes × Bytes) → Option (Bytes × Bytes)
cons_first c none = none
cons_first c (some (l, s)) = some (c ∷ l, s)

-- The text up to a character, and what `after` makes of the rest.
cut_at : ℕ → (Bytes → Option (Bytes × Bytes)) → Bytes → Option (Bytes × Bytes)
cut_at x after [] = none
cut_at x after (c ∷ s) =
    let rest = cut_at x after s in if c == x then after s else cons_first c rest

pub cut_line : Bytes → Option (Bytes × Bytes)
cut_line s = cut_at 13 after_cr s

pub cut_field : Bytes → Option (Bytes × Bytes)
cut_field s = cut_at b':' after_colon s

-- The fields up to the empty line, and the body.
pub read_fields : ℕ → Bytes → Option (List (Bytes × Bytes) × Bytes)
read_fields zero s = none
read_fields (suc fuel) s = elim (cut_line s) [
  | none ↦ none
  | some (l, r) ↦
      let rest = read_fields fuel r in
      if is_empty l then some ([], r) else (elim (cut_field l) [
        | none ↦ none
        | some f ↦ elim rest [ none ↦ none | some (fs, body) ↦ some (f ∷ fs, body) ]
      ])
]

pub read_response : Bytes → Option (Bytes × (List (Bytes × Bytes) × Bytes))
read_response s = elim (cut_line s) [
  | none ↦ none
  | some (l, r) ↦ elim (read_fields (suc (length r)) r) [ none ↦ none | some q ↦ some (l, q) ]
]

cut_at-append :
    (x : ℕ) (after : Bytes → Option (Bytes × Bytes)) (l s t : Bytes)
    → contains x l ≡ false
    → after s ≡ some ([], t)
    → cut_at x after (l ++ x ∷ s) ≡ some (l, t)
unfolding cut_at cons_first contains
cut_at-append x after [] s t h e = ground (arith, e)
cut_at-append x after (c ∷ l) s t h e = ground (arith, h, e, cut_at-append x after l s t)

-- The headers that are sent.
abbrev pub present : Dict Bytes (Option Bytes) → List (Bytes × Bytes)
present [] = []
present ((key, none) ∷ d) = present d
present ((key, some value) ∷ d) = (key, value) ∷ present d

-- No CR in keys and values, and no colon in keys.
abbrev pub IsCleanField : Bytes → Option Bytes → Type 0
IsCleanField key none = Unit
IsCleanField key (some value) =
    (contains 13 key ≡ false) × (contains b':' key ≡ false) × (contains 13 value ≡ false)

abbrev pub IsClean : Dict Bytes (Option Bytes) → Type 0
IsClean [] = Unit
IsClean ((key, value) ∷ d) = IsCleanField key value × IsClean d

pub cut_line-append :
    (l s : Bytes) → contains 13 l ≡ false → cut_line (l ++ 13 ∷ 10 ∷ s) ≡ some (l, s)
unfolding cut_line after_cr
cut_line-append l s h = cut_at-append 13 after_cr l (10 ∷ s) s h refl

cut_field-append :
    (k v : Bytes) → contains b':' k ≡ false → cut_field (k ++ b':' ∷ b' ' ∷ v) ≡ some (k, v)
unfolding cut_field after_colon
cut_field-append k v h = cut_at-append b':' after_colon k (b' ' ∷ v) v h refl

field_line : Bytes → Bytes → Bytes
field_line k v = k ++ b':' ∷ b' ' ∷ v

is_empty-field_line : (k v : Bytes) → is_empty (field_line k v) ≡ false
unfolding field_line
is_empty-field_line [] v = refl
is_empty-field_line (c ∷ k) v = refl

contains-field_line :
    (k v : Bytes)
    → contains 13 k ≡ false
    → contains 13 v ≡ false
    → contains 13 (field_line k v) ≡ false
unfolding field_line contains
contains-field_line k v h g = ground (arith, h, g, contains-append 13 k (b':' ∷ b' ' ∷ v))

-- One field and what follows it.
read_fields-field :
    (fuel : ℕ) (k v s : Bytes) (fs : List (Bytes × Bytes)) (body : Bytes)
    → contains 13 k ≡ false
    → contains b':' k ≡ false
    → contains 13 v ≡ false
    → read_fields fuel s ≡ some (fs, body)
    → read_fields (suc fuel) (field_line k v ++ 13 ∷ 10 ∷ s) ≡ some ((k, v) ∷ fs, body)
unfolding read_fields
read_fields-field fuel k v s fs body h c g e =
    let q : cut_field (field_line k v) ≡ some (k, v) =
      unfold field_line in cut_field-append k v c in
    ground (
      arith,
      cut_line-append (field_line k v) s (contains-field_line k v h g),
      is_empty-field_line k v,
      q,
      e,
    )

read_fields-end :
    (fuel : ℕ) (body : Bytes) → read_fields (suc fuel) (13 ∷ 10 ∷ body) ≡ some ([], body)
unfolding read_fields contains
read_fields-end fuel body = ground (arith, cut_line-append [] body refl)

header_lines-field :
    (k v : Bytes) (d : Dict Bytes (Option Bytes)) (s : Bytes)
    → header_lines ((k, some v) ∷ d) ++ s ≡ field_line k v ++ 13 ∷ 10 ∷ (header_lines d ++ s)
unfolding header_lines field_line
header_lines-field k v d s = ground (
  arith,
  append_assoc k (b':' ∷ b' ' ∷ (v ++ 13 ∷ 10 ∷ header_lines d)) s,
  append_assoc k (b':' ∷ b' ' ∷ v) (13 ∷ 10 ∷ (header_lines d ++ s)),
  append_assoc v (13 ∷ 10 ∷ header_lines d) s,
)

pub read_fields-header_lines :
    (d : Dict Bytes (Option Bytes)) (fuel : ℕ) (body : Bytes)
    → IsClean d
    → length (present d) < fuel
    → read_fields fuel (header_lines d ++ 13 ∷ 10 ∷ body) ≡ some (present d, body)
unfolding header_lines
read_fields-header_lines d zero body h f = absurd (omega arith)
read_fields-header_lines [] (suc fuel) body h f = read_fields-end fuel body
read_fields-header_lines ((k, none) ∷ d) (suc fuel) body (u, h) f =
    unfold header_lines in read_fields-header_lines d (suc fuel) body h f
read_fields-header_lines ((k, some v) ∷ d) (suc fuel) body ((a, c, b), h) f =
    ap (λ s. read_fields (suc fuel) s) (header_lines-field k v d (13 ∷ 10 ∷ body))
    ∙ read_fields-field fuel k v (header_lines d ++ 13 ∷ 10 ∷ body) (present d) body a c b
        (read_fields-header_lines d fuel body h (ground arith))

pub length-header_lines :
    (d : Dict Bytes (Option Bytes)) (s : Bytes) → length (present d) ≤ length (header_lines d ++ s)
unfolding header_lines
length-header_lines [] s = omega arith
length-header_lines ((k, none) ∷ d) s = length-header_lines d s
length-header_lines ((k, some v) ∷ d) s = ground (
  arith,
  ap length (header_lines-field k v d s),
  length-append (field_line k v) (13 ∷ 10 ∷ (header_lines d ++ s)),
  length-header_lines d s,
)

-- Keys and values that are put into clean headers.
IsClean-put :
    (k : Bytes) (v : Option Bytes) (d : Dict Bytes (Option Bytes))
    → IsCleanField k v
    → IsClean d
    → IsClean (put k v d)
unfolding put
IsClean-put k v [] h g = (h, tt)
IsClean-put k v ((j, w) ∷ d) h (g, gs) = go (same_bytes j k) refl (IsClean-put k v d h gs)
  where
    go : (b : Bool) → same_bytes j k ≡ b → IsClean (put k v d) → IsClean (put k v ((j, w) ∷ d))
    go true e ih =
        let q : k ≡ j = ground (arith, e, same_bytes_iff j k) in
        rw e (subst (λ x. IsCleanField x v) q h, gs)
    go false e ih = rw e (g, ih)

pub IsClean-update :
    (d e : Dict Bytes (Option Bytes)) → IsClean d → IsClean e → IsClean (update d e)
unfolding update
IsClean-update d [] h g = h
IsClean-update d ((k, v) ∷ e) h (g, gs) = IsClean-update (put k v d) e (IsClean-put k v d g h) gs

pub read_response-cut_line :
    (s l r : Bytes) (q : List (Bytes × Bytes) × Bytes)
    → cut_line s ≡ some (l, r)
    → read_fields (suc (length r)) r ≡ some q
    → read_response s ≡ some (l, q)
unfolding read_response
read_response-cut_line s l r q e f = rw (read_response, e, f) refl

module _ (decimal : ℕ → Bytes) where
  pub default_headers-IsClean :
      (body : Bytes)
      → contains 13 (decimal (length body)) ≡ false
      → IsClean (default_headers decimal body)
  unfolding default_headers contains
  default_headers-IsClean body h = ((refl, refl, refl), ((refl, refl, h), tt))

  status_line_clean :
      (r : HttpResponse)
      → contains 13 (decimal r.status) ≡ false
      → contains 13 r.reason ≡ false
      → contains 13 (status_line decimal r) ≡ false
  unfolding status_line contains
  status_line_clean r h g =
      ground (arith, h, g, contains-append 13 (decimal r.status) (b' ' ∷ r.reason))

  -- Where numbers are written without CR, and no key, value or reason has one, nor a key a colon, a client
  -- that reads a response's bytes finds the status line, the headers that are not None, with the default ones
  -- under them, and the body.
  pub read_response-as_bytes :
      (r : HttpResponse)
      → ((n : ℕ) → contains 13 (decimal n) ≡ false)
      → contains 13 r.reason ≡ false
      → IsClean r.headers
      → read_response (as_bytes decimal r)
        ≡ some (
          status_line decimal r,
          (present (update (default_headers decimal r.body) r.headers), r.body),
        )
  unfolding as_bytes build_http_headers
  read_response-as_bytes r h g c =
      let d = update (default_headers decimal r.body) r.headers in
      let rest = header_lines d ++ 13 ∷ 10 ∷ r.body in
      let l = cut_line-append (status_line decimal r) rest (status_line_clean r (h r.status) g) in
      let q =
        read_fields-header_lines d (suc (length rest)) r.body
          (IsClean-update (default_headers decimal r.body) r.headers
            (default_headers-IsClean r.body (h (length r.body))) c)
          (ground (arith, length-header_lines d (13 ∷ 10 ∷ r.body))) in
      read_response-cut_line (as_bytes decimal r) (status_line decimal r) rest (present d, r.body) l
        q
