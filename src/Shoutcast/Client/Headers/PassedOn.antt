-- ===== src/Shoutcast/Client/Headers/PassedOn.antt =====
-- savate/clients.py: a listener's response and its source's headers.
use savate.Shoutcast.Client.Headers.{
  Headers, asks, default_headers, find_client, format, icy_headers, pass_all, pass_on, shoutcast,
  stream,
}
use savate.Shoutcast.Source.{copy_headers, icy_header_names}
use savate.Prelude.{
  Bool, Bool-cases, Bytes, List, [], arith, codes_of, false, if◌then◌else◌, inl, inr, none, refl,
  same_bytes, true, ◌&&◌, ◌++◌, ◌∙◌, ◌∷◌, ◌≡◌,
}
use savate.Dict.{Dict, lookup, put}
use savate.Dict.Laws.{lookup-nil, lookup-put}
use savate.Auth.{is_ascii}
use savate.Prelude.{bytes_eq}

-- The headers that a source has after the responses it was made and connected with.
abbrev pub headers_after : List (Dict Bytes Bytes) → Headers
headers_after [] = []
headers_after (given ∷ earlier) = copy_headers icy_header_names given (headers_after earlier)

abbrev absent : Bytes → List Bytes → Bool
absent k [] = true
absent k (n ∷ names) = if same_bytes n k then false else absent k names

lookup-copy_headers :
    (k : Bytes) (names : List Bytes) (given : Dict Bytes Bytes) (d : Headers)
    → absent k names ≡ true
    → lookup k (copy_headers names given d) ≡ lookup k d
unfolding copy_headers
lookup-copy_headers k [] given d h = refl
lookup-copy_headers k (n ∷ names) given d h = elim (Bool-cases (same_bytes n k)) [
  | inl e ↦ absurd (ground (arith, h, e))
  | inr e ↦
      lookup-copy_headers k names given (put n (lookup n given) d) (ground (arith, h, e))
      ∙ lookup-put n k (lookup n given) d
      ∙ rw e refl
]

-- A header that is none of the source's is not found in what it has.
lookup-headers_after :
    (k : Bytes) (givens : List (Dict Bytes Bytes))
    → absent k icy_header_names ≡ true
    → lookup k (headers_after givens) ≡ none
lookup-headers_after k [] h = lookup-nil k
lookup-headers_after k (given ∷ earlier) h =
    lookup-copy_headers k icy_header_names given (headers_after earlier) h
    ∙ lookup-headers_after k earlier h

-- The names that a client asks its source for.
abbrev all_absent : List Bytes → Bool
all_absent [] = true
all_absent (h ∷ hs) =
    if absent (codes_of "icy_" ++ h) icy_header_names then all_absent hs else false

pass_all-headers_after :
    (hs : List Bytes) (givens : List (Dict Bytes Bytes)) (headers : Headers)
    → all_absent hs ≡ true
    → pass_all hs (headers_after givens) headers ≡ headers
unfolding pass_all pass_on
pass_all-headers_after [] givens headers e = refl
pass_all-headers_after (h ∷ hs) givens headers e =
    elim (Bool-cases (absent (codes_of "icy_" ++ h) icy_header_names)) [
      | inl a ↦
          let here = lookup-headers_after (codes_of "icy_" ++ h) givens a in
          let rest = pass_all-headers_after hs givens headers (ground (arith, a, e)) in
          elim (Bool-cases (same_bytes h (codes_of "metaint"))) [
            | inl m ↦ rw m rest
            | inr m ↦ rw (m, here) rest
          ]
      | inr a ↦ absurd (ground (arith, a, e))
    ]

-- A Shoutcast source that was made and connected with any responses passes none of their Icy headers on:
-- where the content type is ASCII, a listener's response has the headers it would have from any other
-- source, unless the listener asks for metadata and the source has some; then there is no client, but an
-- exception.
pub find_client-headers_after :
    (givens : List (Dict Bytes Bytes)) (has_metadata : Bool) (content_type : Bytes)
    (asked : Dict Bytes Bytes)
    → is_ascii content_type ≡ true
    → find_client (shoutcast (headers_after givens) has_metadata) content_type asked
      ≡ (if asks asked && has_metadata then none else find_client stream content_type asked)
unfolding find_client default_headers format
find_client-headers_after givens has_metadata content_type asked h =
    elim (Bool-cases (asks asked && has_metadata)) [
      | inl a ↦ rw (find_client, default_headers, h, a, format) refl
      | inr a ↦
          rw (find_client, default_headers, h, a, pass_all-headers_after icy_headers givens _ refl)
            refl
    ]
