-- ===== src/Relay/Selector/Reading.antt =====
-- savate/relay.py: a relay's request, and an independent reader of it.
use savate.Relay.Selector.{ParsedUrl, build_request, request_line, selector}
use savate.Prelude.{
  Bytes, List, Option, [], arith, codes_of, false, length, none, refl, some, suc, true, ℕ, ◌++◌,
  ◌∷◌, ◌≡◌,
}
use savate.Http.{build_http_headers, default_headers, header_lines, update}
use savate.Http.RoundTrip.{
  IsClean, IsClean-update, cut_line-append, default_headers-IsClean, length-header_lines, present,
  read_fields-header_lines, read_response, read_response-cut_line,
}
use savate.Text.{contains, split_once}
use savate.Text.Laws.{contains-append}
use savate.Dict.{Dict}
use savate.Auth.{is_ascii}
use savate.Prelude.{bytes_eq}

-- The words of a line: up to the first space, up to the second, and the rest.
abbrev pub words : Bytes → Option (Bytes × (Bytes × Bytes))
words l = elim (split_once b' ' l) [
  | none ↦ none
  | some (method, r) ↦ elim (split_once b' ' r) [
    | none ↦ none
    | some (path, v) ↦ some (method, (path, v))
  ]
]

split_once-word :
    (w s : Bytes) → contains b' ' w ≡ false → split_once b' ' (w ++ b' ' ∷ s) ≡ some (w, s)
unfolding split_once contains
split_once-word [] s h = refl
split_once-word (c ∷ w) s h = ground (arith, h, split_once-word w s (ground (arith, h)))

request_line-words :
    (u : ParsedUrl)
    → contains b' ' (selector u) ≡ false
    → words (request_line u) ≡ some (codes_of "GET", (selector u, codes_of "HTTP/1.0"))
unfolding request_line
request_line-words u h =
    let first : split_once b' ' (request_line u)
        ≡ some (codes_of "GET", selector u ++ codes_of " HTTP/1.0") =
      split_once-word (codes_of "GET") (selector u ++ codes_of " HTTP/1.0")
        (unfold contains in refl) in
    let second : split_once b' ' (selector u ++ codes_of " HTTP/1.0")
        ≡ some (selector u, codes_of "HTTP/1.0") =
      split_once-word (selector u) (codes_of "HTTP/1.0") h in
    ground (arith, first, second)

contains-request_line :
    (u : ParsedUrl) → contains 13 (selector u) ≡ false → contains 13 (request_line u) ≡ false
unfolding request_line contains
contains-request_line u h =
    ground (arith, h, contains-append 13 (selector u) (codes_of " HTTP/1.0"))

module _ (decimal : ℕ → Bytes) where
  -- The headers of a relay's request.
  abbrev pub asked : Bytes → List (Bytes × Bytes)
  asked host =
      (codes_of "Connection", codes_of "close")
      ∷ (codes_of "Content-Length", decimal 0)
      ∷ (codes_of "Host", host)
      ∷ (codes_of "icy-metadata", b'1' ∷ [])
      ∷ []

  -- Where the selector and the host are ASCII without CR, and the selector has no space, the number 0 being
  -- written without CR: there is a request, and a server that reads its lines finds GET, the selector and
  -- HTTP/1.0 in the first, the four headers with the host, and no body.
  pub read_response-build_request :
      (u : ParsedUrl) (host : Bytes)
      → is_ascii (selector u) ≡ true
      → is_ascii host ≡ true
      → contains b' ' (selector u) ≡ false
      → contains 13 (selector u) ≡ false
      → contains 13 host ≡ false
      → contains 13 (decimal 0) ≡ false
      → (whole line : Bytes) × (build_request decimal u host ≡ some whole)
        × (read_response whole ≡ some (line, (asked host, [])))
        × (words line ≡ some (codes_of "GET", (selector u, codes_of "HTTP/1.0")))
  unfolding build_request build_http_headers update savate.Dict.put default_headers
  read_response-build_request u host a b space cr host_cr zero_cr =
      let extra : Dict Bytes (Option Bytes) =
        (codes_of "Host", some host) ∷ (codes_of "icy-metadata", some (b'1' ∷ [])) ∷ [] in
      let d = update (default_headers decimal []) extra in
      let rest = header_lines d ++ 13 ∷ 10 ∷ [] in
      let clean : IsClean extra =
        unfold contains in ((refl, refl, host_cr), ((refl, refl, refl), tt)) in
      let q =
        read_fields-header_lines d (suc (length rest)) []
          (IsClean-update (default_headers decimal []) extra
            (default_headers-IsClean decimal [] zero_cr) clean)
          (ground (arith, length-header_lines d (13 ∷ 10 ∷ []))) in
      let l = cut_line-append (request_line u) rest (contains-request_line u cr) in
      (
        request_line u ++ 13 ∷ 10 ∷ rest,
        request_line u,
        rw (build_request, a, b, build_http_headers) refl,
        read_response-cut_line (request_line u ++ 13 ∷ 10 ∷ rest) (request_line u) rest
            (present d, []) l q,
        request_line-words u space,
      )
