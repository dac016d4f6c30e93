-- ===== src/Shoutcast/Client/Headers.antt =====
-- savate/clients.py: find_client, with the headers of a client's response. A StreamClient's are those of
-- its default response. What a client's other fields are is in Handlers.
pub mod PassedOn
mod Examples
use savate.Shoutcast.Client.{icy_meta_interval}
use savate.Prelude.{
  Bool, Bytes, List, Option, [], codes_of, false, if◌then◌else◌, none, same_bytes, some, ℕ, ◌&&◌,
  ◌++◌, ◌∷◌,
}
use savate.Dict.{Dict, lookup, put}
use savate.Auth.{is_ascii}
use savate.Prelude.{bytes_eq}

-- A source as `isinstance` tells them apart; a ShoutcastSource with its `icy_headers`, and whether it has
-- the attribute `metadata`.
pub data Source : Type 0 where
  stream : Source
  shoutcast : Dict Bytes (Option Bytes) → Bool → Source

-- ICY_HEADERS
abbrev pub icy_headers : List Bytes
icy_headers =
    codes_of "name"
    ∷ codes_of "genre"
    ∷ codes_of "url"
    ∷ codes_of "pub"
    ∷ codes_of "br"
    ∷ codes_of "metaint"
    ∷ codes_of "notice1"
    ∷ codes_of "notice2"
    ∷ []

abbrev pub Headers : Type 0
Headers = Dict Bytes (Option Bytes)

-- The headers that each client starts with; `none` is UnicodeEncodeError.
pub default_headers : Bytes → Option Headers
default_headers content_type =
    if is_ascii content_type
    then some
        ((codes_of "Content-Length", none) ∷ (codes_of "Content-Type", some content_type) ∷ [])
    else none

-- A round of the loop over ICY_HEADERS, with what the source has for the header.
pub pass_on : Bytes → Option (Option Bytes) → Headers → Headers
pass_on header (some (some (c ∷ value))) headers =
    put (codes_of "icy-" ++ header) (some (c ∷ value)) headers
pass_on header _ headers = headers

pub pass_all : List Bytes → Headers → Headers → Headers
pass_all [] given headers = headers
pass_all (header ∷ hs) given headers = pass_all hs given (
    if same_bytes header (codes_of "metaint")
    then headers
    else pass_on header (lookup (codes_of "icy_" ++ header) given) headers)

-- `b"%s" % value`, with TypeError for what is not bytes.
pub data Value : Type 0 where
  in_bytes : Bytes → Value
  number : ℕ → Value

pub format : Value → Option Bytes
format (in_bytes b) = some b
format (number n) = none

-- Whether the client's request asks for metadata: Icy-Metadata is b"1".
pub asks : Dict Bytes Bytes → Bool
asks asked = elim (lookup (codes_of "Icy-Metadata") asked) [
  | none ↦ false
  | some v ↦ same_bytes v (49 ∷ [])
]

-- The headers of the response that `find_client`'s client has; `none` is an exception of its `__init__`.
pub find_client : Source → Bytes → Dict Bytes Bytes → Option Headers
find_client stream content_type asked = default_headers content_type
find_client (shoutcast given has_metadata) content_type asked =
    elim (default_headers content_type) [
      | none ↦ none
      | some headers ↦
          if asks asked && has_metadata
          then (elim (format (number icy_meta_interval)) [
            | none ↦ none
            | some interval ↦
                some (
                  put (codes_of "icy-metaint") (some interval) (pass_all icy_headers given headers))
          ])
          else some (pass_all icy_headers given headers)
    ]
