-- ===== src/Relay/Selector.antt =====
-- savate/relay.py, HTTPRelay._build_request: the text of a relay's request.
pub mod Reading
mod Examples
use savate.Prelude.{Bytes, Option, [], codes_of, if◌then◌else◌, none, some, ℕ, ◌&&◌, ◌++◌, ◌∷◌}
use savate.Http.{build_http_headers}
use savate.Auth.{is_ascii}

-- What urlparse gives of the relay's URL.
pub record ParsedUrl : Type 0 where
  pub path : Bytes
  pub params : Bytes
  pub query : Bytes

-- "c".join([selector, part]), where there is such a part
pub join_part : ℕ → Bytes → Bytes → Bytes
join_part c selector [] = selector
join_part c selector (p ∷ part) = selector ++ c ∷ p ∷ part

pub or_root : Bytes → Bytes
or_root [] = b'/' ∷ []
or_root (c ∷ path) = c ∷ path

pub selector : ParsedUrl → Bytes
selector u = join_part b'?' (join_part b';' (or_root u.path) u.params) u.query

-- b"%s %s %s" % (REQUEST_METHOD, …, HTTP_VERSION)
pub request_line : ParsedUrl → Bytes
request_line u = codes_of "GET " ++ (selector u ++ codes_of " HTTP/1.0")

module _ (decimal : ℕ → Bytes) where
  -- `none` is the UnicodeEncodeError of a selector or a host.
  pub build_request : ParsedUrl → Bytes → Option Bytes
  build_request u host =
      if is_ascii (selector u) && is_ascii host
      then some (
          request_line u
          ++ 13
            ∷ 10
            ∷ (build_http_headers decimal
                  ((codes_of "Host", some host) ∷ (codes_of "icy-metadata", some (b'1' ∷ [])) ∷ [])
                  []
                ++ 13 ∷ 10 ∷ []))
      else none
