-- ===== src/Http.antt =====
-- savate/helpers.py: build_http_headers and HTTPResponse. `decimal` is Python's str() of a number.
pub mod RoundTrip
mod Examples
use savate.Prelude.{Bytes, Option, [], codes_of, length, none, some, ℕ, ◌++◌, ◌∷◌}
use savate.Dict.{Dict, put}
use savate.Prelude.{bytes_eq}

-- d.update(e)
unfoldable pub update :
    Dict Bytes (Option Bytes) → Dict Bytes (Option Bytes) → Dict Bytes (Option Bytes)
update d [] = d
update d ((k, v) ∷ e) = update (put k v d) e

-- The lines of the headers that are not None.
pub header_lines : Dict Bytes (Option Bytes) → Bytes
header_lines [] = []
header_lines ((key, none) ∷ d) = header_lines d
header_lines ((key, some value) ∷ d) = key ++ b':' ∷ b' ' ∷ (value ++ 13 ∷ 10 ∷ header_lines d)

pub record HttpResponse : Type 0 where
  pub status : ℕ
  pub reason : Bytes
  pub headers : Dict Bytes (Option Bytes)
  pub body : Bytes

module _ (decimal : ℕ → Bytes) where
  unfoldable pub default_headers : Bytes → Dict Bytes (Option Bytes)
  default_headers body =
      (codes_of "Connection", some (codes_of "close"))
      ∷ (codes_of "Content-Length", some (decimal (length body)))
      ∷ []

  unfoldable pub build_http_headers : Dict Bytes (Option Bytes) → Bytes → Bytes
  build_http_headers headers body = header_lines (update (default_headers body) headers)

  pub status_line : HttpResponse → Bytes
  status_line r = codes_of "HTTP/1.0 " ++ (decimal r.status ++ b' ' ∷ r.reason)

  pub as_bytes : HttpResponse → Bytes
  as_bytes r = status_line r ++ 13 ∷ 10 ∷ (build_http_headers r.headers r.body ++ 13 ∷ 10 ∷ r.body)
