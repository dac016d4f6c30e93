-- ===== src/Http/Examples.antt =====
-- A response with a text.
use savate.Http.{HttpResponse, as_bytes, default_headers, status_line, update}
use savate.Http.RoundTrip.{IsClean, present, read_response, read_response-as_bytes}
use savate.Prelude.{Bytes, [], arith, codes_of, false, none, refl, some, suc, zero, ℕ, ◌∷◌, ◌≡◌}
use savate.Dict.{put}
use savate.Text.{contains}
use savate.Prelude.{bytes_eq}

-- A number as so many digits 1.
unary : ℕ → Bytes
unary zero = []
unary (suc n) = b'1' ∷ unary n

unary-clean : (n : ℕ) → contains 13 (unary n) ≡ false
unfolding unary contains
unary-clean zero = refl
unary-clean (suc n) = ground (arith, unary-clean n)

abbrev hello : HttpResponse
hello = record {
  status = 4;
  reason = codes_of "OK";
  headers =
      (codes_of "Content-Length", none)
      ∷ (codes_of "Content-Type", some (codes_of "text/plain"))
      ∷ [];
  body = codes_of "hi";
}

ok-clean : contains 13 (codes_of "OK") ≡ false
unfolding contains
ok-clean = refl

hello-IsClean : IsClean hello.headers
unfolding contains
hello-IsClean = (tt, ((refl, refl, refl), tt))

sent :
    update (default_headers unary (codes_of "hi")) hello.headers
    ≡ (codes_of "Connection", some (codes_of "close"))
      ∷ (codes_of "Content-Length", none)
      ∷ (codes_of "Content-Type", some (codes_of "text/plain"))
      ∷ []
unfolding update default_headers put
sent = refl

read_response-as_bytes_example :
    read_response (as_bytes unary hello)
    ≡ some (
      status_line unary hello,
      (present (update (default_headers unary (codes_of "hi")) hello.headers), codes_of "hi"),
    )
read_response-as_bytes_example =
    read_response-as_bytes unary hello unary-clean ok-clean hello-IsClean
