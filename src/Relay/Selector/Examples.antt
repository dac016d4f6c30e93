-- ===== src/Relay/Selector/Examples.antt =====
-- The request for a mount with a query.
use savate.Relay.Selector.{ParsedUrl, build_request, join_part, or_root, selector}
use savate.Relay.Selector.Reading.{asked, read_response-build_request, words}
use savate.Http.RoundTrip.{read_response}
use savate.Text.{contains}
use savate.Prelude.{Bytes, [], codes_of, refl, some, ℕ, ◌∷◌, ◌≡◌}
use savate.Auth.{is_ascii}

-- str() of 0, the only number in a request.
abbrev decimal : ℕ → Bytes
decimal n = b'0' ∷ []

abbrev url : ParsedUrl
url = record { path = codes_of "/live"; params = []; query = codes_of "q=1" }

url-selector : selector url ≡ codes_of "/live?q=1"
unfolding selector join_part or_root
url-selector = refl

no_path-selector : selector (record { path = []; params = []; query = [] }) ≡ codes_of "/"
unfolding selector join_part or_root
no_path-selector = refl

read_response-build_request_example :
    (whole line : Bytes) × (build_request decimal url (codes_of "h") ≡ some whole)
    × (read_response whole ≡ some (line, (asked decimal (codes_of "h"), [])))
    × (words line ≡ some (codes_of "GET", (selector url, codes_of "HTTP/1.0")))
unfolding selector join_part or_root contains is_ascii
read_response-build_request_example =
    read_response-build_request decimal url (codes_of "h") refl refl refl refl refl refl
