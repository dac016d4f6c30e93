-- ===== src/Auth/Examples.antt =====
-- Authorization on concrete requests.
use savate.Prelude.{
  Bytes, Option, [], bytes_eq, codes_of, none, refl, some, ◌++◌, ◌↔◌, ◌∷◌, ◌≡◌, ◌⊎◌,
}
use savate.Text.{contains, lstrip, split_once, starts_with}
use savate.Auth.{
  Credentials, authorize_basic, check_header, failure, is_ascii, mismatch, raised, success,
}
use savate.Auth.Basic.{Admits, authorize_basic-credentials}

-- A decoding that takes off the space in front and nothing else.
plain : Bytes → Option Bytes
plain [] = none
plain (c ∷ s) = some s

abbrev alice : Credentials
alice = record { user = some (codes_of "alice"); password = some (codes_of "pw") }

authorize_basic-credentials_example :
    ((authorize_basic plain alice (some (codes_of "Basic " ++ codes_of "alice:pw")) ≡ success)
      ↔ (Admits alice.user (codes_of "alice") × Admits alice.password (codes_of "pw")))
    × ((authorize_basic plain alice (some (codes_of "Basic " ++ codes_of "alice:pw")) ≡ success)
        ⊎ (authorize_basic plain alice (some (codes_of "Basic " ++ codes_of "alice:pw")) ≡ failure))
unfolding plain contains is_ascii
authorize_basic-credentials_example =
    authorize_basic-credentials plain alice (codes_of "alice") (codes_of "pw") (codes_of "alice:pw")
      refl refl refl

-- A wrong password, a scheme in lower case and an encoding that is none.
wrong_password : authorize_basic plain alice (some (codes_of "Basic alice:no")) ≡ failure
unfolding authorize_basic starts_with check_header plain lstrip contains is_ascii split_once
    mismatch
wrong_password = refl

lower_case : authorize_basic plain alice (some (codes_of "basic alice:pw")) ≡ failure
unfolding authorize_basic starts_with
lower_case = refl

bad_encoding : authorize_basic (λ s. none) alice (some (codes_of "Basic ?")) ≡ raised
unfolding authorize_basic starts_with check_header lstrip contains
bad_encoding = refl
