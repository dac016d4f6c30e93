-- ===== src/Auth.antt =====
-- savate/auth.py: HTTP Basic and token authorization. Texts are lists of codes, of characters or of bytes.
-- Requests have bytes and the configuration has str, which are never equal: no mount is found by the path of
-- a request. `b64decode` is a parameter, the function of Python's base64.
pub mod Basic
mod Examples
use savate.Prelude.{
  Bool, Bytes, List, Option, [], bytes_eq, codes_of, false, if◌then◌else◌, is_empty, ltb, none, not,
  same_bytes, some, true, ℕ, ◌&&◌, ◌||◌, ◌∷◌,
}
use savate.Text.{contains, lstrip, split_once, starts_with}
use savate.Dict.{Dict, lookup, put}

-- What `authorize` gives: a response's status, None, or an exception.
pub data Verdict : Type 0 where
  status : ℕ → Verdict
  undecided : Verdict
  raised : Verdict

-- AUTH_SUCCESS, AUTH_REQUEST, AUTH_FAILURE
abbrev pub success : Verdict
success = status 200

abbrev pub request : Verdict
request = status 401

abbrev pub failure : Verdict
failure = status 403

-- `protected_paths[path]`
pub record Credentials : Type 0 where
  pub user : Option Bytes
  pub password : Option Bytes

-- A mount of the configuration, with the keys of one of the two subclasses, if present.
pub record Mount : Type 0 where
  pub path : Bytes
  pub mount_user : Option Bytes
  pub mount_password : Option Bytes

or_else : Option Bytes → Option Bytes → Option Bytes
or_else none d = d
or_else (some a) d = some a

-- The table that `__init__` fills.
pub protect : Credentials → List Mount → Dict Bytes Credentials → Dict Bytes Credentials
protect global [] table = table
protect global (m ∷ ms) table = protect global ms (
    put m.path
      (record {
        user = or_else m.mount_user global.user;
        password = or_else m.mount_password global.password;
      })
      table)

or_default {ℓ} : {A : Type ℓ} → Option A → A → A
or_default none d = d
or_default (some a) d = a

-- `path in table`, for a path in bytes and keys in str.
has_octets {ℓ} : {V : Type ℓ} → Bytes → Dict Bytes V → Bool
has_octets path [] = false
has_octets path (entry ∷ table) = has_octets path table

-- A default dictionary: a path that is not a key has the global credentials.
pub protection : Credentials → List Mount → Bytes → Credentials
protection global mounts path =
    let table = protect global mounts [] in
    if has_octets path table then or_default (lookup path table) global else global

-- `protected_user and protected_user != auth_user`
pub mismatch : Option Bytes → Bytes → Bool
mismatch none given = false
mismatch (some expected) given = not (is_empty expected) && not (same_bytes expected given)

-- `bytes.decode("ascii")` succeeds.
unfoldable pub is_ascii : Bytes → Bool
is_ascii [] = true
is_ascii (c ∷ s) = ltb c 128 && is_ascii s

module _ (b64decode : Bytes → Option Bytes) where
  -- A request with an `Authorization` header of the Basic scheme. `except TypeError` does not
  -- catch what b64decode raises on bad input, which is a ValueError: `none` leaves as an exception.
  pub check_header : Credentials → Bytes → Verdict
  check_header c auth_header = elim (b64decode (lstrip (codes_of "Basic") auth_header)) [
    | none ↦ raised
    | some auth_string ↦
        if contains b':' auth_string
        then (if is_ascii auth_string
            then (elim (split_once b':' auth_string) [
              | none ↦ raised
              | some (auth_user, auth_password) ↦
                  if mismatch c.user auth_user
                  then failure
                  else if mismatch c.password auth_password
                  then failure
                  else success
            ])
            else raised)
        else failure
  ]

  -- `AbstractBasicAuthorization.authorize`. The test `(user, password) is not (None, None)` compares
  -- the identity of a new tuple and holds always, so the branch that returns None is not reached.
  pub authorize_basic : Credentials → Option Bytes → Verdict
  authorize_basic c none = request
  authorize_basic c (some []) = request
  authorize_basic c (some (h ∷ hs)) =
      if starts_with (codes_of "Basic ") (h ∷ hs) then check_header c (h ∷ hs) else failure

  -- `BasicAuthorization.authorize`, by the request's method.
  pub authorize : Credentials → Credentials → Bytes → Option Bytes → Verdict
  authorize source client method auth_header =
      if same_bytes method (codes_of "PUT")
        || same_bytes method (codes_of "SOURCE")
        || same_bytes method (codes_of "POST")
      then authorize_basic source auth_header
      else if same_bytes method (codes_of "GET")
      then authorize_basic client auth_header
      else undecided

-- `TokenAuthorization`: what protects a path.
pub record TokenConfig : Type 0 where
  pub secret : Bytes
  pub timeout : Option ℕ
  pub prefix : Bytes

-- What `authorize` gives: None, or an exception.
pub data Granted : Type 0 where
  no_opinion error : Granted

-- A mount's entries for token authorization, where present.
pub record TokenMount : Type 0 where
  pub path : Bytes
  pub mount_secret : Option Bytes
  pub token_timeout : Option ℕ
  pub token_prefix : Option Bytes

or_timeout : Option ℕ → Option ℕ → Option ℕ
or_timeout none d = d
or_timeout (some a) d = some a

pub protect_token : TokenConfig → List TokenMount → Dict Bytes TokenConfig → Dict Bytes TokenConfig
protect_token global [] table = table
protect_token global (m ∷ ms) table = protect_token global ms (
    put m.path
      (record {
        secret = or_default m.mount_secret global.secret;
        timeout = or_timeout m.token_timeout global.timeout;
        prefix = or_default m.token_prefix global.prefix;
      })
      table)

pub token_protection : TokenConfig → List TokenMount → Bytes → TokenConfig
token_protection global mounts path =
    let table = protect_token global mounts [] in
    if has_octets path table then or_default (lookup path table) global else global

-- `TokenAuthorization.authorize`: `path.startswith(prefix)` of bytes with a str is a TypeError, so what follows
-- it is not reached.
pub authorize_token : TokenConfig → Granted
authorize_token c = if is_empty c.secret then no_opinion else error
