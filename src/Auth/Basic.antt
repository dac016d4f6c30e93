-- ===== src/Auth/Basic.antt =====
-- savate/auth.py: the answers of HTTP Basic authorization.
use savate.Prelude.{
  Bytes, Option, [], arith, bytes_eq, codes_of, false, if◌then◌else◌, inl, inr, none, refl,
  same_bytes_iff, some, true, ◌++◌, ◌↔◌, ◌∷◌, ◌≡◌, ◌≢◌, ◌⊎◌,
}
use savate.Text.{contains, lstrip, starts_with}
use savate.Text.Laws.{contains-append, split_once-append}
use savate.Auth.{
  Credentials, Verdict, authorize_basic, check_header, failure, is_ascii, mismatch, success,
  undecided,
}

-- A configured name or password that is absent or empty matches anything.
abbrev pub Admits : Option Bytes → Bytes → Type 0
Admits none given = Unit
Admits (some e) given = (e ≡ []) ⊎ (e ≡ given)

mismatch-Admits : (o : Option Bytes) (g : Bytes) → (mismatch o g ≡ false) ↔ Admits o g
unfolding mismatch
mismatch-Admits none g = (λ h. tt, λ h. refl)
mismatch-Admits (some []) g = (λ h. inl refl, λ h. refl)
mismatch-Admits (some (x ∷ e)) g = (
  λ h. inr (ground (arith, same_bytes_iff (x ∷ e) g, h)),
  λ h. ground (arith, same_bytes_iff (x ∷ e) g, h),
)

module _ (b64decode : Bytes → Option Bytes) where
  -- With no credentials configured at all, a request without an Authorization header is still asked
  -- for one: no path is open, and no later handler is consulted.
  pub authorize_basic-ne-undecided :
      (c : Credentials) (auth_header : Option Bytes)
      → authorize_basic b64decode c auth_header ≢ undecided
  unfolding authorize_basic check_header
  authorize_basic-ne-undecided c none = ground arith
  authorize_basic-ne-undecided c (some []) = ground arith
  authorize_basic-ne-undecided c (some (h ∷ hs)) = ground arith

  -- What a well-formed header comes down to.
  judged : Credentials → Bytes → Bytes → Verdict
  judged c user password =
      if mismatch c.user user
      then failure
      else if mismatch c.password password
      then failure
      else success

  authorize_basic-eq-judged :
      (c : Credentials) (user password encoded : Bytes)
      → b64decode (b' ' ∷ encoded) ≡ some (user ++ b':' ∷ password)
      → contains b':' user ≡ false
      → is_ascii (user ++ b':' ∷ password) ≡ true
      → authorize_basic b64decode c (some (codes_of "Basic " ++ encoded)) ≡ judged c user password
  unfolding authorize_basic check_header starts_with lstrip contains judged
  authorize_basic-eq-judged c user password encoded dec no_colon ascii = ground (
    arith,
    dec,
    ascii,
    contains-append b':' user (b':' ∷ password),
    split_once-append b':' user password no_colon,
  )

  -- A header made of the scheme, a space and the encoding of `user:password`, where the user has no
  -- colon and the text is ASCII, is granted exactly if both match the credentials that are given,
  -- and refused with 403 otherwise. The encoding is that of any text which `b64decode` takes back
  -- with the space before it.
  pub authorize_basic-credentials :
      (c : Credentials) (user password encoded : Bytes)
      → b64decode (b' ' ∷ encoded) ≡ some (user ++ b':' ∷ password)
      → contains b':' user ≡ false
      → is_ascii (user ++ b':' ∷ password) ≡ true
      → ((authorize_basic b64decode c (some (codes_of "Basic " ++ encoded)) ≡ success)
          ↔ (Admits c.user user × Admits c.password password))
        × ((authorize_basic b64decode c (some (codes_of "Basic " ++ encoded)) ≡ success)
            ⊎ (authorize_basic b64decode c (some (codes_of "Basic " ++ encoded)) ≡ failure))
  authorize_basic-credentials c user password encoded dec no_colon ascii =
      let e = authorize_basic-eq-judged c user password encoded dec no_colon ascii in
      let mu = mismatch-Admits c.user user in
      let mp = mismatch-Admits c.password password in
      (
        (
          λ h. (
            mu.0 (unfold judged in ground (arith, e, h)),
            mp.0 (unfold judged in ground (arith, e, h)),
          ),
          λ h. unfold judged in ground (arith, e, mu.1 h.0, mp.1 h.1),
        ),
        unfold judged in ground (arith, e),
      )
