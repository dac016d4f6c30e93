-- ===== src/Server/Routing/Access.antt =====
-- The path that a request has, and who may pass.
use savate.Prelude.{
  Bool, Bytes, List, Option, [], arith, if◌then◌else◌, inl, refl, ℕ, ◌&&◌, ◌==◌, ◌∷◌, ◌≡◌, ◌≢◌,
}
use savate.Text.{starts_with}
use savate.Server.Routing.{
  AuthHandler, Request, Server, authorize, no_answer, responding, response, slash, squash,
  transform_request,
}

-- No slash is followed by another.
abbrev pub IsSquashed : Bytes → Type 0
IsSquashed [] = Unit
IsSquashed (c ∷ []) = Unit
IsSquashed (c ∷ d ∷ s) = ((c ≡ slash) → d ≢ slash) × IsSquashed (d ∷ s)

-- A text without its slashes.
abbrev pub without_slashes : Bytes → Bytes
without_slashes [] = []
without_slashes (c ∷ s) = let rest = without_slashes s in if c == slash then rest else c ∷ rest

squash-without_slashes : (s : Bytes) → without_slashes (squash s) ≡ without_slashes s
unfolding squash
squash-without_slashes [] = refl
squash-without_slashes (c ∷ s) = ground (arith, squash-without_slashes s)

squash-IsSquashed : (s : Bytes) → IsSquashed (squash s)
unfolding squash starts_with
squash-IsSquashed [] = tt
squash-IsSquashed (c ∷ s) = go (squash s) (squash-IsSquashed s)
  where
    go :
        (t : Bytes)
        → IsSquashed t
        → IsSquashed (if c == slash && starts_with (slash ∷ []) t then t else c ∷ t)
    go [] h = ground arith
    go (d ∷ t) h = ground (arith, h)

squash_squashed : (s : Bytes) → IsSquashed s → squash s ≡ s
unfolding squash starts_with
squash_squashed [] h = refl
squash_squashed (c ∷ []) h = ground arith
squash_squashed (c ∷ d ∷ s) h = ground (arith, squash_squashed (d ∷ s), h)

-- The path of a request has no two slashes in a row once squashed, is otherwise the text it was, and
-- is left alone where it had none.
pub squash-path :
    (s : Bytes)
    → IsSquashed (squash s)
      × (without_slashes (squash s) ≡ without_slashes s)
      × (IsSquashed s → squash s ≡ s)
squash-path s = (squash-IsSquashed s, squash-without_slashes s, squash_squashed s)

-- The handlers deny the request with the status: those before give no opinion, and this one a
-- response other than 200.
pub data Denies : List AuthHandler → Request → ℕ → Type 0 where
  denied_at :
      {h : AuthHandler} {hs : List AuthHandler} {r : Request} {n : ℕ}
      → (h r).0 ≡ response n
      → n ≢ 200
      → Denies (h ∷ hs) r n
  passed_on :
      {h : AuthHandler} {hs : List AuthHandler} {r : Request} {n : ℕ}
      → (h r).0 ≡ no_answer
      → Denies hs (h r).1 n
      → Denies (h ∷ hs) r n

authorize-Denies :
    {hs : List AuthHandler} {r : Request} {n : ℕ}
    → Denies hs r n
    → authorize hs r ≡ inl (responding n)
unfolding authorize
authorize-Denies (denied_at e k) = ground (arith, e, k)
authorize-Denies (passed_on e d) = rw e (authorize-Denies d)

module _ (choice : List ℕ → Option ℕ) (find_source : Request → Option ℕ) (refuses : ℕ → Bool)
    (fd client : ℕ) where
  -- A request that an authorization handler denies, those before it having no opinion, is answered
  -- with that handler's status, and nothing of the server changes. The handlers see the path with
  -- its runs of slashes squashed.
  pub transform_request-Denies :
      (handlers : List AuthHandler) (r : Request) (s : Server) (n : ℕ)
      → Denies handlers (record r { request_path = squash r.request_path }) n
      → transform_request choice find_source refuses fd client handlers r s ≡ (responding n, s)
  unfolding transform_request
  transform_request-Denies handlers r s n d = rw (authorize-Denies d, transform_request)
