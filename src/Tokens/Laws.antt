-- ===== src/Tokens/Laws.antt =====
-- What is assumed of the library jwt.
use corshub.Prelude.{ℕ, ◌<◌, ◌≤◌, ◌≡◌, some, String, [], ◌∷◌}
use corshub.Tokens.{Claims, Jwt, algorithm, required}

-- A token with all the required claims that was signed with a secret by HS256 is decoded with this
-- secret and audience as long as it is neither of the future nor expired.
pub record IsJwt (jwt : Jwt) : Type 0 where
  pub decode-encode :
      (now at : ℕ) (secret : String) (c : Claims)
      → c.iat ≡ some at
      → at ≤ now
      → now < c.exp
      → jwt.decode now (jwt.encode c secret algorithm) secret (algorithm ∷ []) c.aud required
        ≡ some c
