-- ===== src/Jwks/Published.antt =====
-- Whose key a token is verified with.
use corshub.Prelude.{
  ℕ, ◌≡◌, ◌≢◌, refl, ◌∙◌, ◌⊎◌, inl, inr, Option, none, some, String, List, [], ◌∷◌, string_eq, All,
  Bool-cases,
}
use corshub.Dict
use corshub.Dict.{get-set_self, get-set_ne}
use corshub.Mountpoint.{is_empty}
use corshub.Jwks.{
  JwkProvider, Jwk, Libraries, public_key_from_jwk, JwksManager, add_key, see_numbered, see_key,
  see_keys, Served, Answers, zip, see_providers, populate, public_key_or, validate_header,
}

module _ (lib : Libraries) where
  -- A cache gives for a key nothing but what was last stored under it.
  pub record IsCache : Type 0 where
    pub get_set :
        (c : lib.Cache) (now at : ℕ) (k j : String) (key found : lib.Key)
        → lib.get (lib.set c now k key) at j ≡ some found
        → ((k ≡ j) × (found ≡ key)) ⊎ ((k ≢ j) × (lib.get c at j ≡ some found))

  module _ (IsProvider : JwkProvider → Type 0)
      (Serves : JwkProvider → Jwk lib.Material → Type 0) where
    -- The provider is configured, and has served the key under this number.
    pub record Published (p : JwkProvider) (kid : String) (key : lib.Key) : Type 0 where
      pub configured : IsProvider p
      pub jwk : Jwk lib.Material
      pub serves_it : Serves p jwk
      pub numbered : jwk.kid ≡ some kid
      pub built : public_key_from_jwk lib jwk ≡ some key

    abbrev pub ServedBy : Served lib → Type 0
    ServedBy served = All (λ e. IsProvider e.0 × All (Serves e.0) e.1) served

    -- What the requests give, if they all answer, is what the providers serve.
    abbrev pub ServedWhen : List JwkProvider → Option (Answers lib) → Type 0
    ServedWhen providers none = Unit
    ServedWhen providers (some answers) = ServedBy (zip lib providers answers)

    -- No key has the audience of a provider for its number.
    pub record IsSeparate : Type 0 where
      pub apart :
          (p q : JwkProvider) (jwk : Jwk lib.Material) (kid : String)
          → Serves p jwk
          → jwk.kid ≡ some kid
          → IsProvider q
          → q.aud ≢ kid

    -- Every key in the cache was published by the provider that its number leads to.
    pub record IsManager (m : JwksManager lib) : Type 0 where
      pub known :
          (at : ℕ) (kid : String) (key : lib.Key)
          → lib.get m.jwks_cache at kid ≡ some key
          → (p : JwkProvider) × (Dict.get m.jwks_metadata kid ≡ some p) × Published p kid key

    module _ (cache : IsCache) where
      add_key-IsManager :
          (now : ℕ) (p : JwkProvider) (kid : String) (o : Option lib.Key) (m : JwksManager lib)
          → ((key : lib.Key) → o ≡ some key → Published p kid key)
          → IsManager m
          → IsManager (add_key lib now p kid o m).0
      unfolding add_key
      add_key-IsManager now p kid none m h v = v
      add_key-IsManager now p kid (some key) m h v = record {
        known = λ at j found e.
            go at j found (cache.get_set m.jwks_cache now at kid j key found e)
              (v.known at j found);
      }
        where
          go :
              (at : ℕ) (j : String) (found : lib.Key)
              → ((kid ≡ j) × (found ≡ key)) ⊎ ((kid ≢ j) × (lib.get m.jwks_cache at j ≡ some found))
              → (lib.get m.jwks_cache at j ≡ some found
                  → (q : JwkProvider) × (Dict.get m.jwks_metadata j ≡ some q) × Published q j found)
              → (q : JwkProvider) × (Dict.get (Dict.set m.jwks_metadata kid p) j ≡ some q)
                × Published q j found
          go at j found (inl (e, f)) old =
              (p, rw (← e) (get-set_self m.jwks_metadata kid p), rw (← e, f) (h key refl))
          go at j found (inr (ne, f)) old =
              let (q, g, published) = old f in
              (q, get-set_ne m.jwks_metadata kid j p ne ∙ g, published)

      see_numbered-IsManager :
          (now : ℕ) (p : JwkProvider) (jwk : Jwk lib.Material) (o : Option String)
          (m : JwksManager lib)
          → IsProvider p
          → Serves p jwk
          → jwk.kid ≡ o
          → IsManager m
          → IsManager (see_numbered lib now p jwk o m).0
      unfolding see_numbered
      see_numbered-IsManager now p jwk none m configured s q v = v
      see_numbered-IsManager now p jwk (some kid) m configured s q v =
          elim (Bool-cases (is_empty kid)) [
            | inl r ↦ rw (r) v
            | inr r ↦ rw (r) (
                add_key-IsManager now p kid (public_key_from_jwk lib jwk) m
                  (λ key built. record {
                    configured = configured;
                    jwk = jwk;
                    serves_it = s;
                    numbered = q;
                    built = built;
                  })
                  v)
          ]

      see_key-IsManager :
          (now : ℕ) (p : JwkProvider) (jwk : Jwk lib.Material) (m : JwksManager lib)
          → IsProvider p
          → Serves p jwk
          → IsManager m
          → IsManager (see_key lib now p jwk m).0
      see_key-IsManager now p jwk m configured s v =
          see_numbered-IsManager now p jwk jwk.kid m configured s refl v

      see_keys-IsManager :
          (now : ℕ) (p : JwkProvider) (jwks : List (Jwk lib.Material)) (m : JwksManager lib)
          → IsProvider p
          → All (Serves p) jwks
          → IsManager m
          → IsManager (see_keys lib now p jwks m).0
      unfolding see_keys
      see_keys-IsManager now p [] m configured s v = v
      see_keys-IsManager now p (jwk ∷ jwks) m configured (s, more) v =
          elim (Bool-cases (see_key lib now p jwk m).1) [
            | inl q ↦ rw (q) (
                see_keys-IsManager now p jwks (see_key lib now p jwk m).0 configured more
                  (see_key-IsManager now p jwk m configured s v))
            | inr q ↦ rw (q) (see_key-IsManager now p jwk m configured s v)
          ]

      -- A provider under its audience, which is the number of no key.
      add_provider-IsManager :
          (p : JwkProvider) (m : JwksManager lib)
          → IsSeparate
          → IsProvider p
          → IsManager m
          → IsManager (record m { jwks_metadata = Dict.set m.jwks_metadata p.aud p })
      add_provider-IsManager p m separate configured v = record {
        known = λ at kid key e.
            let (q, g, published) = v.known at kid key e in
            (
              q,
              get-set_ne m.jwks_metadata p.aud kid p (
                    separate.apart q p published.jwk kid published.serves_it published.numbered
                      configured)
                  ∙ g,
              published,
            );
      }

      see_providers-IsManager :
          (now : ℕ) (served : Served lib) (m : JwksManager lib)
          → IsSeparate
          → ServedBy served
          → IsManager m
          → IsManager (see_providers lib now served m).0
      unfolding see_providers
      see_providers-IsManager now [] m separate s v = v
      see_providers-IsManager now ((p, jwks) ∷ served) m separate ((configured, keys), more) v =
          let first = record m { jwks_metadata = Dict.set m.jwks_metadata p.aud p } in
          let seen =
            see_keys-IsManager now p jwks first configured keys
              (add_provider-IsManager p m separate configured v) in
          elim (Bool-cases (see_keys lib now p jwks first).1) [
            | inl q ↦ rw (q) (
                see_providers-IsManager now served (see_keys lib now p jwks first).0 separate more
                  seen)
            | inr q ↦ rw (q) seen
          ]

      pub populate-IsManager :
          (now : ℕ) (served : Option (Answers lib)) (m : JwksManager lib)
          → IsSeparate
          → ServedWhen m.providers served
          → IsManager m
          → IsManager (populate lib now served m).0
      unfolding populate
      populate-IsManager now none m separate s v = v
      populate-IsManager now (some served) m separate s v =
          see_providers-IsManager now (zip lib m.providers served) m separate s v

      public_key_or-IsManager :
          (now : ℕ) (served : Option (Answers lib)) (kid : String) (o : Option lib.Key)
          (m : JwksManager lib)
          → IsSeparate
          → ServedWhen m.providers served
          → IsManager m
          → IsManager (public_key_or lib now served kid o m).0
      unfolding public_key_or
      public_key_or-IsManager now served kid (some key) m separate s v = v
      public_key_or-IsManager now served kid none m separate s v =
          populate-IsManager now served m separate s v

      -- A validation keeps the state in this order, whether it succeeds or not.
      validate_header-IsManager :
          (now : ℕ) (served : Option (Answers lib)) (token : String) (o : Option (Option String))
          (m : JwksManager lib)
          → IsSeparate
          → ServedWhen m.providers served
          → IsManager m
          → IsManager (validate_header lib now served token o m).0
      unfolding validate_header
      validate_header-IsManager now served token none m separate s v = v
      validate_header-IsManager now served token (some none) m separate s v = v
      validate_header-IsManager now served token (some (some kid)) m separate s v =
          elim (Bool-cases (is_empty kid)) [
            | inl q ↦ rw (q) v
            | inr q ↦ rw (q) (
                public_key_or-IsManager now served kid (lib.get m.jwks_cache now kid) m separate s
                  v)
          ]
