-- ===== src/Jwks/Validated.antt =====
-- Whose key a token is verified with, and for whom.
use corshub.Prelude.{
  ℕ, ◌≡◌, refl, sym, ◌∙◌, ap, Bool, true, false, Option, none, some, String, if◌then◌else◌,
  string_eq, arith,
}
use corshub.Mountpoint.{is_empty}
use corshub.Jwks.{
  JwkProvider, Jwk, Libraries, JwksManager, Answers, populate, provider, both, public_key_or,
  public_key, decode_with, validate_header, validate,
}
use corshub.Jwks.Published.{
  IsCache, Published, ServedWhen, IsSeparate, IsManager, populate-IsManager,
}

module _ (lib : Libraries) (IsProvider : JwkProvider → Type 0)
    (Serves : JwkProvider → Jwk lib.Material → Type 0) where
  -- The claims are what the library reads of the token with a published key, the one that the token
  -- names, and with the audience and the issuer of the provider that published it.
  pub record Verified (now : ℕ) (token : String) (claims : lib.Payload) : Type 0 where
    pub p : JwkProvider
    pub kid : String
    pub key : lib.Key
    pub named : lib.unverified_header token ≡ some (some kid)
    pub published : Published lib IsProvider Serves p kid key
    pub decoded : lib.decode now token key p.aud p.iss ≡ some claims

  both-Verified :
      (now : ℕ) (token kid : String) (m : JwksManager lib) (claims : lib.Payload)
      (o : Option lib.Key)
      → lib.get m.jwks_cache now kid ≡ o
      → IsManager lib IsProvider Serves m
      → lib.unverified_header token ≡ some (some kid)
      → decode_with lib now token (both lib (provider lib m kid) o) ≡ some claims
      → Verified now token claims
  unfolding decode_with
  both-Verified now token kid m claims none g v named e = go (provider lib m kid) e
    where
      go :
          (o : Option JwkProvider)
          → decode_with lib now token (both lib o none) ≡ some claims
          → Verified now token claims
      go none e = absurd (ground arith)
      go (some p) e = absurd (ground arith)
  both-Verified now token kid m claims (some key) g v named e =
      let (p, known, published) = v.known now kid key g in
      record {
        p = p;
        kid = kid;
        key = key;
        named = named;
        published = published;
        decoded = ap (λ o. decode_with lib now token (both lib o (some key))) (sym known) ∙ e;
      }

  module _ (cache : IsCache lib) where
    public_key_or-Verified :
        (now : ℕ) (served : Option (Answers lib)) (token kid : String) (o : Option lib.Key)
        (m : JwksManager lib) (claims : lib.Payload)
        → lib.get m.jwks_cache now kid ≡ o
        → IsSeparate lib IsProvider Serves
        → ServedWhen lib IsProvider Serves m.providers served
        → IsManager lib IsProvider Serves m
        → lib.unverified_header token ≡ some (some kid)
        → decode_with lib now token (public_key_or lib now served kid o m).1 ≡ some claims
        → Verified now token claims
    unfolding public_key_or decode_with
    public_key_or-Verified now served token kid (some key) m claims g separate s v named e =
        both-Verified now token kid m claims (some key) g v named e
    public_key_or-Verified now served token kid none m claims g separate s v named e =
        let m' = (populate lib now served m).0 in
        both-Verified now token kid m' claims (lib.get m'.jwks_cache now kid) refl
          (populate-IsManager lib IsProvider Serves cache now served m separate s v) named
          (go (populate lib now served m).1 e)
      where
        go :
            (ok : Bool)
            → decode_with lib now token (
                if ok
                then both lib
                    (provider lib (populate lib now served m).0 kid)
                    (lib.get (populate lib now served m).0.jwks_cache now kid)
                else none)
              ≡ some claims
            → decode_with lib now token (
                both lib
                  (provider lib (populate lib now served m).0 kid)
                  (lib.get (populate lib now served m).0.jwks_cache now kid))
              ≡ some claims
        go true e = e
        go false e = absurd (ground arith)

    validate_header-Verified :
        (now : ℕ) (served : Option (Answers lib)) (token : String) (o : Option (Option String))
        (m : JwksManager lib) (claims : lib.Payload)
        → lib.unverified_header token ≡ o
        → IsSeparate lib IsProvider Serves
        → ServedWhen lib IsProvider Serves m.providers served
        → IsManager lib IsProvider Serves m
        → (validate_header lib now served token o m).1 ≡ some claims
        → Verified now token claims
    unfolding validate_header
    validate_header-Verified now served token none m claims h separate s v e = absurd (ground arith)
    validate_header-Verified now served token (some none) m claims h separate s v e =
        absurd (ground arith)
    validate_header-Verified now served token (some (some kid)) m claims h separate s v e =
        public_key_or-Verified now served token kid (lib.get m.jwks_cache now kid) m claims refl
          separate s v h (go (is_empty kid) e)
      where
        go :
            (empty : Bool)
            → (if◌then◌else◌ {A = JwksManager lib × Option lib.Payload} empty
                (m, none)
                (
                  (public_key lib now served kid m).0,
                  decode_with lib now token (public_key lib now served kid m).1,
                )).1
              ≡ some claims
            → decode_with lib now token (public_key lib now served kid m).1 ≡ some claims
        go false e = e
        go true e = absurd (ground arith)

    -- When a token is validated, in a state where every cached key was published by the provider that
    -- its number leads to, with a cache that gives nothing but what was last stored, where no key has
    -- an audience for its number, and where the requests give, in the order of the manager's providers, what these
    -- serve, the claims are
    -- those that the library reads of the token with a key that a configured provider published under
    -- the number that the token names, and with the audience and the issuer of that provider.
    pub validate-Verified :
        (now : ℕ) (served : Option (Answers lib)) (token : String) (m : JwksManager lib)
        (claims : lib.Payload)
        → IsSeparate lib IsProvider Serves
        → ServedWhen lib IsProvider Serves m.providers served
        → IsManager lib IsProvider Serves m
        → (validate lib now served token m).1 ≡ some claims
        → Verified now token claims
    validate-Verified now served token m claims separate s v e =
        validate_header-Verified now served token (lib.unverified_header token) m claims refl
          separate s v e
