-- ===== src/Jwks.antt =====
-- The verification of tokens of other issuers: `JWKSManager` of src/corshub/jwt.py. The HTTP exchange
-- with the issuers, the cache of cachetools and the library jwt are parameters.
pub mod Published
pub mod Validated
use corshub.Prelude.{
  ℕ, Bool, true, false, not, Option, none, some, String, List, [], ◌∷◌, if◌then◌else◌, same,
  string_eq,
}
use corshub.Dict
use corshub.Dict.{Dict}
use corshub.Mountpoint.{is_empty}

pub record JwkProvider : Type 0 where
  pub client_id : String
  pub iss : String
  pub aud : String
  pub token : String

-- A key as an issuer serves it: its type, its number, and whatever else it has.
pub record Jwk (Material : Type 0) : Type 0 where
  pub kty : Option String
  pub kid : Option String
  pub material : Material

-- The libraries: `from_jwk` of the two algorithms, where `none` is an exception, the header of a token
-- with its `kid`, and `jwt.decode` with a key, an audience and an issuer; and a cache.
pub record Libraries : Type 1 where
  pub Material : Type 0
  pub Key : Type 0
  pub Payload : Type 0
  pub rsa_from_jwk : Jwk Material → Option Key
  pub okp_from_jwk : Jwk Material → Option Key
  pub unverified_header : String → Option (Option String)
  pub decode : ℕ → String → Key → String → String → Option Payload
  pub Cache : Type 0
  pub get : Cache → ℕ → String → Option Key
  pub set : Cache → ℕ → String → Key → Cache

abbrev pub is_type : Option String → String → Bool
is_type none t = false
is_type (some s) t = same s t

module _ (lib : Libraries) where
  -- `none` is an exception.
  unfoldable pub public_key_from_jwk : Jwk lib.Material → Option lib.Key
  public_key_from_jwk jwk =
      if is_type jwk.kty "RSA"
      then lib.rsa_from_jwk jwk
      else if is_type jwk.kty "OKP"
      then lib.okp_from_jwk jwk
      else none

  pub record JwksManager : Type 0 where
    pub providers : List JwkProvider
    pub jwks_metadata : Dict String JwkProvider
    pub jwks_cache : lib.Cache

  -- The state after a loop, and whether it came to its end; an exception leaves what was done.
  abbrev pub Progress : Type 0
  Progress = JwksManager × Bool

  -- A key under its number, and its provider.
  unfoldable pub add_key : ℕ → JwkProvider → String → Option lib.Key → JwksManager → Progress
  add_key now p kid none m = (m, false)
  add_key now p kid (some key) m = (
    record m {
      jwks_cache = lib.set m.jwks_cache now kid key;
      jwks_metadata = Dict.set m.jwks_metadata kid p;
    },
    true,
  )

  -- A key without a number is passed over.
  unfoldable pub see_numbered :
      ℕ → JwkProvider → Jwk lib.Material → Option String → JwksManager → Progress
  unfolding add_key public_key_from_jwk
  see_numbered now p jwk none m = (m, true)
  see_numbered now p jwk (some kid) m =
      if is_empty kid then (m, true) else add_key now p kid (public_key_from_jwk jwk) m

  abbrev pub see_key : ℕ → JwkProvider → Jwk lib.Material → JwksManager → Progress
  see_key now p jwk m = see_numbered now p jwk jwk.kid m

  unfoldable pub see_keys : ℕ → JwkProvider → List (Jwk lib.Material) → JwksManager → Progress
  unfolding see_numbered
  see_keys now p [] m = (m, true)
  see_keys now p (jwk ∷ jwks) m =
      let (m', goes_on) = see_key now p jwk m in
      let rest = see_keys now p jwks m' in if goes_on then rest else (m', false)

  -- The providers with what each of them served.
  abbrev pub Served : Type 0
  Served = List (JwkProvider × List (Jwk lib.Material))

  unfoldable pub see_providers : ℕ → Served → JwksManager → Progress
  unfolding see_keys
  see_providers now [] m = (m, true)
  see_providers now ((p, jwks) ∷ served) m =
      let (m', goes_on) =
        see_keys now p jwks (record m { jwks_metadata = Dict.set m.jwks_metadata p.aud p }) in
      let rest = see_providers now served m' in if goes_on then rest else (m', false)

  -- The key sets that the requests of `asyncio.gather` give, in the order of the providers.
  abbrev pub Answers : Type 0
  Answers = List (List (Jwk lib.Material))

  -- `zip`, which ends with the shorter list.
  unfoldable pub zip : List JwkProvider → Answers → Served
  zip [] answers = []
  zip (p ∷ providers) [] = []
  zip (p ∷ providers) (jwks ∷ answers) = (p, jwks) ∷ zip providers answers

  -- `populate`, with what the providers answer: `none` when one of the requests fails.
  unfoldable pub populate : ℕ → Option Answers → JwksManager → Progress
  unfolding see_providers zip
  populate now none m = (m, false)
  populate now (some answers) m = see_providers now (zip m.providers answers) m

  abbrev pub provider : JwksManager → String → Option JwkProvider
  provider m aud = Dict.get m.jwks_metadata aud

  abbrev pub both : Option JwkProvider → Option lib.Key → Option (JwkProvider × lib.Key)
  both none key = none
  both (some p) none = none
  both (some p) (some key) = some (p, key)

  -- What the cache holds for the number, or what it holds when it has been populated.
  unfoldable pub public_key_or :
      ℕ
      → Option Answers
      → String
      → Option lib.Key
      → JwksManager
      → JwksManager × Option (JwkProvider × lib.Key)
  unfolding populate
  public_key_or now answers kid (some key) m = (m, both (provider m kid) (some key))
  public_key_or now answers kid none m =
      let (m', ok) = populate now answers m in
      (m', if ok then both (provider m' kid) (lib.get m'.jwks_cache now kid) else none)

  -- The provider and the key of a number; `none` is an exception. `answers` is what the requests to
  -- the providers would give now.
  abbrev pub public_key :
      ℕ → Option Answers → String → JwksManager → JwksManager × Option (JwkProvider × lib.Key)
  public_key now answers kid m = public_key_or now answers kid (lib.get m.jwks_cache now kid) m

  unfoldable pub decode_with : ℕ → String → Option (JwkProvider × lib.Key) → Option lib.Payload
  decode_with now token none = none
  decode_with now token (some (p, key)) = lib.decode now token key p.aud p.iss

  -- The token with the header that was read of it.
  unfoldable pub validate_header :
      ℕ
      → Option Answers
      → String
      → Option (Option String)
      → JwksManager
      → JwksManager × Option lib.Payload
  unfolding public_key_or decode_with
  validate_header now answers token none m = (m, none)
  validate_header now answers token (some none) m = (m, none)
  validate_header now answers token (some (some kid)) m =
      let (m', found) = public_key now answers kid m in
      if is_empty kid then (m, none) else (m', decode_with now token found)

  -- The claims of a token, or an exception.
  abbrev pub validate : ℕ → Option Answers → String → JwksManager → JwksManager × Option lib.Payload
  validate now answers token m = validate_header now answers token (lib.unverified_header token) m
