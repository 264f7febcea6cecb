-- ===== src/Tests/Jwks.antt =====
-- Tests of the verification of tokens of other issuers.
use corshub.Prelude.{
  ℕ, ◌≡◌, refl, inl, inr, Bool-cases, Option, none, some, String, List, [], ◌∷◌, same, same_iff,
  string_eq, arith,
}
use corshub.Dict
use corshub.Dict.{Dict, get-set}
use corshub.Jwks.{JwkProvider, Jwk, Libraries, JwksManager, zip, validate}
use corshub.Jwks.Published.{IsCache, IsSeparate, IsManager}
use corshub.Jwks.Validated.{Verified, validate-Verified}

-- A key is its number, and the claims are the issuer, the audience and the key of the decoding.
abbrev numbers : Libraries
numbers = record {
  Material = ℕ;
  Key = ℕ;
  Payload = String × String × ℕ;
  rsa_from_jwk = λ jwk. some jwk.material;
  okp_from_jwk = λ jwk. none;
  unverified_header = λ token. some (some token);
  decode = λ now token key aud iss. some (iss, aud, key);
  Cache = Dict String ℕ;
  get = λ cache now kid. Dict.get cache kid;
  set = λ cache now kid key. Dict.set cache kid key;
}

abbrev issuer : JwkProvider
issuer = record {
  client_id = "corshub";
  iss = "https://issuer";
  aud = "api";
  token = "https://issuer/token";
}

abbrev a_key : Jwk ℕ
a_key = record { kty = some "RSA"; kid = some "k1"; material = 77 }

abbrev fresh : JwksManager numbers
fresh = record { providers = issuer ∷ []; jwks_metadata = []; jwks_cache = [] }

abbrev IsConfigured : JwkProvider → Type 0
IsConfigured p = p.aud ≡ "api"

abbrev Serves : JwkProvider → Jwk ℕ → Type 0
Serves p jwk = jwk.kid ≡ some "k1"

numbers-IsCache : IsCache numbers
numbers-IsCache = record {
  get_set = λ cache now at k j key found e. elim (Bool-cases (same k j)) [
    | inl q ↦ inl (ground (arith, get-set cache k j key, same_iff k j))
    | inr q ↦ inr (ground (arith, get-set cache k j key, same_iff k j))
  ];
}

separate : IsSeparate numbers IsConfigured Serves
separate = record {
  apart = λ p q jwk kid s n c e. ground (arith, s, n, c, e, same_iff {A = String} "api" "k1");
}

fresh-IsManager : IsManager numbers IsConfigured Serves fresh
unfolding Dict.get
fresh-IsManager = record { known = λ at kid key e. absurd (ground arith) }

abbrev served : Option (List (List (Jwk ℕ)))
served = some ((a_key ∷ []) ∷ [])

validates : (validate numbers 5 served "k1" fresh).1 ≡ some ("https://issuer", "api", 77)
unfolding corshub.Jwks.validate_header zip Dict.get Dict.set
validates = refl

validate-Verified_example :
    Verified numbers IsConfigured Serves 5 "k1" ("https://issuer", "api", 77)
unfolding corshub.Jwks.validate_header zip Dict.get Dict.set
validate-Verified_example =
    validate-Verified numbers IsConfigured Serves numbers-IsCache 5 served "k1" fresh
      ("https://issuer", "api", 77) separate ((refl, (refl, tt)), tt) fresh-IsManager refl
