-- ===== src/Routes.antt =====
-- The admission of a base station: the PUT route of src/corshub/services/v1/ntrip/put.py up to its
-- stream, with `enforce_auth_rate_limit` of src/corshub/http/ratelimit.py. The steps run with no other
-- request between them. The description of a station, parsed of its Ntrip-STR header, is part of the
-- request.
pub mod Admission
pub mod Read
pub mod Upload
pub mod Stream
pub mod Session
use corshub.Prelude.{
  ℕ, ◌+◌, Bool, true, false, not, ◌&&◌, Option, none, some, String, List, [], ◌∷◌, map, leb, ◌==◌,
  if◌then◌else◌, same, nat_eq,
}
use corshub.Float.{Float}
use corshub.Mountpoint.{Metadata, no_metadata, codes}
use corshub.Caster.{NtripCaster, Result, ok, raise, register}
use corshub.Caster.Authentication.{Services, AuthReport, authenticate_base_station}
use corshub.RateLimit.{TtlCache, Limits, allow}

-- `str.lower` on one code; no other character becomes one of the words that are compared.
abbrev pub lower_code : ℕ → ℕ
lower_code c = if leb b'A' c && leb c b'Z' then c + 32 else c

unfoldable pub same_codes : List ℕ → List ℕ → Bool
same_codes [] [] = true
same_codes [] (_ ∷ _) = false
same_codes (_ ∷ _) [] = false
same_codes (a ∷ xs) (b ∷ ys) = a == b && same_codes xs ys

-- `a.lower() == b.lower()`
unfoldable pub same_lower : String → String → Bool
unfolding same_codes
same_lower a b = same_codes (map lower_code (codes a)) (map lower_code (codes b))

pub data Status : Type 0 where
  bad_request : Status
  unauthorized : Status
  rate_limited : Status
  not_found : Status
  server_error : Status

-- `enforce_auth_rate_limit`: whether the request goes on; without a limiter it does. An attempt
-- costs one token, in the units of the limiter.
unfoldable pub enforce_auth_rate_limit :
    (cache : TtlCache) → ℕ → Option Limits → cache.Store → ℕ → String → cache.Store × Bool
unfolding allow
enforce_auth_rate_limit cache one none s now client = (s, true)
enforce_auth_rate_limit cache one (some limits) s now client = allow cache limits one s now client

module _ (fl : Float) where
  -- What the Ntrip-STR header gives: there is none, or it is parsed, or the parser raises
  -- `ValueError`, or anything else, which is ignored.
  pub data Description : Type 0 where
    absent : Description
    described : Metadata fl → Description
    invalid : Description
    malformed : Description

  pub record PutRequest : Type 0 where
    pub ntrip_version : String
    pub content_type : String
    pub credentials : Option (String × String)
    pub client : String
    pub description : Description

  pub data Decision : Type 0 where
    refused : Status → Decision
    admitted : Decision

  unfoldable pub metadata_of : Description → Option (Metadata fl)
  metadata_of absent = some (no_metadata fl)
  metadata_of (described k) = some k
  metadata_of invalid = none
  metadata_of malformed = some (no_metadata fl)

  -- From the parsing of the description on.
  unfoldable pub admit_described :
      NtripCaster fl → ℕ → String → Option (Metadata fl) → NtripCaster fl × Decision
  admit_described c now mountpoint none = (c, refused bad_request)
  admit_described c now mountpoint (some meta) = elim (register fl c now mountpoint meta) [
    | raise _ ↦ (c, refused bad_request)
    | ok (d, _) ↦ (d, admitted)
  ]

  unfoldable pub admit_authenticated :
      Services
      → Bool
      → NtripCaster fl
      → ℕ
      → String
      → PutRequest
      → String × String
      → NtripCaster fl × Decision
  unfolding admit_described metadata_of
  admit_authenticated s opa c now mountpoint r (username, password) =
      if not (authenticate_base_station fl s opa c username password mountpoint).0
      then (c, refused unauthorized)
      else admit_described c now mountpoint (metadata_of r.description)

  module _ (cache : TtlCache) where
    -- From the test of the credentials on: the limiter's store, the caster and the decision.
    unfoldable pub admit_credentials :
        Services
        → Bool
        → ℕ
        → Option Limits
        → cache.Store
        → NtripCaster fl
        → ℕ
        → String
        → PutRequest
        → Option (String × String)
        → cache.Store × (NtripCaster fl × Decision)
    unfolding enforce_auth_rate_limit admit_authenticated
    admit_credentials s opa one limits store c now mountpoint r none =
        (store, (c, refused unauthorized))
    admit_credentials s opa one limits store c now mountpoint r (some credentials) =
        let (store, goes_on) = enforce_auth_rate_limit cache one limits store now r.client in
        if not goes_on
        then (store, (c, refused rate_limited))
        else (store, admit_authenticated s opa c now mountpoint r credentials)

    unfoldable pub admit_put :
        Services
        → Bool
        → ℕ
        → Option Limits
        → cache.Store
        → NtripCaster fl
        → ℕ
        → String
        → PutRequest
        → cache.Store × (NtripCaster fl × Decision)
    unfolding same_lower admit_credentials
    admit_put s opa one limits store c now mountpoint r =
        if not (same_lower r.ntrip_version "Ntrip/2.0")
        then (store, (c, refused bad_request))
        else if not (same_lower r.content_type "gnss/data")
        then (store, (c, refused bad_request))
        else admit_credentials s opa one limits store c now mountpoint r r.credentials
