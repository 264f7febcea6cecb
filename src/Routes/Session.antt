-- ===== src/Routes/Session.antt =====
-- The route that mints a session token: src/corshub/services/v1/rtcm/session.py.
pub mod Bootstrap
use corshub.Prelude.{ℕ, Bool, true, false, not, Option, none, some, String, if◌then◌else◌}
use corshub.Mountpoint.{is_empty}
use corshub.Caster.Authentication.{Services, authenticate_rover}
use corshub.RateLimit.{TtlCache, Limits}
use corshub.Tokens.{Jwt, issue_session_token}
use corshub.Routes.{
  Status, bad_request, unauthorized, rate_limited, not_found, server_error, enforce_auth_rate_limit,
}

-- The part of the configuration that the route reads.
pub record RtcmConfig : Type 0 where
  pub enabled : Bool
  pub token_secret : String
  pub token_ttl : ℕ
  pub udp_endpoint : String

-- The body: no JSON, JSON that is true and no object, or an object (or nothing) with its field
-- `mountpoint`, if that is a text.
pub data JsonBody : Type 0 where
  malformed : JsonBody
  not_object : JsonBody
  object : Option String → JsonBody

pub record SessionRequest : Type 0 where
  pub credentials : Option (String × String)
  pub client : String
  pub body : JsonBody

pub record Minted : Type 0 where
  pub token : String
  pub udp_endpoint : String
  pub signing_kid : Option String

pub data Answer : Type 0 where
  denied : Status → Answer
  minted : Minted → Answer

-- `kid` is that of the signing key, if there is one; `now` the clock of the tokens.
unfoldable pub mint :
    Jwt → Services → Bool → RtcmConfig → Option String → ℕ → String × String → String → Answer
unfolding issue_session_token
mint jwt s opa config kid now (username, password) mountpoint =
    if not (authenticate_rover s opa username password mountpoint).0.0
    then denied unauthorized
    else minted record {
      token = issue_session_token jwt now config.token_secret username mountpoint config.token_ttl;
      udp_endpoint = config.udp_endpoint;
      signing_kid = kid;
    }

module _ (cache : TtlCache) where
  -- From the rate limit on.
  unfoldable pub mint_limited :
      Jwt
      → Services
      → Bool
      → RtcmConfig
      → Option String
      → ℕ
      → Option Limits
      → cache.Store
      → ℕ
      → ℕ
      → String
      → String × String
      → String
      → cache.Store × Answer
  unfolding enforce_auth_rate_limit mint
  mint_limited jwt s opa config kid one limits store monotonic now client credentials mountpoint =
      let (store, goes_on) = enforce_auth_rate_limit cache one limits store monotonic client in
      if not goes_on
      then (store, denied rate_limited)
      else (store, mint jwt s opa config kid now credentials mountpoint)

  -- From the body on.
  unfoldable pub mint_for :
      Jwt
      → Services
      → Bool
      → RtcmConfig
      → Option String
      → ℕ
      → Option Limits
      → cache.Store
      → ℕ
      → ℕ
      → String
      → String × String
      → JsonBody
      → cache.Store × Answer
  unfolding mint_limited
  mint_for jwt s opa config kid one limits store monotonic now client credentials malformed =
      (store, denied bad_request)
  mint_for jwt s opa config kid one limits store monotonic now client credentials not_object =
      (store, denied server_error)
  mint_for jwt s opa config kid one limits store monotonic now client credentials (object none) =
      (store, denied bad_request)
  mint_for jwt s opa config kid one limits store monotonic now client credentials
        (object (some mountpoint)) =
      if is_empty mountpoint
      then (store, denied bad_request)
      else mint_limited jwt s opa config kid one limits store monotonic now client credentials
          mountpoint

  unfoldable pub mint_with :
      Jwt
      → Services
      → Bool
      → RtcmConfig
      → Option String
      → ℕ
      → Option Limits
      → cache.Store
      → ℕ
      → ℕ
      → String
      → Option (String × String)
      → JsonBody
      → cache.Store × Answer
  unfolding mint_for
  mint_with jwt s opa config kid one limits store monotonic now client none body =
      (store, denied unauthorized)
  mint_with jwt s opa config kid one limits store monotonic now client (some credentials) body =
      mint_for jwt s opa config kid one limits store monotonic now client credentials body

  unfoldable pub create_session :
      Jwt
      → Services
      → Bool
      → RtcmConfig
      → Option String
      → ℕ
      → Option Limits
      → cache.Store
      → ℕ
      → ℕ
      → SessionRequest
      → cache.Store × Answer
  unfolding mint_with
  create_session jwt s opa config kid one limits store monotonic now q =
      if not config.enabled
      then (store, denied not_found)
      else mint_with jwt s opa config kid one limits store monotonic now q.client q.credentials
          q.body
