-- ===== src/ServiceAccount.antt =====
-- The token of the service account: `ServiceAccountTokenManager` of src/corshub/jwt.py. Times are whole
-- seconds. The exchange with the provider and the cache of cachetools are parameters.
pub mod Handed
use corshub.Prelude.{
  ℕ, ◌+◌, ◌-◌, Bool, true, false, Option, none, some, String, List, [], ◌∷◌, ltb, if◌then◌else◌,
}

pub record Configuration : Type 0 where
  pub aud : String
  pub token_endpoint : String
  pub client_id : String
  pub username : String
  pub password : String

-- The fields of the provider's answer that are read.
pub record Payload : Type 0 where
  pub access_token : Option String
  pub expires_in : Option ℕ

-- A token, and the time until which it is given out.
abbrev pub TokenData : Type 0
TokenData = Option String × ℕ

-- The cache with its one key: what is read at a time.
pub record SlotCache : Type 1 where
  pub Store : Type 0
  pub empty : Store
  pub get : Store → ℕ → Option TokenData
  pub set : Store → ℕ → TokenData → Store

abbrev pub seconds_or : Option ℕ → ℕ → ℕ
seconds_or none n = n
seconds_or (some s) n = s

module _ (cache : SlotCache) where
  pub record ServiceAccountTokenManager : Type 0 where
    pub configuration : Configuration
    pub store : cache.Store

  abbrev pub init : Configuration → ServiceAccountTokenManager
  init configuration = record { configuration = configuration; store = cache.empty }

  -- What `_fetch_token` stores for an answer at its arrival: it expires a minute early. A difference
  -- below zero is in the past, as is 0.
  unfoldable pub token_data : ℕ → Payload → TokenData
  token_data now payload = (payload.access_token, now + seconds_or payload.expires_in 3600 - 60)

  -- `_fetch_token` from the arrival of the answer on: the manager, and the token.
  unfoldable pub fetch_token :
      ℕ → Payload → ServiceAccountTokenManager → ServiceAccountTokenManager × Option String
  unfolding token_data
  fetch_token now payload m =
      (record m { store = cache.set m.store now (token_data now payload) }, payload.access_token)

  abbrev pub unexpired : ℕ → Option TokenData → Option (Option String)
  unexpired now none = none
  unexpired now (some (token, expiry)) = if ltb now expiry then some token else none

  -- `token` up to its request: the token that is returned at once; `none` goes on with a request.
  unfoldable pub cached_token : ℕ → ServiceAccountTokenManager → Option (Option String)
  cached_token now m = unexpired now (cache.get m.store now)

  -- A call of `token`, and the arrival of an answer to a call that went on. Any number of calls may
  -- wait for answers.
  pub data Event : Type 0 where
    asks : ℕ → Event
    arrives : ℕ → Payload → Event

  -- A token, with the time at which it is returned.
  abbrev pub HandedOut : Type 0
  HandedOut = ℕ × Option String

  abbrev pub at_time : ℕ → Option (Option String) → List HandedOut
  at_time now none = []
  at_time now (some token) = (now, token) ∷ []

  unfoldable pub step :
      ServiceAccountTokenManager → Event → ServiceAccountTokenManager × List HandedOut
  unfolding cached_token fetch_token
  step m (asks now) = (m, at_time now (cached_token now m))
  step m (arrives now payload) =
      let (m', token) = fetch_token now payload m in (m', (now, token) ∷ [])

-- The context of the application.
pub record Context (cache : SlotCache) : Type 0 where
  pub token_manager : Option (ServiceAccountTokenManager cache)
  pub sa_token_manager : Option (ServiceAccountTokenManager cache)

unfoldable pub register : {cache : SlotCache} → Context cache → Configuration → Context cache
register {cache} ctx configuration = elim ctx.token_manager [
  | none ↦ record ctx { sa_token_manager = some (init cache configuration) }
  | some _ ↦ ctx
]
