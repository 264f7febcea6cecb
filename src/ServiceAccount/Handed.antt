-- ===== src/ServiceAccount/Handed.antt =====
-- Which tokens of the service account are handed out.
use corshub.Prelude.{
  ℕ, ◌+◌, ◌<◌, ◌≡◌, refl, ◌⊎◌, inl, inr, Option, none, some, String, List, [], ◌∷◌, ◌++◌, ltb, All,
  All-append, Bool-cases, ap, arith,
}
use corshub.ServiceAccount.{
  Configuration, Payload, TokenData, SlotCache, seconds_or, ServiceAccountTokenManager, init,
  token_data, fetch_token, unexpired, cached_token, Event, asks, arrives, HandedOut, at_time, step,
}

module _ (cache : SlotCache) where
  -- The cache gives nothing but what was last stored.
  pub record IsSlot : Type 0 where
    pub get-empty : (now : ℕ) → cache.get cache.empty now ≡ none
    pub get-set :
        (s : cache.Store) (t now : ℕ) (stored found : TokenData)
        → cache.get (cache.set s t stored) now ≡ some found
        → stored ≡ found

  unfoldable pub handed :
      ServiceAccountTokenManager cache → List (Event cache) → List (HandedOut cache)
  unfolding step
  handed m [] = []
  handed m (e ∷ es) = (step cache m e).1 ++ handed (step cache m e).0 es

  module _ (Given : ℕ → Payload → Type 0) where
    abbrev pub GivenAt : Event cache → Type 0
    GivenAt (asks now) = Unit {0}
    GivenAt (arrives now payload) = Given now payload

    -- The token was in an answer that has just arrived, or in one that is valid for more than another
    -- minute.
    pub record IsFresh (h : HandedOut cache) : Type 0 where
      pub arrived : ℕ
      pub payload : Payload
      pub given : Given arrived payload
      pub same_token : payload.access_token ≡ h.1
      pub valid : (arrived ≡ h.0) ⊎ (h.0 + 60 < arrived + seconds_or payload.expires_in 3600)

    -- An answer that stores this.
    abbrev Origin : TokenData → Type 0
    Origin found =
        (arrived : ℕ) × (payload : Payload) × Given arrived payload
        × (token_data cache arrived payload ≡ found)

    -- What is stored at any time comes from an answer.
    abbrev Holds : ServiceAccountTokenManager cache → Type 0
    Holds m = (now : ℕ) (found : TokenData) → cache.get m.store now ≡ some found → Origin found

    unexpired-IsFresh :
        (now : ℕ) (token : Option String) (expiry : ℕ)
        → Origin (token, expiry)
        → All IsFresh (at_time cache now (unexpired cache now (some (token, expiry))))
    unfolding token_data
    unexpired-IsFresh now token expiry (arrived, payload, given, e) =
        elim (Bool-cases (ltb now expiry)) [
          | inl q ↦ rw q (
            record {
              arrived = arrived;
              payload = payload;
              given = given;
              same_token = ap (λ (d : TokenData). d.0) e;
              valid = inr (ground (arith, q, ap (λ (d : TokenData). d.1) e));
            },
            tt,
          )
          | inr q ↦ rw q tt
        ]

    found-IsFresh :
        (now : ℕ) (o : Option TokenData)
        → ((found : TokenData) → o ≡ some found → Origin found)
        → All IsFresh (at_time cache now (unexpired cache now o))
    found-IsFresh now none h = tt
    found-IsFresh now (some (token, expiry)) h =
        unexpired-IsFresh now token expiry (h (token, expiry) refl)

    step-IsFresh :
        (m : ServiceAccountTokenManager cache) (e : Event cache)
        → Holds m
        → GivenAt e
        → All IsFresh (step cache m e).1
    unfolding step cached_token fetch_token
    step-IsFresh m (asks now) h g = found-IsFresh now (cache.get m.store now) (h now)
    step-IsFresh m (arrives now payload) h g = (
      record { arrived = now; payload = payload; given = g; same_token = refl; valid = inl refl },
      tt,
    )

    module _ (slot : IsSlot) where
      step-Holds :
          (m : ServiceAccountTokenManager cache) (e : Event cache)
          → Holds m
          → GivenAt e
          → Holds (step cache m e).0
      unfolding step fetch_token
      step-Holds m (asks now) h g at found e = h at found e
      step-Holds m (arrives now payload) h g at found e =
          (now, payload, g, slot.get-set m.store now at (token_data cache now payload) found e)

      handed_from-IsFresh :
          (m : ServiceAccountTokenManager cache) (es : List (Event cache))
          → Holds m
          → All GivenAt es
          → All IsFresh (handed m es)
      unfolding handed
      handed_from-IsFresh m [] h g = tt
      handed_from-IsFresh m (e ∷ es) h (g, gs) =
          All-append IsFresh (step cache m e).1 _ (step-IsFresh m e h g)
            (handed_from-IsFresh (step cache m e).0 es (step-Holds m e h g) gs)

      -- Whatever calls are made of a new manager, at any times and with any number of them waiting, each
      -- token that is handed out stood in an answer that the provider gave: one that arrives at
      -- this moment, or one that is valid for more than another minute, if an answer without a
      -- validity counts as one of an hour. The cache may only give what was last stored.
      pub handed-IsFresh :
          (configuration : Configuration) (es : List (Event cache))
          → All GivenAt es
          → All IsFresh (handed (init cache configuration) es)
      handed-IsFresh configuration es g =
          handed_from-IsFresh (init cache configuration) es
            (λ now found e. ground (arith, slot.get-empty now, e)) g
