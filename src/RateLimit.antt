-- ===== src/RateLimit.antt =====
-- `RateLimiter` of src/corshub/http/ratelimit.py: a token bucket for each fingerprint.
-- Tokens, costs and times are whole numbers of a unit that the program writes as floats; the refill
-- is in tokens for each unit of time. The cache of buckets is a parameter, `TtlCache`.
pub mod Rate
pub mod Unforgetting
pub mod Clients
use Prim.Native.Nat.{min}
use corshub.Prelude.{
  ℕ, ◌+◌, ◌*◌, ◌-◌, ◌≤◌, ◌<◌, ◌≡◌, Bool, true, false, Option, none, some, String, List, [], ◌∷◌,
  leb, if◌then◌else◌,
}

pub record Bucket : Type 0 where
  pub tokens : ℕ
  pub updated : ℕ

-- What the limiter relies on of `cachetools.TTLCache`: an entry is there until its time to live has
-- passed since it was stored, if nothing is stored after it.
pub record TtlCache : Type 1 where
  pub Store : Type 0
  pub empty : Store
  pub ttl : ℕ
  pub get : Store → ℕ → String → Option Bucket
  pub set : Store → ℕ → String → Bucket → Store
  pub get-empty : (now : ℕ) (k : String) → get empty now k ≡ none
  pub get-set_self :
      (s : Store) (t now : ℕ) (k : String) (b : Bucket)
      → t ≤ now
      → now < t + ttl
      → get (set s t k b) now k ≡ some b

pub record Limits : Type 0 where
  pub capacity : ℕ
  pub refill : ℕ

-- The bucket that `allow` works on: a new one is full, an old one is refilled up to the capacity.
unfoldable pub refilled : Limits → ℕ → Option Bucket → Bucket
refilled l now none = record { tokens = l.capacity; updated = now }
refilled l now (some b) = record {
  tokens = min l.capacity (b.tokens + (now - b.updated) * l.refill);
  updated = now;
}

-- `allow` between the reading and the writing of the cache: the bucket, and whether it allows.
unfoldable pub charge : Limits → ℕ → ℕ → Option Bucket → Bucket × Bool
unfolding refilled
charge l cost now found =
    let b = refilled l now found in
    if leb cost b.tokens then (record b { tokens = b.tokens - cost }, true) else (b, false)

module _ (c : TtlCache) where
  unfoldable pub allow : Limits → ℕ → c.Store → ℕ → String → c.Store × Bool
  unfolding charge
  allow l cost s now key =
      let (b, allowed) = charge l cost now (c.get s now key) in (c.set s now key b, allowed)
