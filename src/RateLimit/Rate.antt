-- ===== src/RateLimit/Rate.antt =====
-- How many attempts a token bucket lets through.
use corshub.Prelude.{
  ℕ, ◌+◌, ◌*◌, ◌-◌, ◌≤◌, ◌<◌, ◌≡◌, refl, ap, Bool, true, false, Option, none, some, String, List,
  [], ◌∷◌, length, if◌then◌else◌, arith,
}
use corshub.RateLimit.{Bucket, TtlCache, Limits, charge, allow}

flowed : (u now r : ℕ) → u ≤ now → (now - u) * r + u * r ≡ now * r
flowed u now r h = let e : now - u + u ≡ now = omega arith in omega (arith, ap (λ (t : ℕ). t * r) e)

pub spent : Bool → ℕ → ℕ
spent allowed cost = if allowed then cost else 0

-- A charge takes what it allows out of what was there and what has flowed in since.
pub charge-spent :
    (l : Limits) (cost now : ℕ) (b : Bucket)
    → b.updated ≤ now
    → (charge l cost now (some b)).0.tokens
        + spent (charge l cost now (some b)).1 cost
        + b.updated * l.refill
      ≤ b.tokens + now * l.refill
unfolding charge spent
charge-spent l cost now b h = ground (arith, flowed b.updated now l.refill)

pub updated-charge :
    (l : Limits) (cost now : ℕ) (found : Option Bucket) → (charge l cost now found).0.updated ≡ now
unfolding charge
updated-charge l cost now found = ground arith

-- A new bucket starts full.
pub charge-new :
    (l : Limits) (cost now : ℕ)
    → (charge l cost now none).0.tokens + spent (charge l cost now none).1 cost ≤ l.capacity
unfolding charge spent
charge-new l cost now = ground arith

-- Whatever was stored, no bucket holds more than the capacity after a charge.
pub tokens-charge-le :
    (l : Limits) (cost now : ℕ) (found : Option Bucket)
    → (charge l cost now found).0.tokens ≤ l.capacity
unfolding charge
tokens-charge-le l cost now found = ground arith

-- The times follow one another with gaps below `ttl`.
abbrev pub Spaced : ℕ → ℕ → List ℕ → Type 0
Spaced ttl t [] = Unit {0}
Spaced ttl t (u ∷ us) = (t ≤ u) × (u < t + ttl) × Spaced ttl u us

abbrev pub last_time : ℕ → List ℕ → ℕ
last_time t [] = t
last_time t (u ∷ us) = last_time u us

pub spent-times :
    (allowed : Bool) (cost n : ℕ)
    → cost * ((if allowed then 1 else 0) + n) ≡ spent allowed cost + cost * n
unfolding spent
spent-times true cost n = omega arith
spent-times false cost n = omega arith

charge_new_allows :
    (l : Limits) (cost now : ℕ) → cost ≤ l.capacity → (charge l cost now none).1 ≡ true
unfolding charge
charge_new_allows l cost now h = ground arith

charge_allows :
    (l : Limits) (cost now : ℕ) (b : Bucket)
    → cost ≤ l.capacity
    → cost ≤ (now - b.updated) * l.refill
    → (charge l cost now (some b)).1 ≡ true
unfolding charge
charge_allows l cost now b h p = ground arith

module _ (c : TtlCache) (l : Limits) (cost : ℕ) (key : String) where
  -- The attempts of one client at the given times: how many of them are allowed.
  pub count_allowed : c.Store → List ℕ → ℕ
  count_allowed s [] = 0
  count_allowed s (t ∷ ts) =
      (if (allow c l cost s t key).1 then 1 else 0) + count_allowed (allow c l cost s t key).0 ts

  abbrev Holds : c.Store → Bucket → ℕ → Type 0
  Holds s b u = (now : ℕ) → u ≤ now → now < u + c.ttl → c.get s now key ≡ some b

  count_step :
      (s : c.Store) (t : ℕ) (ts : List ℕ) (found : Option Bucket)
      → c.get s t key ≡ found
      → cost * count_allowed s (t ∷ ts)
        ≡ spent (charge l cost t found).1 cost
          + cost * count_allowed (c.set s t key (charge l cost t found).0) ts
  unfolding count_allowed allow
  count_step s t ts found e = rw (spent-times, e)

  count-Holds :
      (s : c.Store) (b : Bucket) (u : ℕ) (ts : List ℕ)
      → b.updated ≡ u
      → Holds s b u
      → Spaced c.ttl u ts
      → cost * count_allowed s ts + u * l.refill ≤ b.tokens + last_time u ts * l.refill
  unfolding count_allowed
  count-Holds s b u [] e h sp = omega arith
  count-Holds s b u (t ∷ ts) e h sp =
      let b' = (charge l cost t (some b)).0 in
      omega (
        arith,
        count_step s t ts (some b) (h t sp.0 sp.1),
        charge-spent l cost t b (omega arith),
        ap (λ (x : ℕ). x * l.refill) e,
        count-Holds (c.set s t key b') b' t ts (updated-charge l cost t (some b))
            (λ now p q. c.get-set_self s t now key b' p q) sp.2,
      )

  -- A client that makes the only attempts on an empty cache, at time t and at the times ts after it,
  -- with gaps below the cache's time to live, is allowed attempts of a total cost of at most the
  -- capacity plus what is refilled between the first and the last attempt.
  count_allowed-le :
      (t : ℕ) (ts : List ℕ)
      → Spaced c.ttl t ts
      → cost * count_allowed c.empty (t ∷ ts) + t * l.refill
        ≤ l.capacity + last_time t ts * l.refill
  count_allowed-le t ts sp =
      let b = (charge l cost t none).0 in
      omega (
        arith,
        count_step c.empty t ts none (c.get-empty t key),
        charge-new l cost t,
        count-Holds (c.set c.empty t key b) b t ts (updated-charge l cost t none)
            (λ now p q. c.get-set_self c.empty t now key b p q) sp,
      )

  -- Attempts that wait, each time, until the refill has paid for one more.
  abbrev pub Paced : ℕ → List ℕ → Type 0
  Paced t [] = Unit {0}
  Paced t (u ∷ us) = (t ≤ u) × (u < t + c.ttl) × (cost ≤ (u - t) * l.refill) × Paced u us

  count-Paced :
      (s : c.Store) (b : Bucket) (u : ℕ) (ts : List ℕ)
      → cost ≤ l.capacity
      → b.updated ≡ u
      → Holds s b u
      → Paced u ts
      → count_allowed s ts ≡ length ts
  unfolding count_allowed allow
  count-Paced s b u [] fits e h sp = refl
  count-Paced s b u (t ∷ ts) fits e h sp =
      let b' = (charge l cost t (some b)).0 in
      rw
        (
          h t sp.0 sp.1,
          charge_allows l cost t b fits (rw e sp.2),
          count-Paced (c.set s t key b') b' t ts fits (updated-charge l cost t (some b))
              (λ now p q. c.get-set_self s t now key b' p q) sp.3,
        )
        (omega arith)

  -- A client whose attempts cost no more than the capacity and that waits before each attempt until
  -- the refill since the one before pays for it, with gaps below the cache's time to live, is never refused.
  count_allowed-all :
      (t : ℕ) (ts : List ℕ)
      → cost ≤ l.capacity
      → Paced t ts
      → count_allowed c.empty (t ∷ ts) ≡ length (t ∷ ts)
  unfolding count_allowed allow
  count_allowed-all t ts fits sp =
      let b = (charge l cost t none).0 in
      rw
        (
          c.get-empty t key,
          charge_new_allows l cost t fits,
          count-Paced (c.set c.empty t key b) b t ts fits (updated-charge l cost t none)
              (λ now p q. c.get-set_self c.empty t now key b p q) sp,
        )
        (omega arith)
