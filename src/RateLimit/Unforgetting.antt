-- ===== src/RateLimit/Unforgetting.antt =====
-- What the cache of the limiter may forget: the limiter beside one that keeps every bucket.
use corshub.Prelude.{
  ℕ, ◌+◌, ◌*◌, ◌-◌, ◌≤◌, ◌≡◌, refl, ap, Bool, true, false, ◌||◌, length, Option, none, some, String,
  List, [], ◌∷◌, ltb, if◌then◌else◌, same, string_eq, arith, Bool-cases, inl, inr,
}
use corshub.Dict
use corshub.Dict.{Dict, get-set}
use corshub.RateLimit.{Bucket, TtlCache, Limits, charge, allow}
use corshub.RateLimit.Rate.{updated-charge}

-- A limiter that never forgets a client.
abbrev pub Ledger : Type 0
Ledger = Dict String Bucket

unfoldable pub allow_ledger : Limits → ℕ → Ledger → ℕ → String → Ledger × Bool
allow_ledger l cost d now key =
    let (b, allowed) = charge l cost now (Dict.get d key) in (Dict.set d key b, allowed)

-- Attempts of any clients, each at its time, none before the one above it.
abbrev pub Attempts : Type 0
Attempts = List (ℕ × String)

abbrev pub Ordered : ℕ → Attempts → Type 0
Ordered t [] = Unit {0}
Ordered t ((u, key) ∷ rest) = (t ≤ u) × Ordered u rest

unfoldable pub has : List String → String → Bool
has [] key = false
has (k ∷ known) key = same k key || has known key

-- The attempts are of these clients only.
abbrev pub Among : List String → Attempts → Type 0
Among known [] = Unit {0}
Among known ((t, key) ∷ rest) = (has known key ≡ true) × Among known rest

-- What was stored in a cache, the latest first: the time, the key and the bucket.
abbrev pub Past : Type 0
Past = List (ℕ × String × Bucket)

-- It was stored under these keys only, at times that do not go back and are not after now.
abbrev pub IsPast : List String → ℕ → Past → Type 0
IsPast known now [] = Unit {0}
IsPast known now ((t, key, b) ∷ past) = (t ≤ now) × (has known key ≡ true) × IsPast known t past

pub IsPast-later :
    (known : List String) (u now : ℕ) (past : Past)
    → u ≤ now
    → IsPast known u past
    → IsPast known now past
IsPast-later known u now [] h w = tt
IsPast-later known u now ((t, key, b) ∷ past) h (k, mine, w) = (omega arith, mine, w)

-- The bucket that was stored last under a key, if its time to live has not passed.
abbrev pub last_for : ℕ → Past → ℕ → String → Option Bucket
last_for ttl [] now j = none
last_for ttl ((t, key, b) ∷ past) now j =
    let before = last_for ttl past now j in
    if same key j then (if ltb now (t + ttl) then some b else none) else before

unfoldable pub ledger_answers : Limits → ℕ → Ledger → Attempts → List Bool
ledger_answers l cost d [] = []
ledger_answers l cost d ((t, key) ∷ rest) =
    (allow_ledger l cost d t key).1 ∷ ledger_answers l cost (allow_ledger l cost d t key).0 rest

flows_full :
    (tokens time ttl refill capacity : ℕ)
    → capacity ≤ ttl * refill
    → ttl ≤ time
    → capacity ≤ tokens + time * refill
flows_full tokens time ttl refill capacity h k =
    let e : time ≡ ttl + (time - ttl) = omega arith in omega (arith, ap (λ (t : ℕ). t * refill) e)

-- What a bucket that the cache gives has to do with the one that is kept: they are the same, or the
-- cache has forgotten one that is full again.
data Stands (l : Limits) (now : ℕ) : Option Bucket → Option Bucket → Type 0 where
  kept : (o : Option Bucket) → Stands l now o o
  refilled_since :
      (b : Bucket)
      → l.capacity ≤ b.tokens + (now - b.updated) * l.refill
      → Stands l now none (some b)

charge-Stands :
    (l : Limits) (cost now : ℕ) {o p : Option Bucket}
    → Stands l now o p
    → charge l cost now o ≡ charge l cost now p
unfolding charge
charge-Stands l cost now (kept o) = refl
charge-Stands l cost now (refilled_since b h) = ground arith

module _ (c : TtlCache) where
  unfoldable pub answers : Limits → ℕ → c.Store → Attempts → List Bool
  unfolding allow
  answers l cost s [] = []
  answers l cost s ((t, key) ∷ rest) =
      (allow c l cost s t key).1 ∷ answers l cost (allow c l cost s t key).0 rest

  -- A store after what was stored in it, the latest first.
  abbrev pub stored : Past → c.Store
  stored [] = c.empty
  stored ((t, key, b) ∷ past) = c.set (stored past) t key b

  -- The cache has room for `maxsize` keys: as long as no more were ever stored in it, it forgets an
  -- entry only when its time to live has passed. With more keys it may give up any of them.
  pub record IsBounded (maxsize : ℕ) : Type 0 where
    pub get-stored :
        (known : List String) (past : Past) (now : ℕ) (key : String)
        → length known ≤ maxsize
        → IsPast known now past
        → c.get (stored past) now key ≡ last_for c.ttl past now key

  module _ (l : Limits) (cost maxsize : ℕ) (bounded : IsBounded maxsize)
      (long : l.capacity ≤ c.ttl * l.refill) (known : List String)
      (few : length known ≤ maxsize) where
    abbrev Simulates : ℕ → Past → Ledger → Type 0
    Simulates u past d =
        (now : ℕ) (key : String)
        → u ≤ now
        → Stands l now (last_for c.ttl past now key) (Dict.get d key)

    stored-Stands :
        (t now : ℕ) (b : Bucket)
        → t ≤ now
        → b.updated ≡ t
        → Stands l now (if ltb now (t + c.ttl) then some b else none) (some b)
    stored-Stands t now b h e = elim (Bool-cases (ltb now (t + c.ttl))) [
      | inl q ↦ rw q (kept (some b))
      | inr q ↦ rw q (
          refilled_since b
            (flows_full b.tokens (now - b.updated) c.ttl l.refill l.capacity long (ground arith)))
    ]

    set-Simulates :
        (u t : ℕ) (past : Past) (d : Ledger) (key : String) (b : Bucket)
        → u ≤ t
        → b.updated ≡ t
        → Simulates u past d
        → Simulates t ((t, key, b) ∷ past) (Dict.set d key b)
    set-Simulates u t past d key b h e sim now j later =
        rw (get-set d key j b) (elim (Bool-cases (same key j)) [
          | inl q ↦ rw q (stored-Stands t now b later e)
          | inr q ↦ rw q (sim now j (omega arith))
        ])

    answers-Simulates :
        (u : ℕ) (past : Past) (d : Ledger) (attempts : Attempts)
        → Simulates u past d
        → IsPast known u past
        → Ordered u attempts
        → Among known attempts
        → answers l cost (stored past) attempts ≡ ledger_answers l cost d attempts
    unfolding answers ledger_answers allow allow_ledger
    answers-Simulates u past d [] sim w o among = refl
    answers-Simulates u past d ((t, key) ∷ rest) sim w (h, o) (mine, among) =
        let w' = IsPast-later known u t past h w in
        let found = c.get (stored past) t key in
        let b = (charge l cost t found).0 in
        let stands : Stands l t found (Dict.get d key) =
          rw (bounded.get-stored known past t key few w') (sim t key h) in
        rw (← charge-Stands l cost t stands) (
          ap (λ bs. (charge l cost t found).1 ∷ bs)
            (answers-Simulates t ((t, key, b) ∷ past) (Dict.set d key b) rest
              (set-Simulates u t past d key b h (updated-charge l cost t found) sim)
              (omega arith, mine, w') o among))

    -- Attempts at times that do not go back, of no more clients than the cache has room for, are
    -- answered as by a limiter that keeps the bucket of every client for ever, if such a cache
    -- forgets an entry only when its time to live has passed and a bucket is refilled from empty
    -- to full within this time.
    pub answers-ledger_answers :
        (t : ℕ) (attempts : Attempts)
        → Ordered t attempts
        → Among known attempts
        → answers l cost c.empty attempts ≡ ledger_answers l cost [] attempts
    unfolding Dict.get
    answers-ledger_answers t attempts o among =
        answers-Simulates t [] [] attempts (λ now key h. kept none) tt o among
