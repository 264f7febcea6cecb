-- ===== src/RateLimit/Clients.antt =====
-- What the limiter lets one client do amid the attempts of the others.
use corshub.Prelude.{
  ℕ, ◌+◌, ◌*◌, ◌-◌, ◌≤◌, ◌≡◌, refl, ap, Bool, Option, none, some, String, List, [], ◌∷◌, ◌&&◌,
  if◌then◌else◌, same, same_iff, string_eq, length, arith, Bool-cases, inl, inr, true, false,
}
use corshub.Dict
use corshub.Dict.{Dict, get-set}
use corshub.RateLimit.{Bucket, TtlCache, Limits, charge}
use corshub.RateLimit.Rate.{spent, charge-spent, charge-new, updated-charge, spent-times}
use corshub.RateLimit.Unforgetting.{
  Ledger, Attempts, Ordered, Among, allow_ledger, ledger_answers, answers, IsBounded,
  answers-ledger_answers,
}

-- How many of the attempts of a client are allowed, in the answers to the attempts of all.
unfoldable pub allowed_of : String → Attempts → List Bool → ℕ
allowed_of key [] answered = 0
allowed_of key (a ∷ rest) [] = 0
allowed_of key ((t, k) ∷ rest) (b ∷ answered) =
    (if same k key && b then 1 else 0) + allowed_of key rest answered

abbrev pub last_attempt : ℕ → Attempts → ℕ
last_attempt t [] = t
last_attempt t ((u, key) ∷ rest) = last_attempt u rest

mul_le : (t u r : ℕ) → t ≤ u → t * r ≤ u * r
mul_le t u r h = let e : u ≡ t + (u - t) = omega arith in omega (arith, ap (λ (x : ℕ). x * r) e)

module _ (l : Limits) (cost : ℕ) (key : String) where
  -- The attempt of the client, and of another.
  mine :
      (d : Ledger) (t : ℕ) (k : String) (rest : Attempts)
      → same k key ≡ true
      → cost * allowed_of key ((t, k) ∷ rest) (ledger_answers l cost d ((t, k) ∷ rest))
        ≡ spent (allow_ledger l cost d t k).1 cost
          + cost * allowed_of key rest (ledger_answers l cost (allow_ledger l cost d t k).0 rest)
  unfolding allowed_of ledger_answers
  mine d t k rest e = rw e (spent-times _ cost _)

  other :
      (d : Ledger) (t : ℕ) (k : String) (rest : Attempts)
      → same k key ≡ false
      → allowed_of key ((t, k) ∷ rest) (ledger_answers l cost d ((t, k) ∷ rest))
        ≡ allowed_of key rest (ledger_answers l cost (allow_ledger l cost d t k).0 rest)
  unfolding allowed_of ledger_answers
  other d t k rest e = rw e (omega arith)

  kept :
      (d : Ledger) (t : ℕ) (k : String)
      → same k key ≡ false
      → Dict.get (allow_ledger l cost d t k).0 key ≡ Dict.get d key
  unfolding allow_ledger
  kept d t k e = rw (get-set d k key, e) refl

  charged :
      (d : Ledger) (t : ℕ) (k : String) (o : Option Bucket)
      → same k key ≡ true
      → Dict.get d key ≡ o
      → (Dict.get (allow_ledger l cost d t k).0 key ≡ some (charge l cost t o).0)
        × ((allow_ledger l cost d t k).1 ≡ (charge l cost t o).1)
  unfolding allow_ledger
  charged d t k o e h =
      let same_key : k ≡ key = ground (arith, e, same_iff k key) in
      let found : Dict.get d k ≡ o = rw same_key h in rw (get-set d k key, e, found) (refl, refl)

  -- From a bucket on, what is allowed is paid for by its tokens and by the refill.
  found-le :
      (d : Ledger) (b : Bucket) (u : ℕ) (attempts : Attempts)
      → Dict.get d key ≡ some b
      → b.updated ≤ u
      → Ordered u attempts
      → cost * allowed_of key attempts (ledger_answers l cost d attempts) + b.updated * l.refill
        ≤ b.tokens + last_attempt u attempts * l.refill
  unfolding allowed_of
  found-le d b u [] h e o = omega (arith, mul_le b.updated u l.refill e)
  found-le d b u ((t, k) ∷ rest) h e (p, o) = elim (Bool-cases (same k key)) [
    | inl q ↦
        let (g, a) = charged d t k (some b) q h in
        let new = charge l cost t (some b) in
        let now : new.0.updated ≡ t = updated-charge l cost t (some b) in
        omega (
          arith,
          mine d t k rest q,
          ap (λ x. spent x cost) a,
          charge-spent l cost t b (omega arith),
          ap (λ (x : ℕ). x * l.refill) now,
          found-le (allow_ledger l cost d t k).0 new.0 t rest g (omega (arith, now)) o,
        )
    | inr q ↦
        rw (other d t k rest q)
          (found-le (allow_ledger l cost d t k).0 b t rest (rw (kept d t k q) h) (omega arith) o)
  ]

  -- A client without a bucket gets a full one.
  unfound-le :
      (d : Ledger) (u : ℕ) (attempts : Attempts)
      → Dict.get d key ≡ none
      → Ordered u attempts
      → cost * allowed_of key attempts (ledger_answers l cost d attempts) + u * l.refill
        ≤ l.capacity + last_attempt u attempts * l.refill
  unfolding allowed_of
  unfound-le d u [] h o = omega arith
  unfound-le d u ((t, k) ∷ rest) h (p, o) = elim (Bool-cases (same k key)) [
    | inl q ↦
        let (g, a) = charged d t k none q h in
        let new = charge l cost t none in
        let now : new.0.updated ≡ t = updated-charge l cost t none in
        omega (
          arith,
          mine d t k rest q,
          ap (λ x. spent x cost) a,
          charge-new l cost t,
          ap (λ (x : ℕ). x * l.refill) now,
          mul_le u t l.refill p,
          found-le (allow_ledger l cost d t k).0 new.0 t rest g (omega (arith, now)) o,
        )
    | inr q ↦ omega (
      arith,
      ap (λ (x : ℕ). cost * x) (other d t k rest q),
      mul_le u t l.refill p,
      unfound-le (allow_ledger l cost d t k).0 t rest (rw (kept d t k q) h) o,
    )
  ]

module _ (c : TtlCache) (l : Limits) (cost : ℕ) (key : String) where
  -- Whatever the other clients do in between, the attempts of one client that are allowed cost in
  -- all at most the capacity plus what is refilled from the time t on, which no attempt is before,
  -- up to the last attempt of any client. The times do not go back, there are no more clients than
  -- the cache, which is empty at first, has room for, such a cache forgets an entry only when its
  -- time to live has passed, and a bucket is refilled from empty to full within this time.
  pub allowed_of-answers-le :
      (maxsize : ℕ) (known : List String) (t : ℕ) (attempts : Attempts)
      → IsBounded c maxsize
      → l.capacity ≤ c.ttl * l.refill
      → length known ≤ maxsize
      → Ordered t attempts
      → Among known attempts
      → cost * allowed_of key attempts (answers c l cost c.empty attempts) + t * l.refill
        ≤ l.capacity + last_attempt t attempts * l.refill
  unfolding Dict.get
  allowed_of-answers-le maxsize known t attempts bounded long few o among =
      rw (answers-ledger_answers c l cost maxsize bounded long known few t attempts o among)
        (unfound-le l cost key [] t attempts refl o)
