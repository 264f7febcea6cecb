-- ===== src/Tests/Limiter.antt =====
-- Tests of the rate limiter over several clients, with a cache that has room for two.
use corshub.Prelude.{
  ℕ, ◌+◌, ◌*◌, ◌<◌, ◌≤◌, ◌≡◌, refl, ◌∙◌, true, false, Option, none, some, List, [], ◌∷◌, ltb,
  if◌then◌else◌, same, same_iff, same_refl, length, String, string_eq, arith, Bool-cases, inl, inr,
}
use corshub.RateLimit.{Bucket, TtlCache, Limits}
use corshub.RateLimit.Unforgetting.{
  Attempts, Past, IsPast, IsPast-later, stored, last_for, has, answers, ledger_answers, IsBounded,
  answers-ledger_answers,
}
use corshub.RateLimit.Clients.{allowed_of, allowed_of-answers-le}

abbrev Entry : Type 0
Entry = ℕ × String × Bucket

abbrev fresh : ℕ → Entry → Option Bucket
fresh now (t, key, b) = if ltb now (t + 10) then some b else none

abbrev find : List Entry → ℕ → String → Option Bucket
find [] now k = none
find (e ∷ es) now k = let rest = find es now k in if same e.1 k then fresh now e else rest

-- A third key takes the place of the one that was not stored last.
abbrev store : List Entry → Entry → List Entry
store [] e = e ∷ []
store (a ∷ []) e = if same a.1 e.1 then e ∷ [] else e ∷ a ∷ []
store (a ∷ b ∷ more) e = if same a.1 e.1 then e ∷ b ∷ [] else e ∷ a ∷ []

find-store_same :
    (s : List Entry) (e : Entry) (now : ℕ) (j : String)
    → same e.1 j ≡ true
    → find (store s e) now j ≡ fresh now e
find-store_same [] e now j h = ground (arith, h)
find-store_same (a ∷ []) e now j h = ground (arith, h)
find-store_same (a ∷ b ∷ more) e now j h = ground (arith, h)

fresh_lem : (t now : ℕ) (k : String) (b : Bucket) → now < t + 10 → fresh now (t, k, b) ≡ some b
fresh_lem t now k b h = ground arith

abbrev small_cache : TtlCache
small_cache = record {
  Store = List Entry;
  empty = [];
  ttl = 10;
  get = find;
  set = λ s now k b. store s (now, k, b);
  get-empty = λ now k. refl;
  get-set_self =
      λ s t now k b p q. find-store_same s (t, k, b) now k (same_refl k) ∙ fresh_lem t now k b q;
}

-- At most two entries, of known keys.
abbrev IsKept : List String → List Entry → Type 0
IsKept known [] = Unit
IsKept known (a ∷ []) = has known a.1 ≡ true
IsKept known (a ∷ b ∷ []) = (has known a.1 ≡ true) × (has known b.1 ≡ true)
IsKept known (a ∷ b ∷ c ∷ more) = true ≡ false

store-IsKept :
    (known : List String) (s : List Entry) (e : Entry)
    → IsKept known s
    → has known e.1 ≡ true
    → IsKept known (store s e)
store-IsKept known [] e v h = h
store-IsKept known (a ∷ []) e v h = elim (Bool-cases (same a.1 e.1)) [
  | inl q ↦ rw q h
  | inr q ↦ rw q (h, v)
]
store-IsKept known (a ∷ b ∷ []) e v h = elim (Bool-cases (same a.1 e.1)) [
  | inl q ↦ rw q (h, v.1)
  | inr q ↦ rw q (h, v.0)
]
store-IsKept known (a ∷ b ∷ c ∷ more) e v h = absurd (ground arith)

-- Three keys do not fit among two.
third_key :
    (known : List String) (a b c : String)
    → length known ≤ 2
    → has known a ≡ true
    → has known b ≡ true
    → has known c ≡ true
    → same a b ≡ false
    → same b c ≡ false
    → same a c ≡ true
unfolding has
third_key [] a b c few p q r h k = absurd (ground arith)
third_key (x ∷ []) a b c few p q r h k = ground (arith, same_iff x a, same_iff x b, same_iff a b)
third_key (x ∷ y ∷ []) a b c few p q r h k = ground (
  arith,
  same_iff x a,
  same_iff x b,
  same_iff x c,
  same_iff y a,
  same_iff y b,
  same_iff y c,
  same_iff a b,
  same_iff b c,
  same_iff a c,
)
third_key (x ∷ y ∷ z ∷ more) a b c few p q r h k = absurd (omega arith)

find-store :
    (known : List String) (s : List Entry) (e : Entry) (now : ℕ) (j : String)
    → length known ≤ 2
    → IsKept known s
    → has known e.1 ≡ true
    → same e.1 j ≡ false
    → find (store s e) now j ≡ find s now j
find-store known [] e now j few v h k = ground (arith, k)
find-store known (a ∷ []) e now j few v h k = ground (arith, k, same_iff a.1 e.1)
find-store known (a ∷ b ∷ []) e now j few v h k = elim (Bool-cases (same a.1 e.1)) [
  | inl q ↦ ground (arith, q, k, same_iff a.1 e.1)
  | inr q ↦ elim (Bool-cases (same e.1 b.1)) [
    | inl r ↦ ground (arith, q, k, r, same_iff e.1 b.1)
    | inr r ↦ ground (arith, q, k, same_iff a.1 b.1, third_key known a.1 e.1 b.1 few v.0 h v.1 q r)
  ]
]
find-store known (a ∷ b ∷ c ∷ more) e now j few v h k = absurd (ground arith)

stored-IsKept :
    (known : List String) (past : Past) (now : ℕ)
    → IsPast known now past
    → IsKept known (stored small_cache past)
stored-IsKept known [] now v = tt
stored-IsKept known ((t, k, b) ∷ past) now (h, mine, v) =
    store-IsKept known (stored small_cache past) (t, k, b) (stored-IsKept known past t v) mine

find-stored :
    (known : List String) (past : Past) (now : ℕ) (j : String)
    → length known ≤ 2
    → IsPast known now past
    → find (stored small_cache past) now j ≡ last_for 10 past now j
find-stored known [] now j few v = refl
find-stored known ((t, k, b) ∷ past) now j few (h, mine, v) = elim (Bool-cases (same k j)) [
  | inl q ↦ rw q (find-store_same (stored small_cache past) (t, k, b) now j q)
  | inr q ↦
      rw
        (
          find-store known (stored small_cache past) (t, k, b) now j few
              (stored-IsKept known past t v) mine q,
          q,
        )
        (find-stored known past now j few (IsPast-later known t now past h v))
]

small_cache-IsBounded : IsBounded small_cache 2
small_cache-IsBounded = record {
  get-stored = λ known past now j few v. find-stored known past now j few v;
}

abbrev bucket : Bucket
bucket = record { tokens = 0; updated = 0 }

abbrev few : Limits
few = record { capacity = 2; refill = 1 }

-- A flood, another client in between, and the flooding client again when it is forgotten.
abbrev attempts : Attempts
attempts = (0, "A") ∷ (0, "A") ∷ (0, "B") ∷ (0, "A") ∷ (1, "A") ∷ (20, "A") ∷ []

flood : answers small_cache few 1 [] attempts ≡ true ∷ true ∷ true ∷ false ∷ true ∷ true ∷ []
unfolding answers
flood = refl

answers-ledger_answers_example :
    answers small_cache few 1 [] attempts ≡ ledger_answers few 1 [] attempts
unfolding has
answers-ledger_answers_example =
    answers-ledger_answers small_cache few 1 2 small_cache-IsBounded (omega arith) ("A" ∷ "B" ∷ [])
      (omega arith) 0 attempts (omega arith) (refl, (refl, (refl, (refl, (refl, (refl, tt))))))

allowed_of-answers-le_example :
    1 * allowed_of "A" attempts (answers small_cache few 1 [] attempts) + 0 * 1 ≤ 2 + 20 * 1
unfolding has
allowed_of-answers-le_example =
    allowed_of-answers-le small_cache few 1 "A" 2 ("A" ∷ "B" ∷ []) 0 attempts small_cache-IsBounded
      (omega arith) (omega arith) (omega arith) (refl, (refl, (refl, (refl, (refl, (refl, tt))))))

-- With a third client the small cache gives up a bucket before its time.
evicted :
    find (store (store (store [] (0, "A", bucket)) (0, "B", bucket)) (0, "C", bucket)) 1 "A" ≡ none
evicted = refl
