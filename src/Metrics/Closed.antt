-- ===== src/Metrics/Closed.antt =====
-- What a scrape shows of a mountpoint that was closed.
use corshub.Prelude.{
  ℕ, ◌≡◌, ◌-◌, refl, ap, ◌∙◌, Bool, false, Option, none, some, String, List, [], ◌∷◌, ◌++◌, map,
  if◌then◌else◌, same, same_iff, same_refl, string_eq, arith, Option-cases, Bool-cases, inl, inr,
  ◌==◌,
}
use corshub.Dict
use corshub.Dict.{Dict}
use corshub.Float.{Float}
use corshub.Transport.{QueueTransport, subscriber_count, queue_depth}
use corshub.Caster.{NtripCaster, Coordinates, Returns, Result, ok, raise, close}
use corshub.Caster.Registry.{IsCaster}
use corshub.Caster.Closing.{IsClosed, close-Closes}
use corshub.Metrics.{
  Sample, Family, by_name, rovers_gauge, queue_gauge, last_seen_gauge, position_sample,
  position_samples, rover_pos_gauge, collect,
}

abbrev labelled : String → List String → Bool
labelled k [] = false
labelled k (l ∷ ls) = same l k

-- The value of the first sample with this first label.
unfoldable pub sample_of : String → List Sample → Option ℕ
sample_of k [] = none
sample_of k (s ∷ ss) = if labelled k s.labels then some s.value else sample_of k ss

-- What a family shows for a first label; a family of that name is looked for.
unfoldable pub shown : String → String → List Family → Option ℕ
unfolding sample_of
shown name k [] = none
shown name k (f ∷ fs) = if same f.name name then sample_of k f.samples else shown name k fs

abbrev mapped {ℓ} : {A : Type ℓ} → (A → ℕ) → Option A → Option ℕ
mapped f none = none
mapped f (some a) = some (f a)

sample_of-by_name {ℓ} :
    {A : Type ℓ} (f : A → ℕ) (d : Dict String A) (k : String)
    → sample_of k (by_name f d) ≡ mapped f (Dict.get d k)
unfolding sample_of Dict.get
sample_of-by_name f [] k = refl
sample_of-by_name f ((j, a) ∷ d) k = elim (Bool-cases (same j k)) [
  | inl q ↦ rw q refl
  | inr q ↦ rw q (sample_of-by_name f d k)
]

module _ (fl : Float) (show : fl.F → String) where
  sample_of-position_sample :
      (k mountpoint : String) (positions : Dict String (Coordinates fl)) (rest : List Sample)
      → same mountpoint k ≡ false
      → sample_of k (map (position_sample fl show mountpoint) positions ++ rest) ≡ sample_of k rest
  unfolding sample_of
  sample_of-position_sample k mountpoint [] rest h = refl
  sample_of-position_sample k mountpoint ((r, p) ∷ positions) rest h =
      rw h (sample_of-position_sample k mountpoint positions rest h)

  -- A mountpoint that is not in the dictionary of positions has no sample.
  sample_of-position_samples :
      (d : Dict String (Dict String (Coordinates fl))) (k : String)
      → Dict.get d k ≡ none
      → sample_of k (position_samples fl show d) ≡ none
  unfolding position_samples sample_of Dict.get
  sample_of-position_samples [] k h = refl
  sample_of-position_samples ((m, positions) ∷ d) k h = elim (Bool-cases (same m k)) [
    | inl q ↦ absurd (ground arith)
    | inr q ↦
        sample_of-position_sample k m positions (position_samples fl show d) q
        ∙ sample_of-position_samples d k (ground arith)
  ]

  -- What scrapes show of the mountpoint `m` and of the others, before in the caster `c` and after in
  -- the caster `d`: for each family, by its first label.
  pub record IsHidden (now : ℕ) (c : NtripCaster fl) (m : String) (d : NtripCaster fl)
      : Type 0 where
    pub rovers :
        (k : String)
        → shown "ntrip_rovers_connected" k (collect fl show now d)
          ≡ (if same m k then none else shown "ntrip_rovers_connected" k (collect fl show now c))
    pub queues :
        (k : String)
        → shown "ntrip_queue_depth" k (collect fl show now d)
          ≡ (if same m k then none else shown "ntrip_queue_depth" k (collect fl show now c))
    pub positions : shown "ntrip_rover_position" m (collect fl show now d) ≡ none
    pub last_seen :
        (k : String)
        → shown "ntrip_mountpoint_last_seen_seconds" k (collect fl show now d)
          ≡ shown "ntrip_mountpoint_last_seen_seconds" k (collect fl show now c)

  -- A count of every transport, after a close and before.
  counted-IsClosed :
      (f : QueueTransport → ℕ) (c : NtripCaster fl) (m : String) (i : ℕ) (d : NtripCaster fl)
      → IsCaster fl c
      → Dict.get c.transports m ≡ some i
      → IsClosed fl c m i d
      → (k : String)
      → sample_of k (by_name (λ j. f (d.heap j)) d.transports)
        ≡ (if same m k then none else sample_of k (by_name (λ j. f (c.heap j)) c.transports))
  counted-IsClosed f c m i d v e closed k =
      rw
        (
          sample_of-by_name (λ j. f (d.heap j)) d.transports k,
          sample_of-by_name (λ j. f (c.heap j)) c.transports k,
          closed.transports k,
        )
        (elim (Bool-cases (same m k)) [
          | inl q ↦ rw q refl
          | inr q ↦ rw q (elim (Option-cases (Dict.get c.transports k)) [
            | inl n ↦ rw n refl
            | inr (j, n) ↦ rw (n, closed.heap j, other j n q) refl
          ])
        ])
    where
      other : (j : ℕ) → Dict.get c.transports k ≡ some j → same m k ≡ false → (i == j) ≡ false
      other j n q = ground (arith, v.unshared m k i, same_iff m k, e)

  closed-IsHidden :
      (now : ℕ) (c : NtripCaster fl) (m : String) (i : ℕ) (d : NtripCaster fl)
      → IsCaster fl c
      → Dict.get c.transports m ≡ some i
      → d.mountpoints ≡ c.mountpoints
      → IsClosed fl c m i d
      → IsHidden now c m d
  unfolding shown collect rovers_gauge queue_gauge last_seen_gauge rover_pos_gauge
  closed-IsHidden now c m i d v e same_mountpoints closed = record {
    rovers = counted-IsClosed subscriber_count c m i d v e closed;
    queues = counted-IsClosed queue_depth c m i d v e closed;
    positions =
        sample_of-position_samples d.rover_positions m (closed.positions m ∙ rw (same_refl m) refl);
    last_seen =
        λ k. ap (λ mps. sample_of k (by_name (λ mp. now - mp.last_seen) mps)) same_mountpoints;
  }

  -- Once a mountpoint with a transport is closed, where the invariant holds, no scrape shows rovers, a
  -- queue or a position of a rover of it; the numbers of rovers and of waiting frames of every
  -- other mountpoint, and the time since the last frame of every mountpoint, are shown as before.
  pub collect-close :
      (now : ℕ) (c : NtripCaster fl) (m : String) (i : ℕ)
      → IsCaster fl c
      → Dict.get c.transports m ≡ some i
      → Returns (IsHidden now c m) (close fl c m)
  collect-close now c m i v e = go (close fl c m) (close-Closes fl c m i v e)
    where
      go :
          (r : Result (NtripCaster fl))
          → Returns (λ d. IsClosed fl c m i d × (d.mountpoints ≡ c.mountpoints)) r
          → Returns (IsHidden now c m) r
      go (ok d) (closed, same_mountpoints) = closed-IsHidden now c m i d v e same_mountpoints closed
      go (raise x) h = elim h [ ]
