-- ===== src/Quality/Windows.antt =====
-- The windows of a mountpoint's quality hold the newest observations.
use corshub.Prelude.{
  ℕ, suc, ◌-◌, ◌≡◌, refl, ap, ◌∙◌, String, List, [], ◌∷◌, ◌++◌, ltb, ltb→lt, ltb→le, Bool-cases,
  inl, inr, same_iff, if◌then◌else◌, length, drop, last, arith, string_eq, same,
}
use corshub.Dict
use corshub.Dict.{Dict, get-set, get-set_self}
use corshub.Float.{Float}
use corshub.Quality.{
  window, trim, ConstellationQuality, MountpointQuality, get_or_create, record_cnr,
  record_sat_count,
}

-- `_trim` keeps the last 200.
pub trim-last {ℓ} : {A : Type ℓ} (xs : List A) → trim xs ≡ last window xs
unfolding trim
trim-last [] = refl
trim-last (x ∷ xs) = elim (Bool-cases (ltb window (length (x ∷ xs)))) [
  | inl long ↦ rw long (
      trim-last xs
      ∙ ap (λ k. drop k (x ∷ xs)) {x = suc (length xs - window)}
          (omega (arith, ltb→lt window (length (x ∷ xs)) long)))
  | inr short ↦
      rw short
        (ap (λ k. drop k (x ∷ xs)) {x = 0} (omega (arith, ltb→le window (length (x ∷ xs)) short)))
]

module _ (fl : Float) where
  -- What a mountpoint has recorded on one constellation.
  abbrev pub cnr_of : MountpointQuality fl → String → List fl.F
  cnr_of m name = (get_or_create fl m name).cnr

  abbrev pub sat_counts_of : MountpointQuality fl → String → List ℕ
  sat_counts_of m name = (get_or_create fl m name).sat_counts

  pub get_or_create-set :
      (m : MountpointQuality fl) (name other : String) (q : ConstellationQuality fl)
      → get_or_create fl (Dict.set m name q) other
        ≡ (if same name other then q else get_or_create fl m other)
  unfolding get_or_create
  get_or_create-set m name other q = rw (get-set m name other q, get_or_create) (ground arith)

  -- Recording carrier-to-noise values on one constellation keeps the last 200 of what it had followed by the
  -- values, and changes no satellite count and no other constellation.
  pub cnr_of-record_cnr :
      (m : MountpointQuality fl) (name other : String) (values : List fl.F)
      → (cnr_of (record_cnr fl m name values) other
          ≡ (if same name other then last window (cnr_of m name ++ values) else cnr_of m other))
        × (sat_counts_of (record_cnr fl m name values) other ≡ sat_counts_of m other)
  unfolding record_cnr
  cnr_of-record_cnr m name other values =
      let q = get_or_create fl m name in
      ground (
        arith,
        get_or_create-set m name other (record q { cnr = trim (q.cnr ++ values) }),
        trim-last (q.cnr ++ values),
        same_iff name other,
      )

  -- Recording a satellite count on one constellation keeps the last 200 of its counts followed by the new one,
  -- and changes no carrier-to-noise value and no other constellation.
  pub sat_counts_of-record_sat_count :
      (m : MountpointQuality fl) (name other : String) (count : ℕ)
      → (sat_counts_of (record_sat_count fl m name count) other ≡ (
          if same name other
          then last window (sat_counts_of m name ++ count ∷ [])
          else sat_counts_of m other))
        × (cnr_of (record_sat_count fl m name count) other ≡ cnr_of m other)
  unfolding record_sat_count
  sat_counts_of-record_sat_count m name other count =
      let q = get_or_create fl m name in
      ground (
        arith,
        get_or_create-set m name other
            (record q { sat_counts = trim (q.sat_counts ++ count ∷ []) }),
        trim-last (q.sat_counts ++ count ∷ []),
        same_iff name other,
      )
