-- ===== src/Quality.antt =====
-- src/corshub/ntrip/v2/quality.py: rolling windows of signal quality, for each constellation.
pub mod Windows
use corshub.Prelude.{
  ℕ, zero, suc, ◌+◌, ◌-◌, ◌≤◌, ◌≡◌, Option, none, some, String, List, [], ◌∷◌, ◌++◌, map, ltb,
  if◌then◌else◌, string_eq, length, drop,
}
use mathlib.Core.Option
use corshub.Dict
use corshub.Dict.{Dict}
use corshub.Float.{Float}

abbrev pub window : ℕ
window = 200

-- `_trim`: while the deque is too long, its oldest element goes.
unfoldable pub trim {ℓ} : {A : Type ℓ} → List A → List A
trim [] = []
trim (x ∷ xs) = if ltb window (length (x ∷ xs)) then trim xs else x ∷ xs

module _ (fl : Float) where
  pub record ConstellationQuality : Type 0 where
    pub cnr : List fl.F
    pub sat_counts : List ℕ

  abbrev pub new_constellation : ConstellationQuality
  new_constellation = record { cnr = []; sat_counts = [] }

  unfoldable pub cnr_p50 : ConstellationQuality → Option fl.F
  cnr_p50 q = elim q.cnr [ [] ↦ none | x ∷ xs ↦ some (fl.median (x ∷ xs)) ]

  unfoldable pub cnr_p95 : ConstellationQuality → Option fl.F
  cnr_p95 q = elim q.cnr [
    | [] ↦ none
    | x ∷ xs ↦ elim xs [ [] ↦ some x | y ∷ ys ↦ some (fl.quantile_95 (x ∷ y ∷ ys)) ]
  ]

  unfoldable pub median_satellites : ConstellationQuality → Option fl.F
  median_satellites q = elim q.sat_counts [
    | [] ↦ none
    | n ∷ ns ↦ some (fl.median (map fl.literal (n ∷ ns)))
  ]

  -- The field `constellations` of `MountpointQuality`.
  abbrev pub MountpointQuality : Type 0
  MountpointQuality = Dict String ConstellationQuality

  -- `_get_or_create`: the entry; the caller stores it again when it has changed it.
  unfoldable pub get_or_create : MountpointQuality → String → ConstellationQuality
  get_or_create m name = elim (Dict.get m name) [ none ↦ new_constellation | some q ↦ q ]

  unfoldable pub record_cnr : MountpointQuality → String → List fl.F → MountpointQuality
  record_cnr m name values =
      let q = get_or_create m name in Dict.set m name (record q { cnr = trim (q.cnr ++ values) })

  unfoldable pub record_sat_count : MountpointQuality → String → ℕ → MountpointQuality
  record_sat_count m name count =
      let q = get_or_create m name in
      Dict.set m name (record q { sat_counts = trim (q.sat_counts ++ count ∷ []) })

  -- An entry of `to_dict`, with the keys that a value is given for.
  pub record Summary : Type 0 where
    pub cnr_p50_dbhz : Option fl.F
    pub cnr_p95_dbhz : Option fl.F
    pub median_satellites : Option fl.F

  unfoldable pub summary : ConstellationQuality → Summary
  unfolding cnr_p50 cnr_p95 median_satellites
  summary q = record {
    cnr_p50_dbhz = Option.map (λ x. fl.round x 2) (cnr_p50 q);
    cnr_p95_dbhz = Option.map (λ x. fl.round x 2) (cnr_p95 q);
    median_satellites = Option.map (λ x. fl.round x 1) (median_satellites q);
  }

  unfoldable pub to_dict : MountpointQuality → Dict String Summary
  unfolding summary
  to_dict m = map (λ e. (e.0, summary e.1)) m
