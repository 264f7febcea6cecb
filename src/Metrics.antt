-- ===== src/Metrics.antt =====
-- The metrics that are read off the caster at a scrape: `NTRIPCasterCollector` of
-- src/corshub/metrics.py. Every transport of the program is a queue transport. The text of a float is
-- a parameter.
pub mod Closed
use corshub.Prelude.{ℕ, ◌-◌, Option, none, some, String, List, [], ◌∷◌, ◌++◌, map, length}
use corshub.Dict.{Dict}
use corshub.Float.{Float}
use corshub.Mountpoint.{Mountpoint}
use corshub.Transport.{subscriber_count, queue_depth}
use corshub.Caster.{NtripCaster, Coordinates}
use corshub.Sourcetable.{or_empty}

pub record Sample : Type 0 where
  pub labels : List String
  pub value : ℕ

-- `GaugeMetricFamily`
pub record Family : Type 0 where
  pub name : String
  pub label_names : List String
  pub samples : List Sample

-- A family with a value and no labels.
abbrev pub total : String → ℕ → Family
total name value = record {
  name = name;
  label_names = [];
  samples = record { labels = []; value = value } ∷ [];
}

-- One sample for each entry, labelled with its key.
abbrev pub by_name {ℓ} : {A : Type ℓ} → (A → ℕ) → Dict String A → List Sample
by_name f d = map (λ e. record { labels = e.0 ∷ []; value = f e.1 }) d

module _ (fl : Float) (show : fl.F → String) where
  unfoldable pub rovers_gauge : NtripCaster fl → Family
  rovers_gauge c = record {
    name = "ntrip_rovers_connected";
    label_names = "mountpoint" ∷ [];
    samples = by_name (λ i. subscriber_count (c.heap i)) c.transports;
  }

  unfoldable pub queue_gauge : NtripCaster fl → Family
  queue_gauge c = record {
    name = "ntrip_queue_depth";
    label_names = "mountpoint" ∷ [];
    samples = by_name (λ i. queue_depth (c.heap i)) c.transports;
  }

  unfoldable pub last_seen_gauge : ℕ → NtripCaster fl → Family
  last_seen_gauge now c = record {
    name = "ntrip_mountpoint_last_seen_seconds";
    label_names = "mountpoint" ∷ [];
    samples = by_name (λ mp. now - mp.last_seen) c.mountpoints;
  }

  -- A mountpoint without coordinates has no sample.
  abbrev pub info_at : String → Mountpoint fl → Option fl.F → Option fl.F → List Sample
  info_at name mp none longitude = []
  info_at name mp (some latitude) none = []
  info_at name mp (some latitude) (some longitude) =
      record {
        labels =
            name
            ∷ show latitude
            ∷ show longitude
            ∷ or_empty mp.identifier
            ∷ or_empty mp.country
            ∷ show mp.mask
            ∷ [];
        value = 1;
      }
      ∷ []

  unfoldable pub info_samples : Dict String (Mountpoint fl) → List Sample
  info_samples [] = []
  info_samples ((name, mp) ∷ mountpoints) =
      info_at name mp mp.latitude mp.longitude ++ info_samples mountpoints

  unfoldable pub info_gauge : NtripCaster fl → Family
  unfolding info_samples
  info_gauge c = record {
    name = "ntrip_mountpoint_info";
    label_names = "mountpoint" ∷ "latitude" ∷ "longitude" ∷ "identifier" ∷ "country" ∷ "mask" ∷ [];
    samples = info_samples c.mountpoints;
  }

  abbrev pub position_sample : String → String × Coordinates fl → Sample
  position_sample mountpoint (rover_id, (lat, lon)) = record {
    labels = mountpoint ∷ rover_id ∷ show (fl.round lat 6) ∷ show (fl.round lon 6) ∷ [];
    value = 1;
  }

  unfoldable pub position_samples : Dict String (Dict String (Coordinates fl)) → List Sample
  position_samples [] = []
  position_samples ((mountpoint, positions) ∷ rest) =
      map (position_sample mountpoint) positions ++ position_samples rest

  unfoldable pub rover_pos_gauge : NtripCaster fl → Family
  unfolding position_samples
  rover_pos_gauge c = record {
    name = "ntrip_rover_position";
    label_names = "mountpoint" ∷ "rover_id" ∷ "latitude" ∷ "longitude" ∷ [];
    samples = position_samples c.rover_positions;
  }

  unfoldable pub collect : ℕ → NtripCaster fl → List Family
  unfolding rovers_gauge queue_gauge last_seen_gauge info_gauge rover_pos_gauge
  collect now c =
      total "ntrip_mountpoints_registered" (length c.mountpoints)
      ∷ total "ntrip_mountpoints_online" (length c.transports)
      ∷ rovers_gauge c
      ∷ queue_gauge c
      ∷ last_seen_gauge now c
      ∷ info_gauge c
      ∷ rover_pos_gauge c
      ∷ []
