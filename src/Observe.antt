-- ===== src/Observe.antt =====
-- `_observe_rtcm_quality` of src/corshub/ntrip/v2/caster.py: the quality pipeline of a mountpoint.
-- The dicts that the caster hands in are the fields of `Pipeline`, and the Prometheus metrics are the
-- list of what was reported to them. pyrtcm's reader is a parameter, and `snapshots` is always given,
-- as the caster does.
pub mod Chunked
pub mod Once
pub mod Retained
use text.Mathlib.Text.{starts_with}
use corshub.Prelude.{
  ℕ, zero, suc, ◌+◌, ◌/◌, ◌%◌, Bool, true, false, ◌&&◌, ◌||◌, Option, none, some, String, List, [],
  ◌∷◌, ◌++◌, ltb, leb, ◌==◌, if◌then◌else◌, length, string_eq,
}
use corshub.Dict
use corshub.Dict.{Dict}
use corshub.Float.{Float}
use corshub.Framing.{Bytes, rtcm3_max_frame, split_rtcm_frames}
use corshub.Quality.{MountpointQuality, record_cnr, record_sat_count}

-- `_MSM_CONSTELLATION`
unfoldable pub msm_constellation : ℕ → Option String
msm_constellation n =
    if n == 107
    then some "GPS"
    else if n == 108
    then some "GLONASS"
    else if n == 109
    then some "Galileo"
    else if n == 110
    then some "SBAS"
    else if n == 111
    then some "QZSS"
    else if n == 112
    then some "BeiDou"
    else if n == 113
    then some "NavIC"
    else none

-- `frame_buffer.pop(mountpoint, b"")`, the bytes.
unfoldable pub buffered : Dict String Bytes → String → Bytes
buffered d mountpoint = elim (Dict.get d mountpoint) [ none ↦ [] | some bytes ↦ bytes ]

-- The guarded write of the remainder.
unfoldable pub keep_remainder : Dict String Bytes → String → Bytes → Dict String Bytes
keep_remainder d mountpoint [] = d
keep_remainder d mountpoint (b ∷ bs) =
    if ltb (length (b ∷ bs)) rtcm3_max_frame then Dict.set d mountpoint (b ∷ bs) else d

module _ (fl : Float) where
  abbrev pub Position : Type 0
  Position = fl.F × fl.F × fl.F

  -- A message of pyrtcm: `int(msg.identity)`; the three floats of DF025 to DF027, if it has these
  -- attributes; and `vars(msg)`, with the value of each attribute that is a number.
  pub record Message : Type 0 where
    pub identity : ℕ
    pub ecef : Option Position
    pub attributes : List (String × Option fl.F)

  -- What `RTCMReader(...).read()` does with a frame.
  pub data Reading : Type 0 where
    raised : Reading
    unknown : Reading
    parsed : Message → Reading

  -- The reader, and the two thresholds from the environment.
  pub record Parser : Type 0 where
    pub read : Bytes → Reading
    pub arp_change_threshold : fl.F
    pub high_cnr_threshold : fl.F

  -- One report to a metric, with its mountpoint and the other labels.
  pub data Metric : Type 0 where
    parse_errors_total : String → Metric
    messages_total : String → ℕ → Metric
    arp_ecef_meters : String → String → fl.F → Metric
    arp_changes_total : String → Metric
    satellites_tracked : String → String → ℕ → Metric
    signal_cnr : String → String → fl.F → Metric
    high_cnr_total : String → String → Metric

  pub record Seen : Type 0 where
    pub arp_reference : Dict String Position
    pub quality : Dict String (MountpointQuality fl)
    pub metrics : List Metric

  pub record Pipeline : Type 0 where
    pub frame_buffer : Dict String Bytes
    pub seen : Seen

  unfoldable pub report : Seen → Metric → Seen
  report s m = record s { metrics = s.metrics ++ m ∷ [] }

  -- `quality_snapshots.setdefault(mountpoint, MountpointQuality())`
  unfoldable pub snapshot : Seen → String → MountpointQuality fl
  snapshot s mountpoint = elim (Dict.get s.quality mountpoint) [ none ↦ [] | some q ↦ q ]

  unfoldable pub count_satellites : List (String × Option fl.F) → ℕ
  count_satellites [] = 0
  count_satellites ((name, _) ∷ rest) =
      (if starts_with name "PRN_" then 1 else 0) + count_satellites rest

  module _ (p : Parser) where
    -- `max(abs(x - ref[0]), abs(y - ref[1]), abs(z - ref[2])) > _ARP_CHANGE_THRESHOLD`
    unfoldable pub arp_changed : Position → Position → Bool
    arp_changed (x, y, z) (rx, ry, rz) =
        fl.lt p.arp_change_threshold
          (fl.max (fl.max (fl.abs (fl.sub x rx)) (fl.abs (fl.sub y ry))) (fl.abs (fl.sub z rz)))

    -- The ARP branch, past the reading of the position.
    unfoldable pub track_arp : String → Position → Seen → Seen
    track_arp mountpoint (x, y, z) s =
        let s = report s (arp_ecef_meters mountpoint "x" x) in
        let s = report s (arp_ecef_meters mountpoint "y" y) in
        let s = report s (arp_ecef_meters mountpoint "z" z) in
        elim (Dict.get s.arp_reference mountpoint) [
          | none ↦ record s { arp_reference = Dict.set s.arp_reference mountpoint (x, y, z) }
          | some ref ↦
              if arp_changed (x, y, z) ref
              then record (report s (arp_changes_total mountpoint)) {
                arp_reference = Dict.set s.arp_reference mountpoint (x, y, z);
              }
              else s
        ]

    -- The loop over the attributes: what it reports, and the batch.
    unfoldable pub collect_cnr :
        String → String → String → List (String × Option fl.F) → Seen → List fl.F → Seen × List fl.F
    collect_cnr mountpoint constellation cnr_prefix [] s batch = (s, batch)
    collect_cnr mountpoint constellation cnr_prefix ((name, none) ∷ rest) s batch =
        collect_cnr mountpoint constellation cnr_prefix rest s batch
    collect_cnr mountpoint constellation cnr_prefix ((name, some cnr) ∷ rest) s batch =
        let hit = starts_with name cnr_prefix && fl.lt (fl.literal 0) cnr in
        let observed = report s (signal_cnr mountpoint constellation cnr) in
        let reported =
          if fl.lt p.high_cnr_threshold cnr
          then report observed (high_cnr_total mountpoint constellation)
          else observed in
        collect_cnr mountpoint constellation cnr_prefix rest (if hit then reported else s)
          (if hit then batch ++ cnr ∷ [] else batch)

    unfoldable pub record_satellites : String → String → ℕ → Seen → Seen
    record_satellites mountpoint constellation nsat s =
        let s = report s (satellites_tracked mountpoint constellation nsat) in
        record s {
          quality =
              Dict.set s.quality mountpoint
                (record_sat_count fl (snapshot s mountpoint) constellation nsat);
        }

    unfoldable pub record_batch : String → String → Seen × List fl.F → Seen
    record_batch mountpoint constellation (s, []) = s
    record_batch mountpoint constellation (s, cnr ∷ batch) = record s {
      quality =
          Dict.set s.quality mountpoint
            (record_cnr fl (snapshot s mountpoint) constellation (cnr ∷ batch));
    }

    -- The MSM branch.
    unfoldable pub observe_msm : String → String → Message → Seen → Seen
    observe_msm mountpoint constellation msg s =
        let nsat = count_satellites msg.attributes in
        let s = if nsat == 0 then s else record_satellites mountpoint constellation nsat s in
        let msm_variant = msg.identity % 10 in
        if leb 4 msm_variant
        then record_batch mountpoint constellation (
            collect_cnr mountpoint constellation (if leb 6 msm_variant then "DF408_" else "DF403_")
              msg.attributes s [])
        else s

    unfoldable pub observe_message : String → Message → Seen → Seen
    observe_message mountpoint msg s =
        let s = report s (messages_total mountpoint msg.identity) in
        if msg.identity == 1005 || msg.identity == 1006
        then (elim msg.ecef [ none ↦ s | some position ↦ track_arp mountpoint position s ])
        else elim (msm_constellation (msg.identity / 10)) [
          | none ↦ s
          | some constellation ↦ observe_msm mountpoint constellation msg s
        ]

    -- One complete frame.
    unfoldable pub observe_frame : String → Bytes → Seen → Seen
    observe_frame mountpoint frame s = elim (p.read frame) [
      | raised ↦ report s (parse_errors_total mountpoint)
      | unknown ↦ s
      | parsed msg ↦ observe_message mountpoint msg s
    ]

    unfoldable pub observe_frames : String → List Bytes → Seen → Seen
    observe_frames mountpoint [] s = s
    observe_frames mountpoint (frame ∷ rest) s =
        observe_frames mountpoint rest (observe_frame mountpoint frame s)

    unfoldable pub observe_rtcm_quality : String → Bytes → Pipeline → Pipeline
    observe_rtcm_quality mountpoint chunk s =
        let (frames, remainder) = split_rtcm_frames (buffered s.frame_buffer mountpoint ++ chunk) in
        record {
          frame_buffer = keep_remainder (Dict.pop s.frame_buffer mountpoint) mountpoint remainder;
          seen = observe_frames mountpoint frames s.seen;
        }
