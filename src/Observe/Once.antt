-- ===== src/Observe/Once.antt =====
-- Each frame is reported once, and what the pipeline retains stays bounded.
use corshub.Prelude.{
  ℕ, ◌+◌, ◌≡◌, refl, Option, none, some, String, List, [], ◌∷◌, ◌++◌, string_eq, arith,
}
use corshub.Float.{Float}
use corshub.Framing.{Bytes, split_rtcm_frames}
use corshub.Observe.{
  Parser, Pipeline, Seen, Metric, Message, Position, Reading, parse_errors_total, messages_total,
  arp_ecef_meters, arp_changes_total, satellites_tracked, signal_cnr, high_cnr_total, unknown,
  report, observe_frames, observe_frame, observe_message, observe_msm, track_arp, collect_cnr,
  record_satellites, record_batch, buffered, observe_rtcm_quality,
}

module _ (fl : Float) where
  -- The reports that count frames: an unreadable one, or a message of some type.
  abbrev pub outcome : Metric fl → ℕ
  outcome (parse_errors_total _) = 1
  outcome (messages_total _ _) = 1
  outcome _ = 0

  abbrev pub count_outcomes : List (Metric fl) → ℕ
  count_outcomes [] = 0
  count_outcomes (m ∷ ms) = outcome m + count_outcomes ms

  outcomes-append :
      (ms ns : List (Metric fl)) → count_outcomes (ms ++ ns) ≡ count_outcomes ms + count_outcomes ns
  outcomes-append [] ns = omega arith
  outcomes-append (m ∷ ms) ns = omega (arith, outcomes-append ms ns)

  abbrev outcomes : Seen fl → ℕ
  outcomes s = count_outcomes s.metrics

  outcomes-report :
      (s : Seen fl) (m : Metric fl) → outcomes (report fl s m) ≡ outcomes s + outcome m
  unfolding report
  outcomes-report s m = omega (arith, outcomes-append s.metrics (m ∷ []))

  module _ (p : Parser fl) (mountpoint : String) where
    outcomes-collect_cnr :
        (constellation prefix : String) (attributes : List (String × Option fl.F)) (s : Seen fl)
        (batch : List fl.F)
        → outcomes (collect_cnr fl p mountpoint constellation prefix attributes s batch).0
          ≡ outcomes s
    unfolding collect_cnr
    outcomes-collect_cnr constellation prefix [] s batch = refl
    outcomes-collect_cnr constellation prefix ((name, none) ∷ rest) s batch =
        outcomes-collect_cnr constellation prefix rest s batch
    outcomes-collect_cnr constellation prefix ((name, some v) ∷ rest) s batch =
        rw (outcomes-collect_cnr constellation prefix rest _ _) (
          ground (
            arith,
            outcomes-report s (signal_cnr mountpoint constellation v),
            outcomes-report (report fl s (signal_cnr mountpoint constellation v))
                (high_cnr_total mountpoint constellation),
          ))

    outcomes-track_arp :
        (position : Position fl) (s : Seen fl)
        → outcomes (track_arp fl p mountpoint position s) ≡ outcomes s
    unfolding track_arp
    outcomes-track_arp (x, y, z) s =
        let sx = report fl s (arp_ecef_meters mountpoint "x" x) in
        let sy = report fl sx (arp_ecef_meters mountpoint "y" y) in
        let sz = report fl sy (arp_ecef_meters mountpoint "z" z) in
        ground (
          arith,
          outcomes-report s (arp_ecef_meters mountpoint "x" x),
          outcomes-report sx (arp_ecef_meters mountpoint "y" y),
          outcomes-report sy (arp_ecef_meters mountpoint "z" z),
          outcomes-report sz (arp_changes_total mountpoint),
        )

    outcomes-record_satellites :
        (constellation : String) (n : ℕ) (s : Seen fl)
        → outcomes (record_satellites fl p mountpoint constellation n s) ≡ outcomes s
    unfolding record_satellites
    outcomes-record_satellites constellation n s =
        ground (arith, outcomes-report s (satellites_tracked mountpoint constellation n))

    outcomes-record_batch :
        (constellation : String) (r : Seen fl × List fl.F)
        → outcomes (record_batch fl p mountpoint constellation r) ≡ outcomes r.0
    unfolding record_batch
    outcomes-record_batch constellation (s, []) = refl
    outcomes-record_batch constellation (s, x ∷ xs) = refl

    outcomes-observe_msm :
        (constellation : String) (msg : Message fl) (s : Seen fl)
        → outcomes (observe_msm fl p mountpoint constellation msg s) ≡ outcomes s
    unfolding observe_msm
    outcomes-observe_msm constellation msg s =
        grind (arith, outcomes-record_batch, outcomes-collect_cnr, outcomes-record_satellites)

    outcomes-observe_message :
        (msg : Message fl) (s : Seen fl)
        → outcomes (observe_message fl p mountpoint msg s) ≡ outcomes s + 1
    unfolding observe_message
    outcomes-observe_message msg s =
        let counted = report fl s (messages_total mountpoint msg.identity) in
        grind (
          arith,
          outcomes-report s (messages_total mountpoint msg.identity),
          outcomes-track_arp,
          outcomes-observe_msm,
        )

    -- The frames that the reader knows, or fails on.
    abbrev pub known : Reading fl → ℕ
    known unknown = 0
    known _ = 1

    abbrev pub count_known : List Bytes → ℕ
    count_known [] = 0
    count_known (f ∷ fs) = known (p.read f) + count_known fs

    outcomes-observe_frame :
        (f : Bytes) (s : Seen fl)
        → outcomes (observe_frame fl p mountpoint f s) ≡ outcomes s + known (p.read f)
    unfolding observe_frame
    outcomes-observe_frame f s =
        grind (arith, outcomes-report s (parse_errors_total mountpoint), outcomes-observe_message)

    outcomes-observe_frames :
        (fs : List Bytes) (s : Seen fl)
        → outcomes (observe_frames fl p mountpoint fs s) ≡ outcomes s + count_known fs
    unfolding observe_frames
    outcomes-observe_frames [] s = omega arith
    outcomes-observe_frames (f ∷ fs) s = omega (
      arith,
      outcomes-observe_frames fs (observe_frame fl p mountpoint f s),
      outcomes-observe_frame f s,
    )

    -- A chunk adds exactly one report of a parse error or of a message for each frame that it completes
    -- and that the reader does not pass over as unknown.
    outcomes-observe_rtcm_quality :
        (chunk : Bytes) (s : Pipeline fl)
        → count_outcomes (observe_rtcm_quality fl p mountpoint chunk s).seen.metrics
          ≡ count_outcomes s.seen.metrics
            + count_known (split_rtcm_frames (buffered s.frame_buffer mountpoint ++ chunk)).0
    unfolding observe_rtcm_quality
    outcomes-observe_rtcm_quality chunk s = outcomes-observe_frames _ s.seen
