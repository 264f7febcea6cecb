-- ===== src/Observe/Retained.antt =====
-- What the pipeline retains between chunks is bounded.
use corshub.Prelude.{
  ℕ, ◌≤◌, ◌<◌, ◌≡◌, refl, Option, none, some, String, List, [], ◌∷◌, ◌++◌, length, string_eq, arith,
  Bool-cases, inl, inr, if◌then◌else◌, same, same_iff, length-last-le, leb, ◌==◌, ◌||◌, ◌/◌, ◌%◌,
}
use corshub.Dict
use corshub.Dict.{Dict, get-set, get-pop}
use corshub.Float.{Float}
use corshub.Framing.{Bytes, rtcm3_max_frame}
use corshub.Quality.{window, MountpointQuality, record_cnr, record_sat_count}
use corshub.Quality.Windows.{
  cnr_of, sat_counts_of, cnr_of-record_cnr, sat_counts_of-record_sat_count,
}
use corshub.Observe.{
  Parser, Pipeline, Seen, Message, Position, report, snapshot, observe_frames, observe_frame,
  observe_message, observe_msm, track_arp, collect_cnr, record_satellites, record_batch,
  count_satellites, msm_constellation, Reading, raised, unknown, parsed, parse_errors_total,
  buffered, keep_remainder, observe_rtcm_quality,
}

module _ (fl : Float) where
  abbrev pub IsWindowed : MountpointQuality fl → Type 0
  IsWindowed m =
      (name : String)
      → (length (cnr_of fl m name) ≤ window) × (length (sat_counts_of fl m name) ≤ window)

  record_cnr-IsWindowed :
      (m : MountpointQuality fl) (name : String) (values : List fl.F)
      → IsWindowed m
      → IsWindowed (record_cnr fl m name values)
  record_cnr-IsWindowed m name values w other =
      let (cnr, sats) = cnr_of-record_cnr fl m name other values in
      elim (Bool-cases (same name other)) [
        | inl here ↦
            rw (cnr, sats, here) (length-last-le window (cnr_of fl m name ++ values), (w other).1)
        | inr there ↦ rw (cnr, sats, there) (w other)
      ]

  record_sat_count-IsWindowed :
      (m : MountpointQuality fl) (name : String) (n : ℕ)
      → IsWindowed m
      → IsWindowed (record_sat_count fl m name n)
  record_sat_count-IsWindowed m name n w other =
      let (sats, cnr) = sat_counts_of-record_sat_count fl m name other n in
      elim (Bool-cases (same name other)) [
        | inl here ↦
            rw (cnr, sats, here)
              ((w other).0, length-last-le window (sat_counts_of fl m name ++ n ∷ []))
        | inr there ↦ rw (cnr, sats, there) (w other)
      ]

  abbrev pub AllWindowed : Seen fl → Type 0
  AllWindowed s = (mountpoint : String) → IsWindowed (snapshot fl s mountpoint)

  snapshot-set :
      (s : Seen fl) (mountpoint other : String) (m : MountpointQuality fl)
      → snapshot fl (record s { quality = Dict.set s.quality mountpoint m }) other
        ≡ (if same mountpoint other then m else snapshot fl s other)
  unfolding snapshot
  snapshot-set s mountpoint other m =
      ground (arith, get-set s.quality mountpoint other m, same_iff mountpoint other)

  set-AllWindowed :
      (s : Seen fl) (mountpoint : String) (m : MountpointQuality fl)
      → AllWindowed s
      → IsWindowed m
      → AllWindowed (record s { quality = Dict.set s.quality mountpoint m })
  set-AllWindowed s mountpoint m w v other = elim (Bool-cases (same mountpoint other)) [
    | inl here ↦ rw (snapshot-set s mountpoint other m, here) v
    | inr there ↦ rw (snapshot-set s mountpoint other m, there) (w other)
  ]

  same_quality : (s t : Seen fl) → t.quality ≡ s.quality → AllWindowed s → AllWindowed t
  unfolding snapshot
  same_quality s t e w other = rw (e, snapshot) (w other)

  module _ (p : Parser fl) (mountpoint : String) where
    quality-collect_cnr :
        (constellation prefix : String) (attributes : List (String × Option fl.F)) (s : Seen fl)
        (batch : List fl.F)
        → (collect_cnr fl p mountpoint constellation prefix attributes s batch).0.quality
          ≡ s.quality
    unfolding collect_cnr report
    quality-collect_cnr constellation prefix [] s batch = refl
    quality-collect_cnr constellation prefix ((name, none) ∷ rest) s batch =
        quality-collect_cnr constellation prefix rest s batch
    quality-collect_cnr constellation prefix ((name, some v) ∷ rest) s batch =
        rw (quality-collect_cnr constellation prefix rest _ _) (ground arith)

    quality-track_arp :
        (position : Position fl) (s : Seen fl)
        → (track_arp fl p mountpoint position s).quality ≡ s.quality
    unfolding track_arp report
    quality-track_arp (x, y, z) s = ground arith

    record_satellites-AllWindowed :
        (constellation : String) (n : ℕ) (s : Seen fl)
        → AllWindowed s
        → AllWindowed (record_satellites fl p mountpoint constellation n s)
    unfolding record_satellites report
    record_satellites-AllWindowed constellation n s w =
        set-AllWindowed _ mountpoint _ (same_quality s _ refl w)
          (record_sat_count-IsWindowed _ constellation n (same_quality s _ refl w mountpoint))

    record_batch-AllWindowed :
        (constellation : String) (r : Seen fl × List fl.F)
        → AllWindowed r.0
        → AllWindowed (record_batch fl p mountpoint constellation r)
    unfolding record_batch
    record_batch-AllWindowed constellation (s, []) w = w
    record_batch-AllWindowed constellation (s, x ∷ xs) w =
        set-AllWindowed s mountpoint _ w
          (record_cnr-IsWindowed _ constellation (x ∷ xs) (w mountpoint))

    observe_msm-AllWindowed :
        (constellation : String) (msg : Message fl) (s : Seen fl)
        → AllWindowed s
        → AllWindowed (observe_msm fl p mountpoint constellation msg s)
    unfolding observe_msm
    observe_msm-AllWindowed constellation msg s w =
        elim (Bool-cases (count_satellites fl msg.attributes == 0)) [
          | inl e ↦ rw e (rest s w)
          | inr e ↦ rw e (
              rest _ (
                record_satellites-AllWindowed constellation (count_satellites fl msg.attributes) s
                  w))
        ]
      where
        rest :
            (t : Seen fl)
            → AllWindowed t
            → AllWindowed (
                if leb 4 (msg.identity % 10)
                then record_batch fl p mountpoint constellation (
                    collect_cnr fl p mountpoint constellation
                      (if leb 6 (msg.identity % 10) then "DF408_" else "DF403_")
                      msg.attributes
                      t
                      [])
                else t)
        rest t v = elim (Bool-cases (leb 4 (msg.identity % 10))) [
          | inl e ↦ rw e (
              record_batch-AllWindowed constellation _
                (same_quality t _ (quality-collect_cnr constellation _ msg.attributes t []) v))
          | inr e ↦ rw e v
        ]

    observe_arp-AllWindowed :
        (o : Option (Position fl)) (s : Seen fl)
        → AllWindowed s
        → AllWindowed (elim o [ none ↦ s | some position ↦ track_arp fl p mountpoint position s ])
    observe_arp-AllWindowed none s w = w
    observe_arp-AllWindowed (some position) s w = same_quality s _ (quality-track_arp position s) w

    observe_constellation-AllWindowed :
        (o : Option String) (msg : Message fl) (s : Seen fl)
        → AllWindowed s
        → AllWindowed (elim o [
          | none ↦ s
          | some constellation ↦ observe_msm fl p mountpoint constellation msg s
        ])
    observe_constellation-AllWindowed none msg s w = w
    observe_constellation-AllWindowed (some constellation) msg s w =
        observe_msm-AllWindowed constellation msg s w

    observe_message-AllWindowed :
        (msg : Message fl) (s : Seen fl)
        → AllWindowed s
        → AllWindowed (observe_message fl p mountpoint msg s)
    unfolding observe_message report
    observe_message-AllWindowed msg s w =
        elim (Bool-cases (msg.identity == 1005 || msg.identity == 1006)) [
          | inl e ↦ rw e (observe_arp-AllWindowed msg.ecef _ (same_quality s _ refl w))
          | inr e ↦ rw e (
              observe_constellation-AllWindowed (msm_constellation (msg.identity / 10)) msg _
                (same_quality s _ refl w))
        ]

    observe_reading-AllWindowed :
        (f : Bytes) (s : Seen fl) → AllWindowed s → AllWindowed (observe_frame fl p mountpoint f s)
    unfolding observe_frame report
    observe_reading-AllWindowed f s w = go (p.read f)
      where
        go :
            (r : Reading fl)
            → AllWindowed (elim r [
              | raised ↦ report fl s (parse_errors_total mountpoint)
              | unknown ↦ s
              | parsed msg ↦ observe_message fl p mountpoint msg s
            ])
        go raised = same_quality s _ refl w
        go unknown = w
        go (parsed msg) = observe_message-AllWindowed msg s w

    observe_frames-AllWindowed :
        (fs : List Bytes) (s : Seen fl)
        → AllWindowed s
        → AllWindowed (observe_frames fl p mountpoint fs s)
    unfolding observe_frames
    observe_frames-AllWindowed [] s w = w
    observe_frames-AllWindowed (f ∷ fs) s w =
        observe_frames-AllWindowed fs (observe_frame fl p mountpoint f s)
          (observe_reading-AllWindowed f s w)

  -- What is retained for each mountpoint: an incomplete frame, and the two windows of each constellation.
  pub record IsRetained (s : Pipeline fl) : Type 0 where
    pub buffers :
        (mountpoint : String) → length (buffered s.frame_buffer mountpoint) < rtcm3_max_frame
    pub windows : AllWindowed s.seen

  buffered-keep_other :
      (d : Dict String Bytes) (mountpoint other : String) (r : Bytes)
      → length (buffered d other) < rtcm3_max_frame
      → length (buffered (keep_remainder (Dict.pop d mountpoint) mountpoint r) other)
        < rtcm3_max_frame
  unfolding buffered keep_remainder
  buffered-keep_other d mountpoint other [] h = ground (arith, get-pop d mountpoint other)
  buffered-keep_other d mountpoint other (b ∷ bs) h =
      ground (
        arith,
        get-pop d mountpoint other,
        get-set (Dict.pop d mountpoint) mountpoint other (b ∷ bs),
      )

  -- From a state in which every mountpoint's buffer is shorter than the largest frame and every
  -- window within 200 entries, any chunk on any mountpoint leads to such a state.
  pub observe_rtcm_quality-IsRetained :
      (p : Parser fl) (mountpoint : String) (chunk : Bytes) (s : Pipeline fl)
      → IsRetained s
      → IsRetained (observe_rtcm_quality fl p mountpoint chunk s)
  unfolding observe_rtcm_quality
  observe_rtcm_quality-IsRetained p mountpoint chunk s v = record {
    buffers = λ other. buffered-keep_other s.frame_buffer mountpoint other _ (v.buffers other);
    windows = observe_frames-AllWindowed p mountpoint _ s.seen v.windows;
  }
