-- ===== src/Tests/Frames.antt =====
-- Tests of `_split_rtcm_frames`.
use corshub.Prelude.{◌≡◌, refl, [], ◌∷◌, ◌++◌, ◌<◌, length, arith}
use corshub.Framing.{Bytes, frame_total, split_rtcm_frames, rtcm3_max_frame}
use corshub.Framing.Chunks.{then_frames, split_rtcm_frames-append}
use corshub.Framing.Roundtrip.{IsFrame, All, concat, split_rtcm_frames-concat}
use corshub.Framing.Bounds.{split_rtcm_frames_sound}

abbrev short_frame : Bytes
short_frame = 0xD3 ∷ 0 ∷ 1 ∷ 7 ∷ 8 ∷ 9 ∷ 10 ∷ []

abbrev junk_first : Bytes
junk_first = 1 ∷ 2 ∷ 0xD3 ∷ 0 ∷ 1 ∷ 7 ∷ []

short_frame-IsFrame : IsFrame short_frame
unfolding frame_total
short_frame-IsFrame = record { preamble = refl; sized = refl; small = omega arith }

split_runs :
    split_rtcm_frames (junk_first ++ 8 ∷ 9 ∷ 10 ∷ 0xD3 ∷ []) ≡ (short_frame ∷ [], 0xD3 ∷ [])
unfolding split_rtcm_frames
split_runs = refl

split_rtcm_frames-append_example :
    split_rtcm_frames (junk_first ++ 8 ∷ 9 ∷ 10 ∷ [])
    ≡ then_frames (split_rtcm_frames junk_first) (8 ∷ 9 ∷ 10 ∷ [])
split_rtcm_frames-append_example = split_rtcm_frames-append junk_first (8 ∷ 9 ∷ 10 ∷ [])

split_rtcm_frames-concat_example :
    split_rtcm_frames (concat (short_frame ∷ short_frame ∷ []) ++ 0xD3 ∷ 0 ∷ [])
    ≡ (short_frame ∷ short_frame ∷ [], 0xD3 ∷ 0 ∷ [])
unfolding split_rtcm_frames
split_rtcm_frames-concat_example =
    split_rtcm_frames-concat (short_frame ∷ short_frame ∷ []) (0xD3 ∷ 0 ∷ [])
      (short_frame-IsFrame, (short_frame-IsFrame, tt))

split_rtcm_frames_sound_example :
    All (split_rtcm_frames junk_first).0
    × (length (split_rtcm_frames junk_first).1 < rtcm3_max_frame)
split_rtcm_frames_sound_example = split_rtcm_frames_sound junk_first
