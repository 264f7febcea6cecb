-- ===== src/Framing/Roundtrip.antt =====
-- A stream of well-formed frames is cut at their boundaries.
use corshub.Prelude.{
  ℕ, zero, suc, ◌≤◌, ◌≡◌, refl, ap, List, [], ◌∷◌, ◌++◌, arith, length, take, drop,
}
use mathlib.Core.List.{append_assoc}
use corshub.Framing.{
  Bytes, frame, rtcm3_preamble, rtcm3_max_frame, find_preamble, frame_total, frame_total-ge, round,
  split_rtcm_frames, split_rtcm_frames_lem,
}
use corshub.Framing.Chunks.{split_rtcm_frames-append}

-- What the framing asks of a frame: the preamble, and the length that its header announces.
pub record IsFrame (f : Bytes) : Type 0 where
  pub preamble : take 1 f ≡ rtcm3_preamble ∷ []
  pub sized : length f ≡ frame_total f
  pub small : length f ≤ rtcm3_max_frame

abbrev pub All : List Bytes → Type 0
All [] = Unit {0}
All (f ∷ fs) = IsFrame f × All fs

abbrev pub concat : List Bytes → Bytes
concat [] = []
concat (f ∷ fs) = f ++ concat fs

find_preamble-IsFrame : (f : Bytes) → IsFrame f → find_preamble f ≡ f
unfolding find_preamble
find_preamble-IsFrame [] h = refl
find_preamble-IsFrame (x ∷ xs) h =
    let p : take 1 (x ∷ xs) ≡ rtcm3_preamble ∷ [] = h.preamble in ground arith

take-all : (n : ℕ) (f : Bytes) → length f ≡ n → (take n f ≡ f) × (drop n f ≡ [])
take-all zero [] e = (refl, refl)
take-all (suc n) (x ∷ xs) e = let ih = take-all n xs (omega arith) in (ap (◌∷◌ x) ih.0, ih.1)
take-all zero (x ∷ xs) e = absurd (omega arith)
take-all (suc n) [] e = absurd (omega arith)

round-IsFrame : (f : Bytes) → IsFrame f → round f ≡ frame f []
unfolding round
round-IsFrame [] h = let p : take {A = ℕ} 1 [] ≡ rtcm3_preamble ∷ [] = h.preamble in cc
round-IsFrame (x ∷ xs) h =
    let small = h.small in
    let sized = h.sized in
    ground (arith, frame_total-ge (x ∷ xs), take-all (frame_total (x ∷ xs)) (x ∷ xs))

split_rtcm_frames-one : (f : Bytes) → IsFrame f → split_rtcm_frames f ≡ (f ∷ [], [])
split_rtcm_frames-one f h =
    rw
      (
        split_rtcm_frames_lem f,
        find_preamble-IsFrame f h,
        round-IsFrame f h,
        split_rtcm_frames_lem [],
      )
      (unfold find_preamble round in refl)

-- Cutting the concatenation of frames followed by other bytes gives those frames, then what cutting the other bytes gives.
pub split_rtcm_frames-concat :
    (fs : List Bytes) (rest : Bytes)
    → All fs
    → split_rtcm_frames (concat fs ++ rest)
      ≡ (fs ++ (split_rtcm_frames rest).0, (split_rtcm_frames rest).1)
split_rtcm_frames-concat [] rest h = refl
split_rtcm_frames-concat (f ∷ fs) rest h = rw (
  append_assoc f (concat fs) rest,
  split_rtcm_frames-append f (concat fs ++ rest),
  split_rtcm_frames-one f h.0,
  split_rtcm_frames-concat fs rest h.1,
)
