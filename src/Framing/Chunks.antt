-- ===== src/Framing/Chunks.antt =====
-- Cutting a stream chunk by chunk gives the frames of the whole stream.
use corshub.Prelude.{
  ℕ, zero, suc, ◌≤◌, ◌<◌, ◌≡◌, refl, sym, ap, ◌∙◌, List, [], ◌∷◌, ◌++◌, arith, length,
  length-append, take-append, drop-append,
}
use corshub.Framing.{
  Bytes, Round, done, skip, frame, find_preamble, frame_total, round, after_round,
  split_rtcm_frames, split_rtcm_frames_lem, Falls, round-Falls, length-find_preamble-le,
}

-- A search starts again where the last one stopped.
pub find_preamble-append :
    (a b : Bytes) → find_preamble (a ++ b) ≡ find_preamble (find_preamble a ++ b)
unfolding find_preamble
find_preamble-append [] b = refl
find_preamble-append (x ∷ a) b = ground (arith, find_preamble-append a b)

-- Past the search, the loop only sees the bytes from the preamble on.
pub split-of-find :
    (d e : Bytes) → find_preamble d ≡ find_preamble e → split_rtcm_frames d ≡ split_rtcm_frames e
split-of-find d e h =
    split_rtcm_frames_lem d ∙ ap (λ s. after_round (round s)) h ∙ sym (split_rtcm_frames_lem e)

-- A search ends at a preamble, or finds none.
find_preamble-fix :
    (d b : Bytes) (x : ℕ) (xs : Bytes)
    → find_preamble d ≡ x ∷ xs
    → find_preamble ((x ∷ xs) ++ b) ≡ (x ∷ xs) ++ b
unfolding find_preamble
find_preamble-fix [] b x xs h = ground arith
find_preamble-fix (y ∷ d) b x xs h = ground (arith, find_preamble-fix d b x xs)

frame_total-append : (a b : Bytes) → 3 ≤ length a → frame_total (a ++ b) ≡ frame_total a
unfolding frame_total
frame_total-append (x ∷ y ∷ z ∷ a) b h = refl
frame_total-append (x ∷ y ∷ []) b h = absurd (omega arith)
frame_total-append (x ∷ []) b h = absurd (omega arith)
frame_total-append [] b h = absurd (omega arith)

-- More bytes change a round only if it waited for them.
abbrev Extends : Bytes → Round → Round → Bytes → Type 0
Extends a (done rest) r b = rest ≡ a
Extends a (skip rest) r b = r ≡ skip (rest ++ b)
Extends a (frame f rest) r b = r ≡ frame f (rest ++ b)

round-Extends : (a b : Bytes) → Extends a (round a) (round (a ++ b)) b
unfolding round
round-Extends [] b = refl
round-Extends (x ∷ a) b = ground (
  arith,
  length-append a b,
  frame_total-append (x ∷ a) b,
  take-append (frame_total (x ∷ a)) (x ∷ a) b,
  drop-append (frame_total (x ∷ a)) (x ∷ a) b,
)

-- What both calls give together: the frames in order, and what still waits.
abbrev pub then_frames : List Bytes × Bytes → Bytes → List Bytes × Bytes
then_frames (fs, rest) b =
    (fs ++ (split_rtcm_frames (rest ++ b)).0, (split_rtcm_frames (rest ++ b)).1)

abbrev Splits : Bytes → Bytes → Type 0
Splits a b = split_rtcm_frames (a ++ b) ≡ then_frames (split_rtcm_frames a) b

append-round :
    (a b : Bytes) (r : Round)
    → Falls (length a) r
    → Extends a r (round (a ++ b)) b
    → find_preamble (a ++ b) ≡ a ++ b
    → ((s : Bytes) → length s < length a → Splits s b)
    → split_rtcm_frames (a ++ b) ≡ then_frames (after_round r) b
append-round a b (done rest) fall ext found ih = rw ext
append-round a b (skip rest) fall ext found ih =
    rw (split_rtcm_frames_lem (a ++ b), found, ext) (ih rest fall)
append-round a b (frame f rest) fall ext found ih =
    rw (split_rtcm_frames_lem (a ++ b), found, ext, ih rest fall)

-- The search of `a` ended at `c`.
append-found :
    (a b c : Bytes)
    → find_preamble a ≡ c
    → ((s : Bytes) → length s < length a → Splits s b)
    → Splits a b
unfolding round
append-found a b [] e ih =
    rw (split_rtcm_frames_lem a, e)
      (split-of-find (a ++ b) b (find_preamble-append a b ∙ ap (λ s. find_preamble (s ++ b)) e))
append-found a b (x ∷ xs) e ih =
    let short : length (x ∷ xs) ≤ length a =
      omega (arith, length-find_preamble-le a, ap length e) in
    rw (split_rtcm_frames_lem a, e)
      (split-of-find (a ++ b) ((x ∷ xs) ++ b)
          (find_preamble-append a b ∙ ap (λ s. find_preamble (s ++ b)) e)
        ∙ append-round (x ∷ xs) b (round (x ∷ xs))
            (round-Falls (length (x ∷ xs)) (x ∷ xs) (omega arith)) (round-Extends (x ∷ xs) b)
            (find_preamble-fix a b x xs e) (λ s hs. ih s (omega arith)))

Splits-below : (k : ℕ) (a b : Bytes) → length a < k → Splits a b
Splits-below zero a b h = absurd (omega arith)
Splits-below (suc k) a b h =
    append-found a b (find_preamble a) refl (λ s hs. Splits-below k s b (omega arith))

-- Splitting the concatenation of two chunks gives the frames of the first, then those of what the
-- first left over followed by the second, and leaves the same bytes over.
pub split_rtcm_frames-append :
    (a b : Bytes) → split_rtcm_frames (a ++ b) ≡ then_frames (split_rtcm_frames a) b
split_rtcm_frames-append a b = Splits-below (suc (length a)) a b (omega arith)
