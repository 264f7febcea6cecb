-- ===== src/Framing.antt =====
-- `_split_rtcm_frames` of src/corshub/ntrip/v2/caster.py: cutting a byte stream into RTCM3 frames.
-- A `bytes` object is the list of its bytes, and the loop's index `i` is the suffix `data[i:]`.
pub mod Chunks
pub mod Roundtrip
pub mod Bounds
use Prim.Native.Nat.{bit_and, bit_or}
use mathlib.Core.WellFounded.{Acc}
use corshub.Prelude.{
  ℕ, zero, suc, ◌+◌, ◌*◌, ◌-◌, ◌^◌, ◌≤◌, ◌<◌, ◌≡◌, refl, Bool, true, false, ◌⊎◌, inl, inr, List, [],
  ◌∷◌, arith, ltb, ltb→lt, ltb→le, ◌==◌, if◌then◌else◌, Bool-cases, length, take, drop, length-drop,
}

abbrev pub Bytes : Type 0
Bytes = List ℕ

abbrev pub rtcm3_preamble : ℕ
rtcm3_preamble = 0xD3

abbrev pub rtcm3_max_frame : ℕ
rtcm3_max_frame = 1029

-- `data.find(_RTCM3_PREAMBLE, i)`: the suffix from the first preamble on, `[]` for a result of -1.
unfoldable pub find_preamble : Bytes → Bytes
find_preamble [] = []
find_preamble (b ∷ bs) = if b == rtcm3_preamble then b ∷ bs else find_preamble bs

-- `(((data[i + 1] & 0x03) << 8) | data[i + 2]) + 6`
unfoldable pub frame_total : Bytes → ℕ
frame_total (_ ∷ b1 ∷ b2 ∷ _) = bit_or (bit_and b1 0x03 * 2 ^ 8) b2 + 6
frame_total _ = 6

-- One round of the loop, at a suffix that begins with a preamble, or is empty if there is none.
pub data Round : Type 0 where
  done : Bytes → Round
  skip : Bytes → Round
  frame : Bytes → Bytes → Round

unfoldable pub round : Bytes → Round
round [] = done []
round (b ∷ bs) =
    if ltb (length (b ∷ bs)) 3
    then done (b ∷ bs)
    else if ltb rtcm3_max_frame (frame_total (b ∷ bs))
    then skip bs
    else if ltb (length (b ∷ bs)) (frame_total (b ∷ bs))
    then done (b ∷ bs)
    else frame (take (frame_total (b ∷ bs)) (b ∷ bs)) (drop (frame_total (b ∷ bs)) (b ∷ bs))

-- What a round leaves to the next one is shorter than `n`.
abbrev pub Falls : ℕ → Round → Type 0
Falls n (done _) = Unit {0}
Falls n (skip rest) = length rest < n
Falls n (frame _ rest) = length rest < n

pub length-find_preamble-le : (d : Bytes) → length (find_preamble d) ≤ length d
unfolding find_preamble
length-find_preamble-le [] = omega arith
length-find_preamble-le (b ∷ bs) = ground (arith, length-find_preamble-le bs)

-- A frame is never empty: its total counts the header and the checksum.
pub frame_total-ge : (d : Bytes) → 6 ≤ frame_total d
unfolding frame_total
frame_total-ge (_ ∷ b1 ∷ b2 ∷ _) = omega arith
frame_total-ge (_ ∷ _ ∷ []) = omega arith
frame_total-ge (_ ∷ []) = omega arith
frame_total-ge [] = omega arith

pub round-Falls : (n : ℕ) (d : Bytes) → length d ≤ n → Falls n (round d)
unfolding round
round-Falls n [] h = tt
round-Falls n (b ∷ bs) h =
    ground (arith, frame_total-ge (b ∷ bs), length-drop (frame_total (b ∷ bs)) (b ∷ bs))

abbrev pub Shorter : Bytes → Bytes → Type 0
Shorter s d = length s < length d

Acc-below : (k : ℕ) (d : Bytes) → length d < k → Acc Shorter d
Acc-below zero d h = elim h [ ]
Acc-below (suc k) d h = Acc.intro d (λ s hs. Acc-below k s (omega arith))

Shorter_wf : (d : Bytes) → Acc Shorter d
unfolding Acc-below
Shorter_wf d = Acc-below (suc (length d)) d (omega arith)

-- The rest of the loop after a round.
continue :
    {n : ℕ} (r : Round)
    → Falls n r
    → ((s : Bytes) → length s < n → List Bytes × Bytes)
    → List Bytes × Bytes
continue (done rest) _ loop = ([], rest)
continue (skip rest) h loop = loop rest h
continue (frame f rest) h loop = let (fs, r) = loop rest h in (f ∷ fs, r)

split_acc : (d : Bytes) → Acc Shorter d → List Bytes × Bytes
unfolding continue
split_acc d (Acc.intro _ smaller) =
    continue {n = length d} (round (find_preamble d))
      (round-Falls (length d) (find_preamble d) (length-find_preamble-le d))
      (λ s h. split_acc s (smaller s h))

-- `_split_rtcm_frames`: the complete frames, and the bytes that wait for the next chunk.
unfoldable pub split_rtcm_frames : Bytes → List Bytes × Bytes
unfolding split_acc find_preamble frame_total round Shorter_wf
split_rtcm_frames d = split_acc d (Shorter_wf d)

runs :
    split_rtcm_frames (1 ∷ 0xD3 ∷ 0 ∷ 1 ∷ 7 ∷ 8 ∷ 9 ∷ 10 ∷ 3 ∷ 0xD3 ∷ 0 ∷ [])
    ≡ ((0xD3 ∷ 0 ∷ 1 ∷ 7 ∷ 8 ∷ 9 ∷ 10 ∷ []) ∷ [], 0xD3 ∷ 0 ∷ [])
unfolding split_rtcm_frames
runs = refl

-- The loop does not depend on why it ends.
continue_ext :
    {n : ℕ} (r : Round) (h h' : Falls n r) (f g : (s : Bytes) → length s < n → List Bytes × Bytes)
    → ((s : Bytes) (p q : length s < n) → f s p ≡ g s q)
    → continue r h f ≡ continue r h' g
unfolding continue
continue_ext (done rest) h h' f g e = refl
continue_ext (skip rest) h h' f g e = e rest h h'
continue_ext (frame x rest) h h' f g e = rw (e rest h h')

split_acc_unique : (d : Bytes) (v w : Acc Shorter d) → split_acc d v ≡ split_acc d w
unfolding split_acc
split_acc_unique d (Acc.intro _ sv) (Acc.intro _ sw) =
    continue_ext {n = length d} (round (find_preamble d)) _ _ _ _
      (λ s p q. split_acc_unique s (sv s p) (sw s q))

-- One round of the loop, then the loop again.
abbrev pub after_round : Round → List Bytes × Bytes
after_round (done rest) = ([], rest)
after_round (skip rest) = split_rtcm_frames rest
after_round (frame f rest) = (f ∷ (split_rtcm_frames rest).0, (split_rtcm_frames rest).1)

continue-after_round :
    {n : ℕ} (r : Round) (h : Falls n r) (f : (s : Bytes) → length s < n → List Bytes × Bytes)
    → ((s : Bytes) (p : length s < n) → f s p ≡ split_rtcm_frames s)
    → continue r h f ≡ after_round r
unfolding continue
continue-after_round (done rest) h f e = refl
continue-after_round (skip rest) h f e = e rest h
continue-after_round (frame x rest) h f e = rw (e rest h)

split_acc_lem :
    (d : Bytes) (w : Acc Shorter d) → split_acc d w ≡ after_round (round (find_preamble d))
unfolding split_acc split_rtcm_frames
split_acc_lem d (Acc.intro _ smaller) =
    continue-after_round {n = length d} (round (find_preamble d)) _ _
      (λ s p. split_acc_unique s (smaller s p) (Shorter_wf s))

pub split_rtcm_frames_lem :
    (d : Bytes) → split_rtcm_frames d ≡ after_round (round (find_preamble d))
unfolding split_rtcm_frames
split_rtcm_frames_lem d = split_acc_lem d (Shorter_wf d)
