-- ===== src/Framing/Bounds.antt =====
-- Sizes: every frame is what its header announces, and what waits is shorter than a frame.
use Prim.Native.Nat.{bit_and, bit_or}
use corshub.Prelude.{
  ℕ, zero, suc, ◌+◌, ◌*◌, ◌/◌, ◌%◌, ◌^◌, ◌≤◌, ◌<◌, ◌≡◌, refl, Bool, true, false, List, [], ◌∷◌,
  arith, ltb, ltb→lt, if◌then◌else◌, length, take, length-take,
}
use corshub.Framing.{
  Bytes, Round, frame, skip, done, Falls, round-Falls, length-find_preamble-le, rtcm3_preamble,
  rtcm3_max_frame, find_preamble, frame_total, frame_total-ge, round, after_round,
  split_rtcm_frames, split_rtcm_frames_lem,
}
use corshub.Framing.Roundtrip.{IsFrame, All}

-- A round gives a frame, or leaves fewer bytes than the largest frame.
abbrev Good : Round → Type 0
Good (done rest) = length rest < rtcm3_max_frame
Good (skip rest) = Unit {0}
Good (frame f rest) = IsFrame f

find_preamble-head :
    (d : Bytes) (x : ℕ) (xs : Bytes) → find_preamble d ≡ x ∷ xs → x ≡ rtcm3_preamble
unfolding find_preamble
find_preamble-head [] x xs h = cc
find_preamble-head (y ∷ d) x xs h = ground (arith, find_preamble-head d x xs)

round-done :
    (x : ℕ) (xs : Bytes) (rest : Bytes) → round (x ∷ xs) ≡ done rest → length rest < rtcm3_max_frame
unfolding round
round-done x xs rest h = ground arith

frame_total-take : (n : ℕ) (d : Bytes) → 3 ≤ n → frame_total (take n d) ≡ frame_total d
unfolding frame_total
frame_total-take (suc (suc (suc n))) (x ∷ y ∷ z ∷ d) h = refl
frame_total-take (suc (suc (suc n))) (x ∷ y ∷ []) h = refl
frame_total-take (suc (suc (suc n))) (x ∷ []) h = refl
frame_total-take (suc (suc (suc n))) [] h = refl
frame_total-take (suc (suc zero)) d h = absurd (omega arith)
frame_total-take (suc zero) d h = absurd (omega arith)
frame_total-take zero d h = absurd (omega arith)

take-one : (n : ℕ) (x : ℕ) (xs : Bytes) → 0 < n → take 1 (take n (x ∷ xs)) ≡ x ∷ []
take-one zero x xs h = absurd (omega arith)
take-one (suc n) x xs h = refl

round-frame :
    (x : ℕ) (xs : Bytes) (f rest : Bytes)
    → x ≡ rtcm3_preamble
    → round (x ∷ xs) ≡ frame f rest
    → IsFrame f
unfolding round
round-frame x xs f rest e h = ground (
  arith,
  frame_total-ge (x ∷ xs),
  length-take (frame_total (x ∷ xs)) (x ∷ xs),
  frame_total-take (frame_total (x ∷ xs)) (x ∷ xs),
  take-one (frame_total (x ∷ xs)) x xs,
)

abbrev Sound : List Bytes × Bytes → Type 0
Sound (fs, rest) = All fs × (length rest < rtcm3_max_frame)

Sound-round :
    (d c : Bytes) (r : Round)
    → find_preamble d ≡ c
    → round c ≡ r
    → length c ≤ length d
    → Falls (length c) r
    → ((s : Bytes) → length s < length d → Sound (split_rtcm_frames s))
    → Sound (after_round r)
unfolding round
Sound-round d [] r e er le falls ih = rw (← er) (tt, omega arith)
Sound-round d (x ∷ xs) (done rest) e er le falls ih = (tt, round-done x xs rest er)
Sound-round d (x ∷ xs) (skip rest) e er le falls ih = ih rest (omega arith)
Sound-round d (x ∷ xs) (frame f rest) e er le falls ih =
    let (fs, rest_short) = ih rest (omega arith) in
    ((round-frame x xs f rest (find_preamble-head d x xs e) er, fs), rest_short)

Sound-below : (k : ℕ) (d : Bytes) → length d < k → Sound (split_rtcm_frames d)
Sound-below zero d h = absurd (omega arith)
Sound-below (suc k) d h = rw (split_rtcm_frames_lem d) (
    Sound-round d (find_preamble d) (round (find_preamble d)) refl refl (length-find_preamble-le d)
      (round-Falls _ (find_preamble d) (omega arith)) (λ s hs. Sound-below k s (omega arith)))

-- Every extracted frame begins with a preamble, has the length that its header announces and is no
-- longer than the largest frame; the bytes that are left over are fewer than the largest frame.
pub split_rtcm_frames_sound :
    (d : Bytes) → All (split_rtcm_frames d).0 × (length (split_rtcm_frames d).1 < rtcm3_max_frame)
split_rtcm_frames_sound d = Sound-below (suc (length d)) d (omega arith)

-- Bytes are numbers below 256.
abbrev pub IsBytes : Bytes → Type 0
IsBytes [] = Unit {0}
IsBytes (b ∷ bs) = (b < 256) × IsBytes bs

-- Whether a test passes at each number under a bound.
passes_under : (ℕ → Bool) → ℕ → Bool
passes_under test zero = true
passes_under test (suc k) = if test k then passes_under test k else false

passes_at : (test : ℕ → Bool) (k i : ℕ) → i < k → passes_under test k ≡ true → test i ≡ true
unfolding passes_under
passes_at test zero i lt all = absurd (omega arith)
passes_at test (suc k) i lt all = ground (arith, passes_at test k i)

masked_table : passes_under (λ b. ltb (bit_and b 0x03) 4) 256 ≡ true
unfolding passes_under
masked_table = refl

joined_table : passes_under (λ n. ltb (bit_or (n / 256 * 2 ^ 8) (n % 256)) 1024) 1024 ≡ true
unfolding passes_under
joined_table = refl

length_field-lt : (b1 b2 : ℕ) → b1 < 256 → b2 < 256 → bit_or (bit_and b1 0x03 * 2 ^ 8) b2 < 1024
length_field-lt b1 b2 h1 h2 =
    let m : ℕ = bit_and b1 0x03 in
    let small : m < 4 =
      ltb→lt m 4 (passes_at (λ b. ltb (bit_and b 0x03) 4) 256 b1 h1 masked_table) in
    let hi : (m * 256 + b2) / 256 ≡ m = omega arith in
    let lo : (m * 256 + b2) % 256 ≡ b2 = omega arith in
    let fits : ltb (bit_or ((m * 256 + b2) / 256 * 256) ((m * 256 + b2) % 256)) 1024 ≡ true =
      passes_at (λ n. ltb (bit_or (n / 256 * 2 ^ 8) (n % 256)) 1024) 1024 (m * 256 + b2)
        (omega arith) joined_table in
    ltb→lt _ 1024 (rw (hi, lo) at fits)

-- For bytes the announced total never passes the largest frame, so the guard on oversized frames
-- never fires.
frame_total-le : (d : Bytes) → IsBytes d → frame_total d ≤ rtcm3_max_frame
unfolding frame_total
frame_total-le (_ ∷ b1 ∷ b2 ∷ _) h = omega (arith, length_field-lt b1 b2 h.1.0 h.1.1.0)
frame_total-le (_ ∷ _ ∷ []) h = omega arith
frame_total-le (_ ∷ []) h = omega arith
frame_total-le [] h = omega arith
