-- ===== src/Here4/Backoff.antt =====
-- How long the base station tool waits between attempts to connect.
use Prim.Native.Nat.{min}
use Prim.Native.Nat.pow
use corshub.Prelude.{
  ℕ, suc, ◌*◌, ◌^◌, ◌≡◌, refl, sym, ◌∙◌, true, false, String, List, [], ◌∷◌, ◌++◌, ◌==◌, arith,
}
use mathlib.Core.List.{append_assoc, append-nil}
use corshub.Float.{Float}
use corshub.Here4.{Numerals, Arguments}
use corshub.Here4.Receiver.{is_fixed, GnssState}
use corshub.Here4.Pusher.{new_pusher, Push, poll, fail, answer, wake}

module _ (fl : Float) where
  -- An attempt that the caster does not accept: the request, the answer, the sleep.
  abbrev pub attempt : Numerals fl → Arguments fl → ℕ × String → Push fl → Push fl
  attempt num a (status, exc) s = wake fl (answer fl status exc (poll fl num a s))

  abbrev pub attempts : Numerals fl → Arguments fl → List (ℕ × String) → Push fl → Push fl
  attempts num a [] s = s
  attempts num a (r ∷ rs) s = attempts num a rs (attempt num a r s)

  abbrev pub AllRefused : List (ℕ × String) → Type 0
  AllRefused [] = Unit
  AllRefused ((status, _) ∷ rs) = ((status == 200) ≡ false) × AllRefused rs

  -- The waits from the `k`-th on: doubled each time, and at most thirty seconds.
  abbrev pub waits : ℕ → List (ℕ × String) → List ℕ
  waits k [] = []
  waits k (_ ∷ rs) = min (2 ^ k) 30 ∷ waits (suc k) rs

  attempt-slept :
      (num : Numerals fl) (a : Arguments fl) (r : ℕ × String) (s : Push fl)
      → (r.0 == 200) ≡ false
      → is_fixed s.1.state ≡ true
      → ((attempt num a r s).0.slept ≡ s.0.slept ++ s.0.backoff ∷ [])
        × ((attempt num a r s).0.backoff ≡ min (s.0.backoff * 2) 30)
        × (is_fixed (attempt num a r s).1.state ≡ true)
  unfolding wake answer poll fail
  attempt-slept num a (status, exc) (p, gs) h k =
      rw (h, k, answer, poll, fail, wake) (refl, refl, k)

  waits-attempts :
      (num : Numerals fl) (a : Arguments fl) (rs : List (ℕ × String)) (k : ℕ) (s : Push fl)
      → AllRefused rs
      → is_fixed s.1.state ≡ true
      → s.0.backoff ≡ min (2 ^ k) 30
      → (attempts num a rs s).0.slept ≡ s.0.slept ++ waits k rs
  waits-attempts num a [] k s h f e = sym (append-nil s.0.slept)
  waits-attempts num a (r ∷ rs) k s h f e =
      let step : ((attempt num a r s).0.slept ≡ s.0.slept ++ s.0.backoff ∷ [])
          × ((attempt num a r s).0.backoff ≡ min (s.0.backoff * 2) 30)
          × (is_fixed (attempt num a r s).1.state ≡ true) =
        attempt-slept num a r s h.0 f in
      waits-attempts num a rs (suc k) (attempt num a r s) h.1 step.2
        (step.1 ∙ rw (e, pow.suc 2 k) (omega arith))
      ∙ rw (step.0, e) (append_assoc s.0.slept (min (2 ^ k) 30 ∷ []) (waits (suc k) rs))

  -- When the caster refuses one attempt after the other from the start, with a position known, the
  -- tool sleeps one second, then twice as long each time, and never longer than thirty.
  pub slept-attempts :
      (num : Numerals fl) (a : Arguments fl) (rs : List (ℕ × String)) (gs : GnssState fl)
      → AllRefused rs
      → is_fixed gs.state ≡ true
      → (attempts num a rs (new_pusher fl, gs)).0.slept ≡ waits 0 rs
  unfolding new_pusher
  slept-attempts num a rs gs h f = waits-attempts num a rs 0 (new_pusher fl, gs) h f refl
