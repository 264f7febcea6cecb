-- ===== src/Udp/Nearest.antt =====
-- The nearest mountpoint is in range, and none in range is nearer.
use corshub.Prelude.{
  ◌≡◌, refl, sym, ap, ◌∙◌, true, false, ◌&&◌, Option, none, some, String, [], ◌∷◌, if◌then◌else◌,
  string_eq, same, same_iff, same_refl, arith, Bool-cases, inl, inr,
}
use corshub.Dict
use corshub.Dict.{Dict, Distinct}
use corshub.Float.{Float}
use corshub.Geodesy.{haversine}
use corshub.Mountpoint.{Mountpoint}
use corshub.Udp.{Position, consider, consider_all, nearest}

module _ (fl : Float) where
  -- The order `<` of floats, with infinities and NaN among them.
  pub record IsOrder : Type 0 where
    pub lt_irrefl : (a : fl.F) → fl.lt a a ≡ false
    pub lt_trans : (a b c : fl.F) → fl.lt a b ≡ true → fl.lt b c ≡ true → fl.lt a c ≡ true

  -- The distance to a mountpoint that has coordinates and whose mask, if it has one, is not exceeded.
  abbrev pub distance : Position fl → Mountpoint fl → Option fl.F
  distance (lat, lon) mp = elim mp.latitude [
    | none ↦ none
    | some mp_lat ↦ elim mp.longitude [
      | none ↦ none
      | some mp_lon ↦
          let dist = haversine fl mp_lat mp_lon lat lon in
          if fl.lt (fl.literal 0) mp.mask && fl.lt mp.mask dist then none else some dist
    ]
  ]

  -- The round of the loop, by the distance.
  improve : String → Option fl.F → fl.F × Option String → fl.F × Option String
  improve k none best = best
  improve k (some e) best = if fl.lt e best.0 then (e, some k) else best

  consider-improve :
      (p : Position fl) (k : String) (mp : Mountpoint fl) (best : fl.F × Option String)
      → consider fl p k mp best ≡ improve k (distance p mp) best
  unfolding consider improve
  consider-improve p k mp best = ground arith

  -- The best distance is the initial one, or that of the best mountpoint.
  abbrev pub IsBest : Dict String (Mountpoint fl) → Position fl → fl.F × Option String → Type 0
  IsBest d p (dist, none) = dist ≡ fl.infinity
  IsBest d p (dist, some best) =
      (n : Mountpoint fl) × (Dict.get d best ≡ some n)
      × (distance p n ≡ some dist)
      × (fl.lt dist fl.infinity ≡ true)

  module _ (order : IsOrder) (d : Dict String (Mountpoint fl)) (p : Position fl) where
    below :
        (x dist : fl.F) (b : Option String)
        → fl.lt x dist ≡ true
        → IsBest d p (dist, b)
        → fl.lt x fl.infinity ≡ true
    below x dist none l w = sym (ap (fl.lt x) w) ∙ l
    below x dist (some b) l (n, _, _, w) = order.lt_trans x dist fl.infinity l w

    improve-IsBest :
        (k : String) (mp : Mountpoint fl) (o : Option fl.F) (best : fl.F × Option String)
        → Dict.get d k ≡ some mp
        → distance p mp ≡ o
        → IsBest d p best
        → IsBest d p (improve k o best)
    unfolding improve
    improve-IsBest k mp none best g e v = v
    improve-IsBest k mp (some x) (dist, b) g e v = elim (Bool-cases (fl.lt x dist)) [
      | inl l ↦ rw l (mp, g, e, below x dist b l v)
      | inr l ↦ rw l v
    ]

    consider_all-IsBest :
        (rest : Dict String (Mountpoint fl)) (best : fl.F × Option String)
        → Distinct rest
        → ((k : String) (mp : Mountpoint fl) → Dict.get rest k ≡ some mp → Dict.get d k ≡ some mp)
        → IsBest d p best
        → IsBest d p (consider_all fl p rest best)
    unfolding consider_all Dict.get
    consider_all-IsBest [] best h sub v = v
    consider_all-IsBest ((k, mp) ∷ rest) best h sub v =
        consider_all-IsBest rest (consider fl p k mp best) h.1
          (λ j n g. sub j n (ground (arith, g, h.0, same_iff k j)))
          (rw (consider-improve p k mp best)
            (improve-IsBest k mp (distance p mp) best (sub k mp (rw (same_refl k))) refl v))

    -- Nothing that is not nearer than the best so far is nearer than the best at the end.
    improve-le :
        (k : String) (o : Option fl.F) (best : fl.F × Option String) (e : fl.F)
        → fl.lt e best.0 ≡ false
        → fl.lt e (improve k o best).0 ≡ false
    unfolding improve
    improve-le k none best e h = h
    improve-le k (some x) best e h = ground (arith, order.lt_trans e x best.0)

    consider_all-le :
        (rest : Dict String (Mountpoint fl)) (best : fl.F × Option String) (e : fl.F)
        → fl.lt e best.0 ≡ false
        → fl.lt e (consider_all fl p rest best).0 ≡ false
    unfolding consider_all
    consider_all-le [] best e h = h
    consider_all-le ((k, mp) ∷ rest) best e h =
        consider_all-le rest (consider fl p k mp best) e
          (rw (consider-improve p k mp best) (improve-le k (distance p mp) best e h))

    improve_self :
        (k : String) (best : fl.F × Option String) (e : fl.F)
        → fl.lt e (improve k (some e) best).0 ≡ false
    unfolding improve
    improve_self k best e = ground (arith, order.lt_irrefl e)

    consider_all_least :
        (rest : Dict String (Mountpoint fl)) (best : fl.F × Option String) (k : String)
        (mp : Mountpoint fl) (e : fl.F)
        → Dict.get rest k ≡ some mp
        → distance p mp ≡ some e
        → fl.lt e (consider_all fl p rest best).0 ≡ false
    unfolding consider_all Dict.get
    consider_all_least [] best k mp e g h = ground arith
    consider_all_least ((j, n) ∷ rest) best k mp e g h = elim (Bool-cases (same j k)) [
      | inl here ↦
          let found : n ≡ mp = ground (arith, here) in
          consider_all-le rest (consider fl p j n best) e
            (rw (consider-improve p j n best, found, h) (improve_self j best e))
      | inr there ↦
          consider_all_least rest (consider fl p j n best) k mp e (ground (arith, there)) h
    ]

    -- The answer is a mountpoint that is in range, within a distance that `e` does not go below; or
    -- there is none, and `e` is infinite.
    abbrev pub IsNearest : fl.F → Option String → Type 0
    IsNearest e none = fl.lt e fl.infinity ≡ false
    IsNearest e (some best) =
        (n : Mountpoint fl) × (dist : fl.F) × (Dict.get d best ≡ some n)
        × (distance p n ≡ some dist)
        × (fl.lt dist fl.infinity ≡ true)
        × (fl.lt e dist ≡ false)

    best-IsNearest :
        (e : fl.F) (best : fl.F × Option String)
        → IsBest d p best
        → fl.lt e best.0 ≡ false
        → IsNearest e best.1
    best-IsNearest e (dist, none) v l = ap (fl.lt e) (sym v) ∙ l
    best-IsNearest e (dist, some b) (n, g, h, w) l = (n, dist, g, h, w, l)

    -- For every mountpoint in range, at a distance `e`, the search for the nearest one answers a
    -- mountpoint that is registered and in range, and than which the given one is not nearer; it
    -- answers none only if `e` is not below infinity.
    pub nearest-IsNearest :
        (k : String) (mp : Mountpoint fl) (e : fl.F)
        → Distinct d
        → Dict.get d k ≡ some mp
        → distance p mp ≡ some e
        → IsNearest e (nearest fl d p)
    unfolding nearest
    nearest-IsNearest k mp e h g r =
        best-IsNearest e (consider_all fl p d (fl.infinity, none))
          (consider_all-IsBest d (fl.infinity, none) h (λ _ _ q. q) refl)
          (consider_all_least d (fl.infinity, none) k mp e g r)
