-- ===== src/Udp/Scope.antt =====
-- What `_resolve_mountpoint` authorizes, and why it refuses.
use corshub.Prelude.{
  ◌≡◌, refl, true, false, ◌||◌, Option, none, some, String, if◌then◌else◌, string_eq, same,
  same_iff, arith, Bool-cases, ◌⊎◌, inl, inr,
}
use corshub.Dict
use corshub.Dict.{Dict, Distinct}
use corshub.Float.{Float}
use corshub.Mountpoint.{Mountpoint}
use corshub.Udp.{
  Position, missing_position, mountpoint_unavailable, unauthorized_mountpoint, invalid_token,
  internal, out_of_range, Resolution, resolved, refused, scope_allows, nearest, resolve_nearest,
  resolve_named, resolve_mountpoint,
}

module _ (fl : Float) where
  -- What the rover asks for: the mountpoint that it names, or the nearest one to its position.
  abbrev pub asked : Dict String (Mountpoint fl) → String → Option (Position fl) → Option String
  asked d requested position =
      if same requested "NEAREST"
      then (elim position [ none ↦ none | some p ↦ nearest fl d p ])
      else some requested

  -- The meaning of an answer.
  abbrev pub Justifies :
      Dict String (Mountpoint fl) → String → String → Option (Position fl) → Resolution → Type 0
  Justifies d scope requested position (resolved m) =
      (asked d requested position ≡ some m)
      × (scope_allows scope m ≡ true)
      × ((same requested "NEAREST" || Dict.contains d m) ≡ true)
  Justifies d scope requested position (refused missing_position) =
      (requested ≡ "NEAREST") × (position ≡ none)
  Justifies d scope requested position (refused unauthorized_mountpoint) =
      (m : String) × (asked d requested position ≡ some m) × (scope_allows scope m ≡ false)
  Justifies d scope requested position (refused mountpoint_unavailable) =
      ((requested ≡ "NEAREST") × (asked d requested position ≡ none))
      ⊎ ((scope_allows scope requested ≡ true) × (Dict.contains d requested ≡ false))
  Justifies d scope requested position (refused invalid_token) = ⊥
  Justifies d scope requested position (refused internal) = ⊥
  Justifies d scope requested position (refused out_of_range) = ⊥

  resolve_nearest_lem :
      (scope best : String)
      → resolve_nearest fl scope (some best)
        ≡ (if scope_allows scope best then resolved best else refused unauthorized_mountpoint)
  unfolding resolve_nearest scope_allows
  resolve_nearest_lem scope best = ground (arith, same_iff best scope, same_iff scope best)

  resolve_named_lem :
      (d : Dict String (Mountpoint fl)) (scope requested : String)
      → resolve_named fl d scope requested ≡ (
          if scope_allows scope requested
          then (if Dict.contains d requested
              then resolved requested
              else refused mountpoint_unavailable)
          else refused unauthorized_mountpoint)
  unfolding resolve_named scope_allows
  resolve_named_lem d scope requested =
      ground (arith, same_iff requested scope, same_iff scope requested)

  nearest-Justifies :
      (d : Dict String (Mountpoint fl)) (scope requested : String) (p : Position fl)
      (o : Option String)
      → same requested "NEAREST" ≡ true
      → nearest fl d p ≡ o
      → Justifies d scope requested (some p) (resolve_nearest fl scope o)
  unfolding resolve_nearest
  nearest-Justifies d scope requested p none e n =
      inl ((same_iff requested "NEAREST").0 e, rw (e, n))
  nearest-Justifies d scope requested p (some best) e n =
      elim (Bool-cases (scope_allows scope best)) [
        | inl a ↦ rw (resolve_nearest_lem scope best, a) (rw (e, n), a, rw e)
        | inr a ↦ rw (resolve_nearest_lem scope best, a) (best, rw (e, n), a)
      ]

  named-Justifies :
      (d : Dict String (Mountpoint fl)) (scope requested : String) (position : Option (Position fl))
      → same requested "NEAREST" ≡ false
      → Justifies d scope requested position (resolve_named fl d scope requested)
  named-Justifies d scope requested position e = elim (Bool-cases (scope_allows scope requested)) [
    | inl a ↦ elim (Bool-cases (Dict.contains d requested)) [
      | inl c ↦ rw (resolve_named_lem d scope requested, a, c) (rw e, a, rw (e, c))
      | inr c ↦ rw (resolve_named_lem d scope requested, a, c) (inr (a, c))
    ]
    | inr a ↦ rw (resolve_named_lem d scope requested, a) (requested, rw e, a)
  ]

  -- A session is resolved to the mountpoint that the rover asks for, and only to one that the scope
  -- of its token allows and, where the rover names it, that is registered; each refusal has the code of its reason, and there is no other refusal.
  pub resolve_mountpoint-Justifies :
      (d : Dict String (Mountpoint fl)) (scope requested : String) (position : Option (Position fl))
      → Justifies d scope requested position (resolve_mountpoint fl d scope requested position)
  unfolding resolve_mountpoint
  resolve_mountpoint-Justifies d scope requested position =
      elim (Bool-cases (same requested "NEAREST")) [
        | inl e ↦ rw (e, resolve_mountpoint) (near position e)
        | inr e ↦ rw (e, resolve_mountpoint) (named-Justifies d scope requested position e)
      ]
    where
      near :
          (position : Option (Position fl))
          → same requested "NEAREST" ≡ true
          → Justifies d scope requested position (elim position [
            | none ↦ refused missing_position
            | some p ↦ resolve_nearest fl scope (nearest fl d p)
          ])
      near none e = ((same_iff requested "NEAREST").0 e, refl)
      near (some p) e = nearest-Justifies d scope requested p (nearest fl d p) e refl
