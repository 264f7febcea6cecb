-- ===== src/Caster/Positions.antt =====
-- The rover positions of `NTRIPCaster`: `set_rover_position`, `clear_rover_position` and
-- `get_rover_positions` of src/corshub/ntrip/v2/caster.py.
use corshub.Prelude.{
  ◌≡◌, ◌&&◌, Option, none, some, String, [], ◌∷◌, if◌then◌else◌, string_eq, same, same_iff, arith,
  Option-cases, inl, inr,
}
use corshub.Dict
use corshub.Dict.{Dict, get-set, get-pop, get-empty}
use corshub.Float.{Float}
use corshub.Caster.{NtripCaster, Coordinates}

module _ (fl : Float) where
  abbrev pub Positions : Type 0
  Positions = Dict String (Dict String (Coordinates fl))

  abbrev pub or_empty : Option (Dict String (Coordinates fl)) → Dict String (Coordinates fl)
  or_empty none = []
  or_empty (some d) = d

  -- `dict(self._rover_positions.get(mountpoint, {}))`
  unfoldable pub get_rover_positions : NtripCaster fl → String → Dict String (Coordinates fl)
  get_rover_positions c mountpoint = or_empty (Dict.get c.rover_positions mountpoint)

  unfoldable pub set_rover_position :
      NtripCaster fl → String → String → Coordinates fl → NtripCaster fl
  set_rover_position c mountpoint rover position = record c {
    rover_positions =
        Dict.set c.rover_positions mountpoint
          (Dict.set (or_empty (Dict.get c.rover_positions mountpoint)) rover position);
  }

  -- What is stored once a rover is popped: an empty dict is dropped.
  unfoldable pub store_rovers : Positions → String → Dict String (Coordinates fl) → Positions
  store_rovers positions mountpoint [] = Dict.pop positions mountpoint
  store_rovers positions mountpoint (r ∷ rs) = Dict.set positions mountpoint (r ∷ rs)

  unfoldable pub clear_rover_position : NtripCaster fl → String → String → NtripCaster fl
  unfolding store_rovers
  clear_rover_position c mountpoint rover = elim (Dict.get c.rover_positions mountpoint) [
    | none ↦ c
    | some per_mp ↦ record c {
      rover_positions = store_rovers c.rover_positions mountpoint (Dict.pop per_mp rover);
    }
  ]

  -- The last position of a rover on a mountpoint.
  abbrev pub position_of : NtripCaster fl → String → String → Option (Coordinates fl)
  position_of c mountpoint rover = Dict.get (get_rover_positions c mountpoint) rover

  -- Setting a position sets it for that rover on that mountpoint, and for no other.
  position_of-set_rover_position :
      (c : NtripCaster fl) (mountpoint rover m r : String) (position : Coordinates fl)
      → position_of (set_rover_position c mountpoint rover position) m r
        ≡ (if same mountpoint m && same rover r then some position else position_of c m r)
  unfolding set_rover_position get_rover_positions
  position_of-set_rover_position c mountpoint rover m r position = ground (
    arith,
    get-set c.rover_positions mountpoint m
        (Dict.set (or_empty (Dict.get c.rover_positions mountpoint)) rover position),
    get-set (or_empty (Dict.get c.rover_positions mountpoint)) rover r position,
    same_iff mountpoint m,
  )

  or_empty-store_rovers :
      (d : Positions) (mountpoint m : String) (rovers : Dict String (Coordinates fl))
      → or_empty (Dict.get (store_rovers d mountpoint rovers) m)
        ≡ (if same mountpoint m then rovers else or_empty (Dict.get d m))
  unfolding store_rovers
  or_empty-store_rovers d mountpoint m [] = ground (arith, get-pop d mountpoint m)
  or_empty-store_rovers d mountpoint m (r ∷ rs) = ground (arith, get-set d mountpoint m (r ∷ rs))

  -- Clearing a position clears it for that rover on that mountpoint, and for no other.
  pub position_of-clear_rover_position :
      (c : NtripCaster fl) (mountpoint rover m r : String)
      → position_of (clear_rover_position c mountpoint rover) m r
        ≡ (if same mountpoint m && same rover r then none else position_of c m r)
  unfolding clear_rover_position get_rover_positions
  position_of-clear_rover_position c mountpoint rover m r =
      elim (Option-cases (Dict.get c.rover_positions mountpoint)) [
        | inl e ↦
            rw (e, clear_rover_position)
              (ground (arith, same_iff mountpoint m, get-empty (Coordinates fl) r))
        | inr (per_mp, e) ↦
            rw (e, clear_rover_position)
              (rw (or_empty-store_rovers c.rover_positions mountpoint m (Dict.pop per_mp rover))
                (ground (arith, get-pop per_mp rover r, same_iff mountpoint m)))
      ]
