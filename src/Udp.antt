-- ===== src/Udp.antt =====
-- `RTCMDatagramServer` of src/corshub/rtcm/udp.py: which mountpoint a session is authorized for, and
-- the sequence numbers of a session.
pub mod Nearest
pub mod Scope
pub mod Sequence
pub mod Sessions
pub mod Decimal
pub mod Egress
pub mod Authorized
pub mod Held
pub mod Dispatched
pub mod Histories
pub mod Ended
pub mod Signed
use corshub.Prelude.{
  ℕ, ◌+◌, ◌%◌, ◌^◌, Bool, true, false, not, ◌&&◌, ◌||◌, Option, none, some, String, List, [], ◌∷◌,
  if◌then◌else◌, string_eq, same,
}
use corshub.Dict
use corshub.Dict.{Dict}
use corshub.Float.{Float}
use corshub.Geodesy.{haversine}
use corshub.Mountpoint.{Mountpoint}

-- `ErrorCode`
pub data ErrorCode : Type 0 where
  invalid_token : ErrorCode
  unauthorized_mountpoint : ErrorCode
  mountpoint_unavailable : ErrorCode
  missing_position : ErrorCode
  internal : ErrorCode
  out_of_range : ErrorCode

-- A mountpoint, or an `_AuthorizationError` with its code.
pub data Resolution : Type 0 where
  resolved : String → Resolution
  refused : ErrorCode → Resolution

-- `scope in _WILDCARD_SCOPES`
unfoldable pub is_wildcard : String → Bool
is_wildcard scope = same scope "*" || same scope "NEAREST"

unfoldable pub scope_allows : String → String → Bool
scope_allows scope mountpoint = is_wildcard scope || same scope mountpoint

-- `next_seq`: the number that is used, and the one that is kept.
unfoldable pub next_seq : ℕ → ℕ × ℕ
next_seq seq = (seq, (seq + 1) % 2 ^ 32)

module _ (fl : Float) where
  abbrev pub Position : Type 0
  Position = fl.F × fl.F

  unfoldable pub is_out_of_range : Dict String (Mountpoint fl) → String → Position → Bool
  is_out_of_range mountpoints mountpoint (lat, lon) = elim (Dict.get mountpoints mountpoint) [
    | none ↦ false
    | some mp ↦ if fl.le mp.mask (fl.literal 0) then false else elim mp.latitude [
      | none ↦ false
      | some mp_lat ↦ elim mp.longitude [
        | none ↦ false
        | some mp_lon ↦ fl.lt mp.mask (haversine fl mp_lat mp_lon lat lon)
      ]
    ]
  ]

  -- One round of the loop of `_nearest`, on the best distance and its mountpoint.
  unfoldable pub consider :
      Position → String → Mountpoint fl → fl.F × Option String → fl.F × Option String
  consider (lat, lon) mp_id mp (best_dist, best_id) = elim mp.latitude [
    | none ↦ (best_dist, best_id)
    | some mp_lat ↦ elim mp.longitude [
      | none ↦ (best_dist, best_id)
      | some mp_lon ↦
          let dist = haversine fl mp_lat mp_lon lat lon in
          if fl.lt (fl.literal 0) mp.mask && fl.lt mp.mask dist
          then (best_dist, best_id)
          else if fl.lt dist best_dist
          then (dist, some mp_id)
          else (best_dist, best_id)
    ]
  ]

  unfoldable pub consider_all :
      Position → Dict String (Mountpoint fl) → fl.F × Option String → fl.F × Option String
  consider_all position [] best = best
  consider_all position ((mp_id, mp) ∷ rest) best =
      consider_all position rest (consider position mp_id mp best)

  unfoldable pub nearest : Dict String (Mountpoint fl) → Position → Option String
  unfolding consider_all
  nearest mountpoints position = (consider_all position mountpoints (fl.infinity, none)).1

  unfoldable pub resolve_nearest : String → Option String → Resolution
  resolve_nearest token_scope none = refused mountpoint_unavailable
  resolve_nearest token_scope (some best) =
      if not (is_wildcard token_scope) && not (same best token_scope)
      then refused unauthorized_mountpoint
      else resolved best

  unfoldable pub resolve_named : Dict String (Mountpoint fl) → String → String → Resolution
  resolve_named mountpoints token_scope requested =
      if not (is_wildcard token_scope) && not (same requested token_scope)
      then refused unauthorized_mountpoint
      else if not (Dict.contains mountpoints requested)
      then refused mountpoint_unavailable
      else resolved requested

  unfoldable pub resolve_mountpoint :
      Dict String (Mountpoint fl) → String → String → Option Position → Resolution
  unfolding resolve_nearest resolve_named
  resolve_mountpoint mountpoints token_scope requested position =
      if same requested "NEAREST"
      then (elim position [
        | none ↦ refused missing_position
        | some p ↦ resolve_nearest token_scope (nearest mountpoints p)
      ])
      else resolve_named mountpoints token_scope requested
