-- ===== src/Caster.antt =====
-- `NTRIPCaster` of src/corshub/ntrip/v2/caster.py: the registry of mountpoints and what hangs on it.
-- The transports stand in a heap, since a subscriber holds its transport after the registry has let it
-- go. Each method is a function from the state to the new state; what a method does between two
-- awaits of others is one step.
pub mod Positions
pub mod Publishing
pub mod Reaper
pub mod Authentication
pub mod Access
pub mod Registry
pub mod Delivered
pub mod Sessions
pub mod Closing
pub mod Opening
pub mod Preserved
pub mod Histories
pub mod Followed
use corshub.Prelude.{
  ℕ, zero, suc, ◌+◌, ◌-◌, Bool, true, false, Option, none, some, String, List, [], ◌∷◌, ◌++◌, ltb,
  ◌==◌, if◌then◌else◌, length, string_eq,
}
use corshub.AsyncQueue
use corshub.AsyncQueue.{AsyncQueue}
use corshub.Dict
use corshub.Dict.{Dict}
use corshub.Float.{Float}
use corshub.Framing.{Bytes}
use corshub.Mountpoint.{Mountpoint, Metadata, construct, update_metadata}
use corshub.Observe.{Parser, Pipeline, observe_rtcm_quality}
use corshub.Transport
use corshub.Transport.{QueueTransport}

pub data Error : Type 0 where
  value_error : Error
  key_error : String → Error

pub data Result {ℓ} (A : Type ℓ) : Type ℓ where
  ok : A → Result A
  raise : Error → Result A

-- The method returns, and what it returns has the property.
abbrev pub Returns {ℓ} : {A : Type ℓ} → (A → Type 0) → Result A → Type 0
Returns P (ok a) = P a
Returns P (raise e) = ⊥

abbrev pub Transports : Type 0
Transports = ℕ → QueueTransport

abbrev pub update : Transports → ℕ → QueueTransport → Transports
update h i t j = if i == j then t else h j

-- Reports to the metrics of the caster itself.
pub data Report : Type 0 where
  frames_published : String → Report
  bytes_published : String → ℕ → Report
  frame_size : String → ℕ → Report
  frames_delivered : String → ℕ → Report
  frame_interval : String → ℕ → Report
  samples_dropped : String → Report
  rover_sessions : String → Report
  mountpoints_reaped : ℕ → Report

module _ (fl : Float) where
  abbrev pub Coordinates : Type 0
  Coordinates = fl.F × fl.F

  pub record NtripCaster : Type 0 where
    pub expiry : Option ℕ
    pub quality_queue_maxsize : ℕ
    pub mountpoints : Dict String (Mountpoint fl)
    pub transports : Dict String ℕ
    pub heap : Transports
    pub allocated : ℕ
    pub quality_queue : Option (AsyncQueue (String × Bytes))
    pub pipeline : Pipeline fl
    pub rover_positions : Dict String (Dict String Coordinates)
    pub reports : List Report
    pub reaper_running : Bool
    pub quality_running : Bool

  -- `self._transports[mountpoint] = self._transport_factory()`
  unfoldable pub open_transport : NtripCaster → String → NtripCaster
  open_transport c mountpoint = record c {
    transports = Dict.set c.transports mountpoint c.allocated;
    heap = update c.heap c.allocated Transport.create;
    allocated = c.allocated + 1;
  }

  unfoldable pub register :
      NtripCaster → ℕ → String → Metadata fl → Result (NtripCaster × Mountpoint fl)
  register c now mountpoint kwargs = elim (Dict.get c.mountpoints mountpoint) [
    | some instance_ ↦
        let mp = update_metadata fl instance_ kwargs in
        let c = record c { mountpoints = Dict.set c.mountpoints mountpoint mp } in
        ok (
          elim (Dict.get c.transports mountpoint) [
            | none ↦ open_transport c mountpoint
            | some _ ↦ c
          ],
          mp,
        )
    | none ↦ elim (construct fl mountpoint kwargs now) [
      | none ↦ raise value_error
      | some mp ↦ ok (
        open_transport (record c { mountpoints = Dict.set c.mountpoints mountpoint mp }) mountpoint,
        mp,
      )
    ]
  ]

  unfoldable pub available : NtripCaster → String → Bool
  available c mountpoint = elim (Dict.get c.mountpoints mountpoint) [
    | none ↦ false
    | some _ ↦ Dict.contains c.transports mountpoint
  ]

  -- The three pops that `close` and `unregister` share.
  unfoldable pub forget_mountpoint : NtripCaster → String → NtripCaster
  forget_mountpoint c mountpoint = record c {
    pipeline = record c.pipeline {
      frame_buffer = Dict.pop c.pipeline.frame_buffer mountpoint;
      seen = record c.pipeline.seen { quality = Dict.pop c.pipeline.seen.quality mountpoint };
    };
    rover_positions = Dict.pop c.rover_positions mountpoint;
  }

  unfoldable pub shutdown_transport : NtripCaster → ℕ → NtripCaster
  shutdown_transport c i = record c { heap = update c.heap i (Transport.shutdown (c.heap i)) }

  unfoldable pub close : NtripCaster → String → Result NtripCaster
  close c mountpoint = elim (Dict.get c.mountpoints mountpoint) [
    | none ↦ ok c
    | some _ ↦ elim (Dict.get c.transports mountpoint) [
      | none ↦ raise (key_error mountpoint)
      | some i ↦ ok (
          shutdown_transport
            (forget_mountpoint (record c { transports = Dict.pop c.transports mountpoint })
              mountpoint)
            i)
    ]
  ]

  unfoldable pub unregister : NtripCaster → String → NtripCaster
  unregister c mountpoint = elim (Dict.get c.mountpoints mountpoint) [
    | none ↦ c
    | some _ ↦
        let gone =
          forget_mountpoint
            (record c {
              transports = Dict.pop c.transports mountpoint;
              mountpoints = Dict.pop c.mountpoints mountpoint;
            })
            mountpoint in
        elim (Dict.get c.transports mountpoint) [ none ↦ gone | some i ↦ shutdown_transport gone i ]
  ]
