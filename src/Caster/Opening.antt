-- ===== src/Caster/Opening.antt =====
-- What `register` of `NTRIPCaster` promises.
use corshub.Prelude.{
  Option, ℕ, ◌≡◌, refl, true, none, some, String, if◌then◌else◌, string_eq, same, same_iff, arith,
  Option-cases, inl, inr, ◌==◌,
}
use corshub.Dict
use corshub.Dict.{Dict, get-set, get-pop, get-set_self, get-pop_self}
use corshub.Float.{Float}
use corshub.Mountpoint.{Mountpoint, Metadata, construct, update_metadata}
use corshub.Transport
use corshub.Transport.{QueueTransport, elem}
use corshub.Mountpoint.{Metadata, construct, update_metadata}
use corshub.Dict.{get-set}
use corshub.Transport.{QueueTransport}
use corshub.Caster.{
  Result, ok, value_error, open_transport, register, NtripCaster, raise, open_transport, register,
  available,
}
use corshub.Caster.Registry.{IsCaster}

module _ (fl : Float) where
  -- The place of a mountpoint's transport after its registration.
  abbrev pub place : NtripCaster fl → Option ℕ → ℕ
  place c none = c.allocated
  place c (some i) = i

  -- The transport at a place after a registration.
  abbrev pub stands : NtripCaster fl → Option ℕ → ℕ → QueueTransport
  stands c none j = if c.allocated == j then Transport.create else c.heap j
  stands c (some i) j = c.heap j

  -- A mountpoint that can be subscribed to.
  pub record IsOpened (c : NtripCaster fl) (m : String) (d : NtripCaster fl) (mp : Mountpoint fl)
      : Type 0 where
    pub mountpoints :
        (k : String)
        → Dict.get d.mountpoints k ≡ (if same m k then some mp else Dict.get c.mountpoints k)
    pub transports :
        (k : String)
        → Dict.get d.transports k
          ≡ (if same m k then some (place c (Dict.get c.transports m)) else Dict.get c.transports k)
    pub heap : (j : ℕ) → d.heap j ≡ stands c (Dict.get c.transports m) j
    pub available : (k : String) → available fl d k ≡ (if same m k then true else available fl c k)

  -- What a registration does, and when it is refused.
  abbrev pub Registers :
      NtripCaster fl → ℕ → String → Metadata fl → Result (NtripCaster fl × Mountpoint fl) → Type 0
  Registers c now m k (ok r) = IsOpened c m r.0 r.1
  Registers c now m k (raise e) =
      (e ≡ value_error) × (Dict.get c.mountpoints m ≡ none) × (construct fl m k now ≡ none)

  opened :
      (c : NtripCaster fl) (m : String) (mp : Mountpoint fl)
      → Dict.get c.transports m ≡ none
      → IsOpened c m
          (open_transport fl (record c { mountpoints = Dict.set c.mountpoints m mp }) m)
          mp
  unfolding open_transport available
  opened c m mp e = record {
    mountpoints = λ k. get-set c.mountpoints m k mp;
    transports = λ k. rw e (get-set c.transports m k c.allocated);
    heap = λ j. rw e refl;
    available =
        λ k. ground (arith, get-set c.mountpoints m k mp, get-set c.transports m k c.allocated);
  }

  kept :
      (c : NtripCaster fl) (m : String) (mp : Mountpoint fl) (i : ℕ)
      → Dict.get c.transports m ≡ some i
      → IsOpened c m (record c { mountpoints = Dict.set c.mountpoints m mp }) mp
  unfolding available
  kept c m mp i e = record {
    mountpoints = λ k. get-set c.mountpoints m k mp;
    transports = λ k. ground (arith, e, same_iff m k);
    heap = λ j. rw e refl;
    available = λ k. ground (arith, get-set c.mountpoints m k mp, e, same_iff m k);
  }

  -- Where the invariant holds, registering a mountpoint makes exactly this mountpoint available,
  -- under its key, with the metadata that it returns. A transport that it had stays with its
  -- subscribers, and one that was never opened or was closed is replaced by a new, empty one; the
  -- other mountpoints and transports are as they were. It raises `ValueError` only for a mountpoint
  -- that is not registered and whose metadata is refused.
  pub register-Registers :
      (c : NtripCaster fl) (now : ℕ) (m : String) (k : Metadata fl)
      → IsCaster fl c
      → Registers c now m k (register fl c now m k)
  unfolding register
  register-Registers c now m k v = elim (Option-cases (Dict.get c.mountpoints m)) [
    | inl n ↦ elim (Option-cases (construct fl m k now)) [
      | inl x ↦ rw (n, x, register) (refl, n, x)
      | inr (mp, x) ↦ rw (n, x, register) (opened c m mp (ground (arith, v.registered m)))
    ]
    | inr (old, n) ↦ elim (Option-cases (Dict.get c.transports m)) [
      | inl e ↦ rw (n, e, register) (opened c m (update_metadata fl old k) e)
      | inr (i, e) ↦ rw (n, e, register) (kept c m (update_metadata fl old k) i e)
    ]
  ]
