-- ===== src/Caster/Reaper.antt =====
-- `_reap` of `NTRIPCaster`, src/corshub/ntrip/v2/caster.py, run with no other task between its steps.
use corshub.Prelude.{
  ℕ, ◌+◌, ◌≡◌, refl, Bool, true, false, Option, none, some, String, List, [], ◌∷◌, length,
  if◌then◌else◌, ltb, string_eq, same, same_iff, arith, Option-cases, inl, inr,
}
use corshub.Dict
use corshub.Dict.{Dict, get-pop, Distinct}
use corshub.Float.{Float}
use corshub.Mountpoint.{Mountpoint}
use corshub.Caster.{
  NtripCaster, unregister, forget_mountpoint, shutdown_transport, mountpoints_reaped,
}
use corshub.Caster.Publishing.{report}

module _ (fl : Float) where
  -- `mp.last_seen < time.monotonic() - self._expiry`
  unfoldable pub is_stale : ℕ → ℕ → Mountpoint fl → Bool
  is_stale now expiry mp = ltb (mp.last_seen + expiry) now

  unfoldable pub stale_names : ℕ → ℕ → Dict String (Mountpoint fl) → List String
  stale_names now expiry [] = []
  stale_names now expiry ((name, mp) ∷ rest) =
      if is_stale now expiry mp
      then name ∷ stale_names now expiry rest
      else stale_names now expiry rest

  unfoldable pub unregister_all : NtripCaster fl → List String → NtripCaster fl
  unregister_all c [] = c
  unregister_all c (name ∷ names) = unregister_all (unregister fl c name) names

  unfoldable pub reap : NtripCaster fl → ℕ → NtripCaster fl
  reap c now = elim c.expiry [
    | none ↦ c
    | some expiry ↦ elim (stale_names now expiry c.mountpoints) [
      | [] ↦ c
      | name ∷ names ↦
          report fl (unregister_all c (name ∷ names))
            (mountpoints_reaped (length (name ∷ names)) ∷ [])
    ]
  ]

  get-unregister :
      (c : NtripCaster fl) (name m : String)
      → Dict.get (unregister fl c name).mountpoints m
        ≡ (if same name m then none else Dict.get c.mountpoints m)
  unfolding unregister forget_mountpoint shutdown_transport
  get-unregister c name m = ground (arith, get-pop c.mountpoints name m, same_iff name m)

  listed : String → List String → Bool
  listed m [] = false
  listed m (n ∷ ns) = if same n m then true else listed m ns

  get-unregister_all :
      (c : NtripCaster fl) (names : List String) (m : String)
      → Dict.get (unregister_all c names).mountpoints m
        ≡ (if listed m names then none else Dict.get c.mountpoints m)
  unfolding unregister_all listed
  get-unregister_all c [] m = refl
  get-unregister_all c (n ∷ ns) m =
      rw (get-unregister_all (unregister fl c n) ns m, get-unregister c n m)
        (ground (arith, same_iff n m))

  abbrev stale_at : ℕ → ℕ → Option (Mountpoint fl) → Bool
  stale_at now expiry none = false
  stale_at now expiry (some mp) = is_stale now expiry mp

  listed-stale_names :
      (now expiry : ℕ) (d : Dict String (Mountpoint fl)) (m : String)
      → Distinct d
      → listed m (stale_names now expiry d) ≡ stale_at now expiry (Dict.get d m)
  unfolding listed stale_names Dict.get
  listed-stale_names now expiry [] m h = refl
  listed-stale_names now expiry ((name, mp) ∷ rest) m h =
      ground (arith, listed-stale_names now expiry rest m h.1, same_iff name m)

  -- What a pass leaves of an entry.
  abbrev pub survivor : Option ℕ → ℕ → Option (Mountpoint fl) → Option (Mountpoint fl)
  survivor none now o = o
  survivor (some expiry) now none = none
  survivor (some expiry) now (some mp) = if ltb (mp.last_seen + expiry) now then none else some mp

  mountpoints-reap-some :
      (c : NtripCaster fl) (now expiry : ℕ)
      → c.expiry ≡ some expiry
      → (reap c now).mountpoints
        ≡ (unregister_all c (stale_names now expiry c.mountpoints)).mountpoints
  unfolding reap report unregister_all
  mountpoints-reap-some c now expiry e = ground arith

  -- A pass of the reaper removes exactly the mountpoints whose last frame is longer ago than the
  -- expiry, and leaves every other mountpoint as it is; with no expiry it removes none.
  pub mountpoints-reap :
      (c : NtripCaster fl) (now : ℕ) (m : String)
      → Distinct c.mountpoints
      → Dict.get (reap c now).mountpoints m ≡ survivor c.expiry now (Dict.get c.mountpoints m)
  unfolding reap is_stale
  mountpoints-reap c now m d = elim (Option-cases c.expiry) [
    | inl e ↦ rw (e, reap)
    | inr (expiry, e) ↦
        rw
          (
            mountpoints-reap-some c now expiry e,
            get-unregister_all c (stale_names now expiry c.mountpoints) m,
            listed-stale_names now expiry c.mountpoints m d,
            e,
          )
          (ground arith)
  ]
