-- ===== src/Caster/Registry.antt =====
-- The invariant of the registry, and what its operations do to it.
use corshub.Prelude.{
  ℕ, ◌+◌, ◌<◌, ◌≡◌, true, not, ◌||◌, Option, none, some, String, string_eq, same, same_iff, arith,
  Option-cases, inl, inr, Bool-cases, ◌==◌,
}
use corshub.Dict
use corshub.Dict.{Dict, get-set, get-set_self, get-pop, Distinct, set-Distinct, pop-Distinct}
use corshub.Float.{Float}
use corshub.Mountpoint.{Mountpoint, Metadata, construct, update_metadata}
use corshub.Transport.{QueueTransport}
use corshub.Transport.Delivery.{IsTransport}
use corshub.Transport.Validity.{create-IsTransport, shutdown-IsTransport}
use corshub.Caster.{
  NtripCaster, Result, ok, raise, update, Transports, open_transport, register, forget_mountpoint,
  shutdown_transport, close, unregister,
}

module _ (fl : Float) where
  -- A mountpoint that has a transport is registered.
  abbrev pub IsRegistered : NtripCaster fl → Type 0
  IsRegistered c =
      (m : String) → (not (Dict.contains c.transports m) || Dict.contains c.mountpoints m) ≡ true

  abbrev pub Below : ℕ → Option ℕ → Type 0
  Below n none = Unit {0}
  Below n (some i) = i < n

  abbrev pub IsUnshared : Dict String ℕ → Type 0
  IsUnshared d = (m k : String) (i : ℕ) → Dict.get d m ≡ some i → Dict.get d k ≡ some i → m ≡ k

  pub record IsCaster (c : NtripCaster fl) : Type 0 where
    pub distinct : Distinct c.mountpoints
    pub registered : IsRegistered c
    pub allocated : (m : String) → Below c.allocated (Dict.get c.transports m)
    pub unshared : IsUnshared c.transports
    pub valid : (i : ℕ) → IsTransport (c.heap i)

  pub update-valid :
      (h : Transports) (i : ℕ) (t : QueueTransport)
      → ((j : ℕ) → IsTransport (h j))
      → IsTransport t
      → (j : ℕ) → IsTransport (update h i t j)
  update-valid h i t v w j = elim (Bool-cases (i == j)) [ inl e ↦ rw e w | inr e ↦ rw e (v j) ]

  Below-suc : (n : ℕ) (o : Option ℕ) → Below n o → Below (n + 1) o
  Below-suc n none h = tt
  Below-suc n (some i) h = omega arith

  pop-IsUnshared : (d : Dict String ℕ) (k : String) → IsUnshared d → IsUnshared (Dict.pop d k)
  pop-IsUnshared d k u m j i p q =
      ground (arith, u m j i, get-pop d k m, get-pop d k j, same_iff k m, same_iff k j)

  set-IsUnshared :
      (d : Dict String ℕ) (k : String) (n : ℕ)
      → ((m : String) → Below n (Dict.get d m))
      → IsUnshared d
      → IsUnshared (Dict.set d k n)
  set-IsUnshared d k n b u m j i p q =
      ground
        (arith, u m j i, b m, b j, get-set d k m n, get-set d k j n, same_iff k m, same_iff k j)

  open_transport-IsCaster :
      (c : NtripCaster fl) (m : String)
      → IsCaster c
      → Dict.contains c.mountpoints m ≡ true
      → IsCaster (open_transport fl c m)
  unfolding open_transport
  open_transport-IsCaster c m v there = record {
    distinct = v.distinct;
    registered = λ k.
        ground (arith, v.registered k, get-set c.transports m k c.allocated, same_iff m k, there);
    allocated = λ k. rw (get-set c.transports m k c.allocated) (elim (Bool-cases (same m k)) [
      | inl e ↦ rw e (omega arith)
      | inr e ↦ rw e (Below-suc c.allocated _ (v.allocated k))
    ]);
    unshared = set-IsUnshared c.transports m c.allocated v.allocated v.unshared;
    valid = update-valid c.heap c.allocated _ v.valid create-IsTransport;
  }

  -- Registering a mountpoint's entry anew keeps the invariant.
  pub set_mountpoint-IsCaster :
      (c : NtripCaster fl) (m : String) (mp : Mountpoint fl)
      → IsCaster c
      → IsCaster (record c { mountpoints = Dict.set c.mountpoints m mp })
  set_mountpoint-IsCaster c m mp v = record {
    distinct = set-Distinct c.mountpoints m mp v.distinct;
    registered = λ k. ground (arith, v.registered k, get-set c.mountpoints m k mp);
    allocated = v.allocated;
    unshared = v.unshared;
    valid = v.valid;
  }

  shutdown_transport-IsCaster :
      (c : NtripCaster fl) (i : ℕ) → IsCaster c → IsCaster (shutdown_transport fl c i)
  unfolding shutdown_transport
  shutdown_transport-IsCaster c i v = record {
    distinct = v.distinct;
    registered = v.registered;
    allocated = v.allocated;
    unshared = v.unshared;
    valid = update-valid c.heap i _ v.valid (shutdown-IsTransport (c.heap i) (v.valid i));
  }

  pop-Below :
      (n : ℕ) (d : Dict String ℕ) (k m : String)
      → Below n (Dict.get d m)
      → Below n (Dict.get (Dict.pop d k) m)
  pop-Below n d k m b =
      rw (get-pop d k m) (elim (Bool-cases (same k m)) [ inl e ↦ rw e tt | inr e ↦ rw e b ])

  -- The fields that the invariant does not speak of may change.
  forget_mountpoint-IsCaster :
      (c : NtripCaster fl) (m : String) → IsCaster c → IsCaster (forget_mountpoint fl c m)
  unfolding forget_mountpoint
  forget_mountpoint-IsCaster c m v = record {
    distinct = v.distinct;
    registered = v.registered;
    allocated = v.allocated;
    unshared = v.unshared;
    valid = v.valid;
  }

  close_entry-IsCaster :
      (c : NtripCaster fl) (m : String)
      → IsCaster c
      → IsCaster (record c { transports = Dict.pop c.transports m })
  close_entry-IsCaster c m v = record {
    distinct = v.distinct;
    registered = λ k. ground (arith, v.registered k, get-pop c.transports m k);
    allocated = λ k. pop-Below c.allocated c.transports m k (v.allocated k);
    unshared = pop-IsUnshared c.transports m v.unshared;
    valid = v.valid;
  }

  drop_entry-IsCaster :
      (c : NtripCaster fl) (m : String)
      → IsCaster c
      → IsCaster (record c {
        transports = Dict.pop c.transports m;
        mountpoints = Dict.pop c.mountpoints m;
      })
  drop_entry-IsCaster c m v = record {
    distinct = pop-Distinct c.mountpoints m v.distinct;
    registered =
        λ k. ground (arith, v.registered k, get-pop c.transports m k, get-pop c.mountpoints m k);
    allocated = λ k. pop-Below c.allocated c.transports m k (v.allocated k);
    unshared = pop-IsUnshared c.transports m v.unshared;
    valid = v.valid;
  }

  found-IsCaster :
      (o : Option ℕ) (g : NtripCaster fl)
      → IsCaster g
      → IsCaster (elim o [ none ↦ g | some i ↦ shutdown_transport fl g i ])
  found-IsCaster none g v = v
  found-IsCaster (some i) g v = shutdown_transport-IsCaster g i v

  pub unregister-IsCaster :
      (c : NtripCaster fl) (m : String) → IsCaster c → IsCaster (unregister fl c m)
  unfolding unregister
  unregister-IsCaster c m v = elim (Option-cases (Dict.get c.mountpoints m)) [
    | inl e ↦ rw (e, unregister) v
    | inr (mp, e) ↦
        rw (e, unregister)
          (found-IsCaster (Dict.get c.transports m) _
            (forget_mountpoint-IsCaster _ m (drop_entry-IsCaster c m v)))
  ]

  -- A property of the state that a method returns, if it returns.
  abbrev pub Holds {ℓ} : {A : Type ℓ} → (A → Type 0) → Result A → Type 0
  Holds P (ok a) = P a
  Holds P (raise e) = Unit {0}

  pub close-IsCaster :
      (c : NtripCaster fl) (m : String) → IsCaster c → Holds IsCaster (close fl c m)
  unfolding close
  close-IsCaster c m v = elim (Option-cases (Dict.get c.mountpoints m)) [
    | inl e ↦ rw (e, close) v
    | inr (mp, e) ↦ elim (Option-cases (Dict.get c.transports m)) [
      | inl n ↦ rw (e, n, close) tt
      | inr (i, n) ↦
          rw (e, n, close)
            (shutdown_transport-IsCaster _ i
              (forget_mountpoint-IsCaster _ m (close_entry-IsCaster c m v)))
    ]
  ]

  reopen-IsCaster :
      (o : Option ℕ) (c : NtripCaster fl) (m : String)
      → IsCaster c
      → Dict.contains c.mountpoints m ≡ true
      → IsCaster (elim o [ none ↦ open_transport fl c m | some _ ↦ c ])
  reopen-IsCaster none c m v there = open_transport-IsCaster c m v there
  reopen-IsCaster (some _) c m v there = v

  contains-set :
      (d : Dict String (Mountpoint fl)) (m : String) (mp : Mountpoint fl)
      → Dict.contains (Dict.set d m mp) m ≡ true
  contains-set d m mp = ground (arith, get-set_self d m mp)

  pub register-IsCaster :
      (c : NtripCaster fl) (now : ℕ) (m : String) (k : Metadata fl)
      → IsCaster c
      → Holds (λ r. IsCaster r.0) (register fl c now m k)
  unfolding register
  register-IsCaster c now m k v = elim (Option-cases (Dict.get c.mountpoints m)) [
    | inl e ↦ elim (Option-cases (construct fl m k now)) [
      | inl n ↦ rw (e, n, register) tt
      | inr (mp, n) ↦
          rw (e, n, register)
            (open_transport-IsCaster _ m (set_mountpoint-IsCaster c m mp v)
              (contains-set c.mountpoints m mp))
    ]
    | inr (mp, e) ↦
        rw (e, register)
          (reopen-IsCaster (Dict.get c.transports m) _ m
            (set_mountpoint-IsCaster c m (update_metadata fl mp k) v)
            (contains-set c.mountpoints m (update_metadata fl mp k)))
  ]
