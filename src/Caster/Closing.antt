-- ===== src/Caster/Closing.antt =====
-- The life of a mountpoint in `NTRIPCaster`: what `register`, `close` and `unregister` promise.
use corshub.Prelude.{
  ℕ, ◌≡◌, refl, true, false, none, some, String, if◌then◌else◌, string_eq, same, same_iff, arith,
  ◌&&◌, Bool-cases, Option-cases, inl, inr, ◌==◌, ==_refl,
}
use corshub.Dict
use corshub.Dict.{Dict, get-set, get-pop, get-set_self, get-pop_self}
use corshub.Float.{Float}
use corshub.Mountpoint.{Mountpoint}
use corshub.Transport
use corshub.Transport.{QueueTransport}
use corshub.Transport.Shutdown.{EndsReaders, ended-EndsReaders}
use corshub.Caster.{
  NtripCaster, raise, key_error, Returns, available, forget_mountpoint, shutdown_transport, close,
  unregister,
}
use corshub.Caster.Publishing.{subscribe}
use corshub.Caster.Registry.{IsCaster}
use corshub.Caster.Delivered.{is_at}

module _ (fl : Float) where
  -- What the rest of the caster sees of the end of a transport: it is out of the registry, it is shut
  -- down, and the other mountpoints and transports are as they were.
  pub record IsClosed (c : NtripCaster fl) (m : String) (i : ℕ) (d : NtripCaster fl) : Type 0 where
    pub transports :
        (k : String)
        → Dict.get d.transports k ≡ (if same m k then none else Dict.get c.transports k)
    pub heap : (j : ℕ) → d.heap j ≡ (if i == j then Transport.shutdown (c.heap i) else c.heap j)
    pub available : (k : String) → available fl d k ≡ (if same m k then false else available fl c k)
    pub buffer :
        (k : String)
        → Dict.get d.pipeline.frame_buffer k
          ≡ (if same m k then none else Dict.get c.pipeline.frame_buffer k)
    pub quality :
        (k : String)
        → Dict.get d.pipeline.seen.quality k
          ≡ (if same m k then none else Dict.get c.pipeline.seen.quality k)
    pub positions :
        (k : String)
        → Dict.get d.rover_positions k ≡ (if same m k then none else Dict.get c.rover_positions k)
    pub readers : (j : ℕ) → EndsReaders (i == j) (c.heap j) (d.heap j)

  -- What `close` leaves of a registered mountpoint with a transport.
  abbrev closed : NtripCaster fl → String → ℕ → NtripCaster fl
  closed c m i =
      shutdown_transport fl
        (forget_mountpoint fl (record c { transports = Dict.pop c.transports m }) m) i

  -- The readers of a transport, whether it is the one that ends or not.
  readers-shutdown :
      (c : NtripCaster fl) (i j : ℕ)
      → IsCaster fl c
      → EndsReaders (i == j) (c.heap j) (if i == j then Transport.shutdown (c.heap i) else c.heap j)
  readers-shutdown c i j v = elim (Bool-cases (i == j)) [
    | inl e ↦
        let same_place : i ≡ j = ground (arith, e) in
        rw (same_place, ==_refl j) (ended-EndsReaders true (c.heap j) (v.valid j))
    | inr e ↦ rw e (ended-EndsReaders false (c.heap j) (v.valid j))
  ]

  closed-IsClosed :
      (c : NtripCaster fl) (m : String) (i : ℕ) (mp : Mountpoint fl)
      → IsCaster fl c
      → Dict.get c.mountpoints m ≡ some mp
      → IsClosed c m i (closed c m i)
  unfolding available forget_mountpoint shutdown_transport
  closed-IsClosed c m i mp v n = record {
    transports = get-pop c.transports m;
    heap = λ j. refl;
    available = λ k. ground (arith, get-pop c.transports m k);
    buffer = get-pop c.pipeline.frame_buffer m;
    quality = get-pop c.pipeline.seen.quality m;
    positions = get-pop c.rover_positions m;
    readers = λ j. readers-shutdown c i j v;
  }

  -- With no word of its rovers: the mountpoints stay as they are, and one loses its transport.
  pub close-Closes :
      (c : NtripCaster fl) (m : String) (i : ℕ)
      → IsCaster fl c
      → Dict.get c.transports m ≡ some i
      → Returns (λ d. IsClosed c m i d × (d.mountpoints ≡ c.mountpoints)) (close fl c m)
  unfolding close forget_mountpoint shutdown_transport
  close-Closes c m i v e = elim (Option-cases (Dict.get c.mountpoints m)) [
    | inl n ↦ ground (arith, v.registered m)
    | inr (mp, n) ↦ rw (n, e, close) (closed-IsClosed c m i mp v n, refl)
  ]

  -- Closing a mountpoint that has a transport returns, where the invariant holds. The mountpoints
  -- stay registered with their metadata, this one has no transport any more and its transport is
  -- shut down: every rover on it is told the end by its next `get`, and by one that waits unless it
  -- was cancelled before. Its buffered bytes, quality and positions are forgotten, and the other
  -- mountpoints, transports and rovers are as they were. To close it once more raises `KeyError`.
  pub close-IsClosed :
      (c : NtripCaster fl) (m : String) (i : ℕ)
      → IsCaster fl c
      → Dict.get c.transports m ≡ some i
      → Returns
          (λ d.
            IsClosed c m i d
            × (d.mountpoints ≡ c.mountpoints)
            × (close fl d m ≡ raise (key_error m)))
          (close fl c m)
  unfolding close available forget_mountpoint shutdown_transport
  close-IsClosed c m i v e = elim (Option-cases (Dict.get c.mountpoints m)) [
    | inl n ↦ ground (arith, v.registered m)
    | inr (mp, n) ↦
        rw (n, e, close)
          (closed-IsClosed c m i mp v n, refl, ground (arith, n, get-pop_self c.transports m))
  ]

  -- What is left of an unregistered mountpoint, and of the others.
  pub record IsGone (c : NtripCaster fl) (m : String) (d : NtripCaster fl) : Type 0 where
    pub mountpoints :
        (k : String)
        → Dict.get d.mountpoints k ≡ (if same m k then none else Dict.get c.mountpoints k)
    pub transports :
        (k : String)
        → Dict.get d.transports k ≡ (if same m k then none else Dict.get c.transports k)
    pub heap :
        (j : ℕ)
        → d.heap j ≡ (
            if is_at fl (Dict.get c.transports m) j
            then Transport.shutdown (c.heap j)
            else c.heap j)
    pub buffer :
        (k : String)
        → Dict.get d.pipeline.frame_buffer k ≡ (
            if Dict.contains c.mountpoints m && same m k
            then none
            else Dict.get c.pipeline.frame_buffer k)
    pub quality :
        (k : String)
        → Dict.get d.pipeline.seen.quality k ≡ (
            if Dict.contains c.mountpoints m && same m k
            then none
            else Dict.get c.pipeline.seen.quality k)
    pub positions :
        (k : String)
        → Dict.get d.rover_positions k ≡ (
            if Dict.contains c.mountpoints m && same m k
            then none
            else Dict.get c.rover_positions k)
    pub readers : (j : ℕ) → EndsReaders (is_at fl (Dict.get c.transports m) j) (c.heap j) (d.heap j)
    pub again : unregister fl d m ≡ d
    pub unsubscribable : subscribe fl d m ≡ raise (key_error m)

  unregistered-IsGone :
      (c : NtripCaster fl) (m : String)
      → IsCaster fl c
      → Dict.get c.mountpoints m ≡ none
      → IsGone c m c
  unfolding unregister subscribe
  unregistered-IsGone c m v n =
      let t : Dict.get c.transports m ≡ none = ground (arith, v.registered m) in
      record {
        mountpoints = λ k. ground (arith, same_iff m k);
        transports = λ k. ground (arith, same_iff m k);
        heap = λ j. ground (arith, t);
        buffer = λ k. ground (arith, n);
        quality = λ k. ground (arith, n);
        positions = λ k. ground (arith, n);
        readers = λ j. rw t (ended-EndsReaders false (c.heap j) (v.valid j));
        again = ground (arith, n);
        unsubscribable = ground (arith, t);
      }

  forgotten-IsGone :
      (c : NtripCaster fl) (m : String) (mp : Mountpoint fl)
      → IsCaster fl c
      → Dict.get c.mountpoints m ≡ some mp
      → IsGone c m (unregister fl c m)
  unfolding unregister forget_mountpoint shutdown_transport subscribe
  forgotten-IsGone c m mp v n = elim (Option-cases (Dict.get c.transports m)) [
    | inl e ↦
        rw (n, e, unregister)
          record {
            mountpoints = get-pop c.mountpoints m;
            transports = get-pop c.transports m;
            heap = λ j. ground (arith, e);
            buffer = λ k. ground (arith, n, get-pop c.pipeline.frame_buffer m k);
            quality = λ k. ground (arith, n, get-pop c.pipeline.seen.quality m k);
            positions = λ k. ground (arith, n, get-pop c.rover_positions m k);
            readers = λ j. rw e (ended-EndsReaders false (c.heap j) (v.valid j));
            again = ground (arith, get-pop_self c.mountpoints m);
            unsubscribable = ground (arith, get-pop_self c.transports m);
          }
    | inr (i, e) ↦
        rw (n, e, unregister)
          record {
            mountpoints = get-pop c.mountpoints m;
            transports = get-pop c.transports m;
            heap = λ j. ground (arith, e);
            buffer = λ k. ground (arith, n, get-pop c.pipeline.frame_buffer m k);
            quality = λ k. ground (arith, n, get-pop c.pipeline.seen.quality m k);
            positions = λ k. ground (arith, n, get-pop c.rover_positions m k);
            readers = λ j. rw e (readers-shutdown c i j v);
            again = ground (arith, get-pop_self c.mountpoints m);
            unsubscribable = ground (arith, get-pop_self c.transports m);
          }
  ]

  -- Unregistering a mountpoint where the invariant holds forgets it, with its transport, its
  -- buffered bytes, quality and positions, and leaves those of every other; what is kept of a name
  -- that is not registered is left as it was. Its transport, if it is open, is shut down: every
  -- rover on it is told the end by its next `get`, and by one that waits unless it was cancelled
  -- before, and the rovers of the other transports see nothing. Once more does nothing, and to
  -- subscribe to it raises `KeyError`.
  pub unregister-IsGone :
      (c : NtripCaster fl) (m : String) → IsCaster fl c → IsGone c m (unregister fl c m)
  unfolding unregister
  unregister-IsGone c m v = elim (Option-cases (Dict.get c.mountpoints m)) [
    | inl n ↦ rw (n, unregister) (unregistered-IsGone c m v n)
    | inr (mp, n) ↦ forgotten-IsGone c m mp v n
  ]
