-- ===== src/Caster/Preserved.antt =====
-- What the other operations of the caster do to the invariant of its registry.
use corshub.Prelude.{
  ℕ, ◌≡◌, refl, String, List, [], ◌∷◌, length, string_eq, arith, Option-cases, inl, inr,
}
use corshub.Dict
use corshub.Dict.{Dict}
use corshub.Float.{Float}
use corshub.Framing.{Bytes}
use corshub.Mountpoint.{Mountpoint}
use corshub.Observe.{Parser}
use corshub.Transport
use corshub.Transport.Delivery.{IsTransport}
use corshub.Transport.Validity.{
  subscribe_enter-IsTransport, subscribe_exit-IsTransport, publish-IsTransport,
}
use corshub.Caster.{NtripCaster, update, unregister, mountpoints_reaped}
use corshub.Caster.Publishing.{
  report, process_quality, enqueue_quality, quality_round, deliver, publish, subscribe, unsubscribe,
}
use corshub.Caster.Reaper.{reap, unregister_all, stale_names}
use corshub.Caster.Registry.{
  IsCaster, Holds, update-valid, set_mountpoint-IsCaster, unregister-IsCaster,
}

module _ (fl : Float) where
  -- The parts of the state that the invariant reads.
  abbrev pub SameRegistry : NtripCaster fl → NtripCaster fl → Type 0
  SameRegistry c d =
      (d.mountpoints ≡ c.mountpoints)
      × (d.transports ≡ c.transports)
      × (d.heap ≡ c.heap)
      × (d.allocated ≡ c.allocated)

  pub SameRegistry-IsCaster :
      (c d : NtripCaster fl) → SameRegistry c d → IsCaster fl c → IsCaster fl d
  SameRegistry-IsCaster c d (m, t, h, a) v = record {
    distinct = rw m v.distinct;
    registered = λ k. rw (m, t) (v.registered k);
    allocated = λ k. rw (t, a) (v.allocated k);
    unshared = rw t v.unshared;
    valid = λ i. rw h (v.valid i);
  }

  pub set_transport-IsCaster :
      (c : NtripCaster fl) (i : ℕ) (t : Transport.QueueTransport)
      → IsCaster fl c
      → IsTransport t
      → IsCaster fl (record c { heap = update c.heap i t })
  set_transport-IsCaster c i t v w = record {
    distinct = v.distinct;
    registered = v.registered;
    allocated = v.allocated;
    unshared = v.unshared;
    valid = update-valid fl c.heap i t v.valid w;
  }

  module _ (p : Parser fl) where
    pub SameRegistry-enqueue_quality :
        (c : NtripCaster fl) (m : String) (f : Bytes) → SameRegistry c (enqueue_quality fl p c m f)
    unfolding enqueue_quality process_quality report
    SameRegistry-enqueue_quality c m f = ground arith

    pub SameRegistry-quality_round : (c : NtripCaster fl) → SameRegistry c (quality_round fl p c)
    unfolding quality_round process_quality
    SameRegistry-quality_round c = ground arith

    deliver-IsCaster :
        (c : NtripCaster fl) (now : ℕ) (m : String) (f : Bytes) (i : ℕ) (mp : Mountpoint fl)
        → IsCaster fl c
        → IsCaster fl (deliver fl p c now m f i mp).0
    unfolding deliver report
    deliver-IsCaster c now m f i mp v =
        let entry = record mp { last_seen = now } in
        let t = (Transport.publish (c.heap i) f).0 in
        let touched = record c {
          mountpoints = Dict.set c.mountpoints m entry;
          heap = update c.heap i t;
        } in
        SameRegistry-IsCaster touched _ (SameRegistry-enqueue_quality (report fl touched _) m f) (
          set_transport-IsCaster (record c { mountpoints = Dict.set c.mountpoints m entry }) i t
            (set_mountpoint-IsCaster fl c m entry v) (publish-IsTransport (c.heap i) f (v.valid i)))

    pub publish-IsCaster :
        (c : NtripCaster fl) (now : ℕ) (m : String) (f : Bytes)
        → IsCaster fl c
        → Holds fl (λ r. IsCaster fl r.0) (publish fl p c now m f)
    unfolding publish
    publish-IsCaster c now m f v = elim (Option-cases (Dict.get c.transports m)) [
      | inl e ↦ rw (e, publish) v
      | inr (i, e) ↦ elim (Option-cases (Dict.get c.mountpoints m)) [
        | inl n ↦ rw (e, n, publish) tt
        | inr (mp, n) ↦ rw (e, n, publish) (deliver-IsCaster c now m f i mp v)
      ]
    ]

    pub subscribe-IsCaster :
        (c : NtripCaster fl) (m : String)
        → IsCaster fl c
        → Holds fl (λ r. IsCaster fl r.0) (subscribe fl c m)
    unfolding subscribe report
    subscribe-IsCaster c m v = elim (Option-cases (Dict.get c.transports m)) [
      | inl e ↦ rw (e, subscribe) tt
      | inr (i, e) ↦
          rw (e, subscribe)
            (SameRegistry-IsCaster
              (record c { heap = update c.heap i (Transport.subscribe_enter (c.heap i)).0 }) _
              (refl, refl, refl, refl)
              (set_transport-IsCaster c i _ v (subscribe_enter-IsTransport (c.heap i) (v.valid i))))
    ]

    pub unsubscribe-IsCaster :
        (c : NtripCaster fl) (i subscriber : ℕ)
        → IsCaster fl c
        → IsCaster fl (unsubscribe fl c i subscriber)
    unfolding unsubscribe
    unsubscribe-IsCaster c i subscriber v =
        set_transport-IsCaster c i _ v
          (subscribe_exit-IsTransport (c.heap i) subscriber (v.valid i))

    unregister_all-IsCaster :
        (c : NtripCaster fl) (names : List String)
        → IsCaster fl c
        → IsCaster fl (unregister_all fl c names)
    unfolding unregister_all
    unregister_all-IsCaster c [] v = v
    unregister_all-IsCaster c (n ∷ ns) v =
        unregister_all-IsCaster (unregister fl c n) ns (unregister-IsCaster fl c n v)

    reap_names-IsCaster :
        (c : NtripCaster fl) (names : List String)
        → IsCaster fl c
        → IsCaster fl (elim names [
          | [] ↦ c
          | n ∷ ns ↦
              report fl (unregister_all fl c (n ∷ ns)) (mountpoints_reaped (length (n ∷ ns)) ∷ [])
        ])
    unfolding report
    reap_names-IsCaster c [] v = v
    reap_names-IsCaster c (n ∷ ns) v =
        SameRegistry-IsCaster (unregister_all fl c (n ∷ ns)) _ (refl, refl, refl, refl)
          (unregister_all-IsCaster c (n ∷ ns) v)

    pub reap-IsCaster : (c : NtripCaster fl) (now : ℕ) → IsCaster fl c → IsCaster fl (reap fl c now)
    unfolding reap
    reap-IsCaster c now v = elim (Option-cases c.expiry) [
      | inl e ↦ rw (e, reap) v
      | inr (expiry, e) ↦
          rw (e, reap) (reap_names-IsCaster c (stale_names fl now expiry c.mountpoints) v)
    ]
