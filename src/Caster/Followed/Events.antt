-- ===== src/Caster/Followed/Events.antt =====
-- One subscriber through the events of the caster.
use corshub.Prelude.{ℕ, ◌≡◌, refl, String, [], Option-cases, inl, inr, string_eq}
use corshub.Dict
use corshub.Dict.{Dict}
use corshub.Float.{Float}
use corshub.Mountpoint.{Mountpoint, Metadata, construct, update_metadata}
use corshub.Subscriber.Fed.{Fed-refl}
use corshub.Transport
use corshub.Transport.{subscribe_enter, subscribe_exit}
use corshub.Caster.{
  NtripCaster, shutdown_transport, forget_mountpoint, open_transport, register, close, unregister,
}
use corshub.Caster.Publishing.{report, subscribe, unsubscribe}
use corshub.Caster.Registry.{IsCaster, Holds}
use corshub.Caster.Followed.{
  shutdown-Feeds, enter-Feeds, exit-Feeds, IsOwned, Follows, Follows-trans, Follows-same,
  set_transport-Follows, pop_transport-IsOwned, open_transport-Follows,
}

module _ (fl : Float) (m : String) (i s : ℕ) where
  module _ (c : NtripCaster fl) (o : IsOwned fl m i s c) where
    abbrev pub To : NtripCaster fl → Type 0
    To d = Follows fl m i s [] c d

    pub stays : To c
    stays = Follows-same fl m i s c c refl refl refl o

    -- A transport that is let go, and shut down.
    let_go :
        (v : IsCaster fl c) (k : String) (j : ℕ) (d : NtripCaster fl)
        → d.transports ≡ Dict.pop c.transports k
        → d.heap ≡ c.heap
        → d.allocated ≡ c.allocated
        → To (shutdown_transport fl d j)
    unfolding shutdown_transport
    let_go v k j d t h a =
        let popped = record c { transports = Dict.pop c.transports k } in
        let gone = Follows-same fl m i s popped d t h a (pop_transport-IsOwned fl m i s c k o) in
        let ended =
          set_transport-Follows fl m i s [] d j (Transport.shutdown (d.heap j))
            (λ e. shutdown-Feeds s (d.heap j) (rw h (v.valid j))) gone.owned in
        record {
          owned = ended.owned;
          fed = (Follows-trans fl m i s [] [] popped d _ gone ended).fed;
        }

    pub register-Follows :
        (now : ℕ) (k : String) (kwargs : Metadata fl)
        → Holds fl (λ r. To r.0) (register fl c now k kwargs)
    unfolding register
    register-Follows now k kwargs = elim (Option-cases (Dict.get c.mountpoints k)) [
      | inl n ↦ elim (Option-cases (construct fl k kwargs now)) [
        | inl e ↦ rw (n, e, register) tt
        | inr (mp, e) ↦ rw (n, e, register) (opened (Dict.set c.mountpoints k mp))
      ]
      | inr (mp, n) ↦ elim (Option-cases (Dict.get c.transports k)) [
        | inl e ↦
            rw (n, e, register) (opened (Dict.set c.mountpoints k (update_metadata fl mp kwargs)))
        | inr (j, e) ↦
            rw (n, e, register) (listed (Dict.set c.mountpoints k (update_metadata fl mp kwargs)))
      ]
    ]
      where
        listed : (mps : Dict String (Mountpoint fl)) → To (record c { mountpoints = mps })
        listed mps = Follows-same fl m i s c _ refl refl refl o

        opened :
            (mps : Dict String (Mountpoint fl))
            → To (open_transport fl (record c { mountpoints = mps }) k)
        opened mps =
            let h =
              open_transport-Follows fl m i s (record c { mountpoints = mps }) k
                (listed mps).owned in
            record { owned = h.owned; fed = h.fed }

    pub close-Follows : (v : IsCaster fl c) (k : String) → Holds fl To (close fl c k)
    unfolding close forget_mountpoint
    close-Follows v k = elim (Option-cases (Dict.get c.mountpoints k)) [
      | inl n ↦ rw (n, close) stays
      | inr (mp, n) ↦ elim (Option-cases (Dict.get c.transports k)) [
        | inl e ↦ rw (n, e, close) tt
        | inr (j, e) ↦ rw (n, e, close) (let_go v k j _ refl refl refl)
      ]
    ]

    pub unregister-Follows : (v : IsCaster fl c) (k : String) → To (unregister fl c k)
    unfolding unregister forget_mountpoint
    unregister-Follows v k = elim (Option-cases (Dict.get c.mountpoints k)) [
      | inl n ↦ rw (n, unregister) stays
      | inr (mp, n) ↦ elim (Option-cases (Dict.get c.transports k)) [
        | inl e ↦
            rw (n, e, unregister)
              (record {
                owned =
                    (Follows-same fl m i s (record c { transports = Dict.pop c.transports k }) _
                      refl refl refl (pop_transport-IsOwned fl m i s c k o)).owned;
                fed = Fed-refl ((c.heap i).heap s);
              })
        | inr (j, e) ↦ rw (n, e, unregister) (let_go v k j _ refl refl refl)
      ]
    ]

    pub subscribe-Follows : (k : String) → Holds fl (λ r. To r.0) (subscribe fl c k)
    unfolding subscribe report
    subscribe-Follows k = elim (Option-cases (Dict.get c.transports k)) [
      | inl e ↦ rw (e, subscribe) tt
      | inr (j, e) ↦
          rw (e, subscribe)
            (let h =
                set_transport-Follows fl m i s [] c j (subscribe_enter (c.heap j)).0
                  (λ q. enter-Feeds s (c.heap j) (rw q o.seated)) o in
              record {
                owned = (Follows-same fl m i s _ _ refl refl refl h.owned).owned;
                fed = h.fed;
              })
    ]

    pub unsubscribe-Follows : (v : IsCaster fl c) (j r : ℕ) → To (unsubscribe fl c j r)
    unfolding unsubscribe
    unsubscribe-Follows v j r =
        set_transport-Follows fl m i s [] c j (subscribe_exit (c.heap j) r)
          (λ q. exit-Feeds s r (c.heap j) (v.valid j)) o
