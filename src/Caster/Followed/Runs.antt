-- ===== src/Caster/Followed/Runs.antt =====
-- One subscriber through the histories of the caster: publications, the reaper, and runs.
use mathlib.Core.List as List
use corshub.Prelude.{
  ℕ, ◌≡◌, refl, sym, ap, ◌∙◌, Bool, true, false, not, ◌&&◌, Option, none, some, String, [], ◌∷◌,
  ◌++◌, if◌then◌else◌, All, Bool-cases, Option-cases, List-cases, inl, inr, arith, ◌==◌, ==_refl,
  same, same_iff, same_refl, string_eq,
}
use corshub.Prelude
use corshub.Dict
use corshub.Dict.{Dict}
use corshub.Float.{Float}
use corshub.Framing.{Bytes}
use corshub.Mountpoint.{Mountpoint}
use corshub.Observe.{Parser}
use corshub.Subscriber.Lifecycle.{Event as Read}
use corshub.Subscriber.Fed.{held, Fed-refl}
use corshub.Transport
use corshub.Transport.{subscribe_enter, subscribe_exit}
use corshub.Transport.Validity.{TransportEvent, transport_step}
use corshub.Caster.{
  NtripCaster, Result, ok, raise, update, register, close, unregister, mountpoints_reaped,
}
use corshub.Caster.Positions.{set_rover_position, clear_rover_position}
use corshub.Caster.Publishing.{report, deliver, publish, subscribe, start, stop}
use corshub.Caster.Reaper.{reap, unregister_all, stale_names}
use corshub.Caster.Registry.{IsCaster, Holds, unregister-IsCaster}
use corshub.Caster.Preserved.{
  SameRegistry, SameRegistry-quality_round, SameRegistry-enqueue_quality,
}
use corshub.Caster.Histories.{
  Event, registers, closes, unregisters, publishes, subscribes, unsubscribes, sets_position,
  clears_position, reaps, parses, reads, starts, stops, after, state, step, run, step-IsCaster,
}
use corshub.Caster.Followed.{
  publish-Feeds, IsOwned, Follows, Follows-trans, Follows-same, set_transport-Follows,
}
use corshub.Caster.Followed.Events.{
  stays, register-Follows, close-Follows, unregister-Follows, subscribe-Follows,
  unsubscribe-Follows,
}
use corshub.Caster.Followed.Published.{published, all_published, IsForeign}

module _ (fl : Float) where
  module _ (p : Parser fl) (m : String) (i s : ℕ) where
    unheard :
        (fs : Prelude.List Bytes) (c : NtripCaster fl)
        → IsOwned fl m i s c
        → Follows fl m i s fs c c
    unheard fs c o = record {
      owned = o;
      fed = List.sublist-append_left (held ((c.heap i).heap s)) fs;
    }

    deliver-Follows :
        (c : NtripCaster fl) (now : ℕ) (k : String) (f : Bytes) (j : ℕ) (mp : Mountpoint fl)
        → IsCaster fl c
        → IsOwned fl m i s c
        → Dict.get c.transports k ≡ some j
        → Follows fl m i s (if same k m then f ∷ [] else []) c (deliver fl p c now k f j mp).0
    unfolding deliver report
    deliver-Follows c now k f j mp v o e =
        let t = (Transport.publish (c.heap j) f).0 in
        let h =
          set_transport-Follows fl m i s (if same k m then f ∷ [] else []) c j t
            (λ q.
              let own : same k m ≡ true = ground (arith, o.owner k, same_iff k m, e, q) in
              rw own (publish-Feeds s (c.heap j) f (v.valid j)))
            o in
        let (_, ts, hs, a) = SameRegistry-enqueue_quality fl p _ k f in
        record {
          owned =
              (Follows-same fl m i s (record c { heap = update c.heap j t }) _ ts hs a
                h.owned).owned;
          fed = rw hs h.fed;
        }

    publish-Follows :
        (c : NtripCaster fl) (now : ℕ) (k : String) (f : Bytes)
        → IsCaster fl c
        → IsOwned fl m i s c
        → Holds fl
            (λ r. Follows fl m i s (if same k m then f ∷ [] else []) c r.0)
            (publish fl p c now k f)
    unfolding publish
    publish-Follows c now k f v o = elim (Option-cases (Dict.get c.transports k)) [
      | inl e ↦ rw (e, publish) (unheard (if same k m then f ∷ [] else []) c o)
      | inr (j, e) ↦ elim (Option-cases (Dict.get c.mountpoints k)) [
        | inl n ↦ rw (e, n, publish) tt
        | inr (mp, n) ↦ rw (e, n, publish) (deliver-Follows c now k f j mp v o e)
      ]
    ]

    unregister_all-Follows :
        (c : NtripCaster fl) (names : Prelude.List String)
        → IsCaster fl c
        → IsOwned fl m i s c
        → Follows fl m i s [] c (unregister_all fl c names)
    unfolding unregister_all
    unregister_all-Follows c [] v o = stays fl m i s c o
    unregister_all-Follows c (n ∷ ns) v o =
        let h = unregister-Follows fl m i s c o v n in
        Follows-trans fl m i s [] [] c (unregister fl c n) _ h
          (unregister_all-Follows (unregister fl c n) ns (unregister-IsCaster fl c n v) h.owned)

    reap_names-Follows :
        (c : NtripCaster fl) (names : Prelude.List String)
        → IsCaster fl c
        → IsOwned fl m i s c
        → Follows fl m i s [] c (elim names as (λ _. NtripCaster fl) [
          | [] ↦ c
          | name ∷ names ↦
              report fl
                (unregister_all fl c (name ∷ names))
                (mountpoints_reaped (Prelude.length (name ∷ names)) ∷ [])
        ])
    unfolding report
    reap_names-Follows c [] v o = stays fl m i s c o
    reap_names-Follows c (n ∷ ns) v o =
        let h = unregister_all-Follows c (n ∷ ns) v o in
        record { owned = (Follows-same fl m i s _ _ refl refl refl h.owned).owned; fed = h.fed }

    reap-Follows :
        (c : NtripCaster fl) (now : ℕ)
        → IsCaster fl c
        → IsOwned fl m i s c
        → Follows fl m i s [] c (reap fl c now)
    unfolding reap report
    reap-Follows c now v o = go c.expiry
      where
        go :
            (e : Option ℕ)
            → Follows fl m i s [] c (elim e as (λ _. NtripCaster fl) [
              | none ↦ c
              | some expiry ↦ elim (stale_names fl now expiry c.mountpoints) [
                | [] ↦ c
                | name ∷ names ↦
                    report fl
                      (unregister_all fl c (name ∷ names))
                      (mountpoints_reaped (Prelude.length (name ∷ names)) ∷ [])
              ]
            ])
        go none = stays fl m i s c o
        go (some expiry) = reap_names-Follows c (stale_names fl now expiry c.mountpoints) v o

    after-Follows :
        (fs : Prelude.List Bytes) (c : NtripCaster fl) (r : Result (NtripCaster fl))
        → IsOwned fl m i s c
        → Holds fl (Follows fl m i s fs c) r
        → Follows fl m i s fs c (after fl c r)
    after-Follows fs c (ok d) o h = h
    after-Follows fs c (raise e) o h = unheard fs c o

    state-Follows :
        (fs : Prelude.List Bytes) {A : Type 0} (c : NtripCaster fl)
        (r : Result (NtripCaster fl × A))
        → IsOwned fl m i s c
        → Holds fl (λ a. Follows fl m i s fs c a.0) r
        → Follows fl m i s fs c (after fl c (state fl r))
    state-Follows fs c (ok (d, a)) o h = h
    state-Follows fs c (raise e) o h = unheard fs c o

    reads-Follows :
        (c : NtripCaster fl) (j r : ℕ) (e : Read)
        → IsOwned fl m i s c
        → (j == i && r == s) ≡ false
        → Follows fl m i s [] c (step fl p c (reads j r e))
    unfolding step transport_step
    reads-Follows c j r e o foreign =
        set_transport-Follows fl m i s [] c j (transport_step (c.heap j) (TransportEvent.reads r e))
          (λ q. record {
            kept = λ k. k;
            fed =
                let other : (r == s) ≡ false = ground (arith, q, foreign) in
                rw other (Fed-refl ((c.heap j).heap s));
          })
          o

    SameRegistry-clear :
        (c : NtripCaster fl) (k r : String) → SameRegistry fl c (clear_rover_position fl c k r)
    unfolding clear_rover_position
    SameRegistry-clear c k r = ground arith

    step-Follows :
        (c : NtripCaster fl) (e : Event fl)
        → IsCaster fl c
        → IsOwned fl m i s c
        → IsForeign fl i s e
        → Follows fl m i s (published fl m e) c (step fl p c e)
    unfolding step set_rover_position start stop
    step-Follows c (registers now k kwargs) v o f =
        state-Follows [] c (register fl c now k kwargs) o
          (register-Follows fl m i s c o now k kwargs)
    step-Follows c (closes k) v o f =
        after-Follows [] c (close fl c k) o (close-Follows fl m i s c o v k)
    step-Follows c (unregisters k) v o f = unregister-Follows fl m i s c o v k
    step-Follows c (publishes now k b) v o f =
        state-Follows _ c (publish fl p c now k b) o (publish-Follows c now k b v o)
    step-Follows c (subscribes k) v o f =
        state-Follows [] c (subscribe fl c k) o (subscribe-Follows fl m i s c o k)
    step-Follows c (unsubscribes j r) v o f = unsubscribe-Follows fl m i s c o v j r
    step-Follows c (sets_position k r q) v o f = Follows-same fl m i s c _ refl refl refl o
    step-Follows c (clears_position k r) v o f =
        let (_, t, h, a) = SameRegistry-clear c k r in Follows-same fl m i s c _ t h a o
    step-Follows c (reaps now) v o f = reap-Follows c now v o
    step-Follows c (reads j r e) v o f = reads-Follows c j r e o f
    step-Follows c parses v o f =
        let (_, t, h, a) = SameRegistry-quality_round fl p c in Follows-same fl m i s c _ t h a o
    step-Follows c starts v o f = Follows-same fl m i s c _ refl refl refl o
    step-Follows c stops v o f = Follows-same fl m i s c _ refl refl refl o

    -- A history in which nobody else reads the subscriber.
    pub run-Follows :
        (c : NtripCaster fl) (es : Prelude.List (Event fl))
        → IsCaster fl c
        → IsOwned fl m i s c
        → All (IsForeign fl i s) es
        → Follows fl m i s (all_published fl m es) c (run fl p c es)
    unfolding run all_published
    run-Follows c [] v o f = stays fl m i s c o
    run-Follows c (e ∷ es) v o (f, fs) =
        let h = step-Follows c e v o f in
        Follows-trans fl m i s (published fl m e) (all_published fl m es) c (step fl p c e) _ h
          (run-Follows (step fl p c e) es (step-IsCaster fl p c e v) h.owned fs)
