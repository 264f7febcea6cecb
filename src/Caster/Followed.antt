-- ===== src/Caster/Followed.antt =====
-- One subscriber through the histories of the caster.
pub mod Published
pub mod Events
pub mod Runs
use mathlib.Core.List.{Sublist}
use mathlib.Core.List as List
use corshub.Prelude.{
  ℕ, ◌+◌, ◌≤◌, ◌<◌, ◌≡◌, refl, sym, ap, ◌∙◌, Bool, true, false, not, ◌&&◌, Option, none, some,
  String, [], ◌∷◌, ◌++◌, if◌then◌else◌, All, Bool-cases, Option-cases, inl, inr, arith, ◌==◌,
  ==_refl, same, same_iff, string_eq,
}
use corshub.Prelude
use corshub.Dict
use corshub.Dict.{Dict, get-set, get-pop}
use corshub.Float.{Float}
use corshub.Framing.{Bytes}
use corshub.Mountpoint.{Mountpoint, Metadata}
use corshub.Observe.{Parser}
use corshub.Subscriber
use corshub.Subscriber.{QueueTransportSubscriber}
use corshub.Subscriber.Lifecycle.{Event as Read}
use corshub.Subscriber.Fed.{held, Fed, Fed-refl, Fed-trans, publish-Fed, shutdown-Fed}
use corshub.Transport
use corshub.Transport.{QueueTransport, elem, subscribe_enter, subscribe_exit}
use corshub.Transport.Delivery.{IsTransport, publish-delivers}
use corshub.Transport.Shutdown.{heap-shutdown_each}
use corshub.Caster.{
  NtripCaster, Result, ok, raise, update, shutdown_transport, forget_mountpoint, open_transport,
  register, close, unregister,
}
use corshub.Caster.Registry.{IsCaster}

-- A transport goes on to another state: the subscriber is fed these frames at most, and stays
-- allocated.
pub record Feeds (s : ℕ) (fs : Prelude.List Bytes) (t u : QueueTransport) : Type 0 where
  pub kept : s < t.allocated → s < u.allocated
  pub fed : Fed fs (t.heap s) (u.heap s)

pub Feeds-refl : (s : ℕ) (t : QueueTransport) → Feeds s [] t t
Feeds-refl s t = record { kept = λ h. h; fed = Fed-refl (t.heap s) }

pub publish-Feeds :
    (s : ℕ) (t : QueueTransport) (f : Bytes)
    → IsTransport t
    → Feeds s (f ∷ []) t (Transport.publish t f).0
publish-Feeds s t f v =
    let (h, q, a, _) = publish-delivers t f v in
    record {
      kept = λ k. rw a k;
      fed = rw (h s) (elim (Bool-cases (elem s t.queues)) [
        | inl e ↦ rw e (publish-Fed (t.heap s) f (v.valid s))
        | inr e ↦ rw e (List.sublist-append_left (held (t.heap s)) (f ∷ []))
      ]);
    }

pub shutdown-Feeds :
    (s : ℕ) (t : QueueTransport) → IsTransport t → Feeds s [] t (Transport.shutdown t)
unfolding Transport.shutdown
shutdown-Feeds s t v = record {
  kept = λ k. k;
  fed = rw (heap-shutdown_each t.queues t.heap s v.distinct) (elim (Bool-cases (elem s t.queues)) [
    | inl e ↦ rw e (shutdown-Fed (t.heap s) (v.valid s))
    | inr e ↦ rw e (Fed-refl (t.heap s))
  ]);
}

pub enter-Feeds :
    (s : ℕ) (t : QueueTransport) → s < t.allocated → Feeds s [] t (subscribe_enter t).0
unfolding subscribe_enter
enter-Feeds s t h = record {
  kept = λ k. omega arith;
  fed = let e : (t.allocated == s) ≡ false = ground arith in rw e (Fed-refl (t.heap s));
}

pub exit-Feeds : (s j : ℕ) (t : QueueTransport) → IsTransport t → Feeds s [] t (subscribe_exit t j)
unfolding subscribe_exit
exit-Feeds s j t v = record {
  kept = λ k. k;
  fed = elim (Bool-cases (j == s)) [
    | inl e ↦
        let same_place : j ≡ s = ground arith in
        rw (same_place, ==_refl s) (shutdown-Fed (t.heap s) (v.valid s))
    | inr e ↦ rw e (Fed-refl (t.heap s))
  ];
}

module _ (fl : Float) where
  -- The subscriber `s` of the transport `i` is allocated, and no other mountpoint than `m` has this
  -- transport.
  pub record IsOwned (m : String) (i s : ℕ) (c : NtripCaster fl) : Type 0 where
    pub placed : i < c.allocated
    pub seated : s < (c.heap i).allocated
    pub owner : (k : String) → Dict.get c.transports k ≡ some i → k ≡ m

  module _ (m : String) (i s : ℕ) where
    -- From a caster to another one the subscriber is fed these frames at most, and stays what it is.
    pub record Follows (fs : Prelude.List Bytes) (c d : NtripCaster fl) : Type 0 where
      pub owned : IsOwned m i s d
      pub fed : Fed fs ((c.heap i).heap s) ((d.heap i).heap s)

    pub Follows-trans :
        (fs gs : Prelude.List Bytes) (c d e : NtripCaster fl)
        → Follows fs c d
        → Follows gs d e
        → Follows (fs ++ gs) c e
    Follows-trans fs gs c d e h k = record {
      owned = k.owned;
      fed = Fed-trans fs gs ((c.heap i).heap s) ((d.heap i).heap s) ((e.heap i).heap s) h.fed k.fed;
    }

    pub Follows-same :
        (c d : NtripCaster fl)
        → d.transports ≡ c.transports
        → d.heap ≡ c.heap
        → d.allocated ≡ c.allocated
        → IsOwned m i s c
        → Follows [] c d
    Follows-same c d t h a o = record {
      owned = record {
        placed = rw a o.placed;
        seated = rw h o.seated;
        owner = λ k. rw t (o.owner k);
      };
      fed = rw h (Fed-refl ((c.heap i).heap s));
    }

    -- One transport goes on.
    pub set_transport-Follows :
        (fs : Prelude.List Bytes) (c : NtripCaster fl) (j : ℕ) (t : QueueTransport)
        → (j ≡ i → Feeds s fs (c.heap j) t)
        → IsOwned m i s c
        → Follows fs c (record c { heap = update c.heap j t })
    set_transport-Follows fs c j t h o = elim (Bool-cases (j == i)) [
      | inl e ↦
          let same_place : j ≡ i = ground arith in
          let feeds = h same_place in
          record {
            owned = record {
              placed = o.placed;
              seated = rw e (feeds.kept (rw same_place o.seated));
              owner = o.owner;
            };
            fed = rw e (rw (← same_place) feeds.fed);
          }
      | inr e ↦ record {
        owned = record { placed = o.placed; seated = rw e o.seated; owner = o.owner };
        fed = rw e (List.sublist-append_left (held ((c.heap i).heap s)) fs);
      }
    ]

    pub pop_transport-IsOwned :
        (c : NtripCaster fl) (k : String)
        → IsOwned m i s c
        → IsOwned m i s (record c { transports = Dict.pop c.transports k })
    pop_transport-IsOwned c k o = record {
      placed = o.placed;
      seated = o.seated;
      owner = λ j e. ground (arith, o.owner j, get-pop c.transports k j, e);
    }

    pub open_transport-Follows :
        (c : NtripCaster fl) (k : String) → IsOwned m i s c → Follows [] c (open_transport fl c k)
    unfolding open_transport
    open_transport-Follows c k o =
        let e : (c.allocated == i) ≡ false = ground (arith, o.placed) in
        record {
          owned = record {
            placed = omega (arith, o.placed);
            seated = rw e o.seated;
            owner =
                λ j q. ground (arith, o.placed, o.owner j, get-set c.transports k j c.allocated, q);
          };
          fed = rw e (Fed-refl ((c.heap i).heap s));
        }
