-- ===== src/Transport/Validity.antt =====
-- Every operation of a transport, and of its subscribers, keeps the transport's invariant.
use corshub.Prelude.{
  ℕ, ◌≡◌, refl, true, false, List, [], ◌∷◌, ◌++◌, ◌==◌, arith, if◌then◌else◌, Bool-cases, inl, inr,
}
use corshub.Framing.{Bytes}
use corshub.Subscriber.{init}
use corshub.Subscriber.Lifecycle.{
  IsValid, init-IsValid, Event, step, step-IsValid, publish-IsValid, shutdown-IsValid,
}
use corshub.Transport.{
  Heap, update, QueueTransport, create, elem, remove, subscribe_enter, subscribe_exit,
  shutdown_each, shutdown, publish,
}
use corshub.Transport.Delivery.{Distinct, IsTransport, update-IsValid, publish-delivers}

-- What may happen to a transport: its own operations, and what the readers do with its subscribers.
pub data TransportEvent : Type 0 where
  subscribes : TransportEvent
  leaves : ℕ → TransportEvent
  publishes : Bytes → TransportEvent
  shuts_down : TransportEvent
  reads : ℕ → Event → TransportEvent

unfoldable pub transport_step : QueueTransport → TransportEvent → QueueTransport
transport_step t subscribes = (subscribe_enter t).0
transport_step t (leaves i) = subscribe_exit t i
transport_step t (publishes f) = (publish t f).0
transport_step t shuts_down = shutdown t
transport_step t (reads i e) = record t { heap = update t.heap i (step (t.heap i) e) }

unfoldable pub transport_run : QueueTransport → List TransportEvent → QueueTransport
unfolding transport_step
transport_run t [] = t
transport_run t (e ∷ es) = transport_run (transport_step t e) es

pub elem-append :
    (i j : ℕ) (is : List ℕ) → elem i (is ++ j ∷ []) ≡ (if j == i then true else elem i is)
unfolding elem
elem-append i j [] = refl
elem-append i j (k ∷ is) = ground (arith, elem-append i j is)

append-Distinct : (j : ℕ) (is : List ℕ) → elem j is ≡ false → Distinct is → Distinct (is ++ j ∷ [])
unfolding elem
append-Distinct j [] e d = (refl, tt)
append-Distinct j (k ∷ is) e d = ground (arith, elem-append k j is, append-Distinct j is)

pub elem-remove :
    (i j : ℕ) (is : List ℕ)
    → Distinct is
    → elem j (remove i is) ≡ (if i == j then false else elem j is)
unfolding elem remove
elem-remove i j [] d = ground arith
elem-remove i j (k ∷ is) d = ground (arith, elem-remove i j is)

remove-Distinct : (i : ℕ) (is : List ℕ) → Distinct is → Distinct (remove i is)
unfolding elem remove
remove-Distinct i [] d = tt
remove-Distinct i (k ∷ is) d = ground (arith, remove-Distinct i is, elem-remove i k is)

pub create-IsTransport : IsTransport create
unfolding elem
create-IsTransport = record { distinct = tt; allocated = λ i h. refl; valid = λ i. init-IsValid }

pub subscribe_enter-IsTransport :
    (t : QueueTransport) → IsTransport t → IsTransport (subscribe_enter t).0
unfolding subscribe_enter
subscribe_enter-IsTransport t v = record {
  distinct =
      append-Distinct t.allocated t.queues (v.allocated t.allocated (omega arith)) v.distinct;
  allocated = λ i h. ground (arith, elem-append i t.allocated t.queues, v.allocated i);
  valid = update-IsValid t.heap t.allocated init v.valid init-IsValid;
}

pub subscribe_exit-IsTransport :
    (t : QueueTransport) (i : ℕ) → IsTransport t → IsTransport (subscribe_exit t i)
unfolding subscribe_exit
subscribe_exit-IsTransport t i v = record {
  distinct = ground (arith, remove-Distinct i t.queues v.distinct, v.distinct);
  allocated = λ j h. ground (arith, elem-remove i j t.queues v.distinct, v.allocated j);
  valid = update-IsValid t.heap i _ v.valid (shutdown-IsValid (t.heap i) (v.valid i));
}

pub shutdown_each-IsValid :
    (is : List ℕ) (h : Heap) → ((j : ℕ) → IsValid (h j)) → (j : ℕ) → IsValid (shutdown_each is h j)
unfolding shutdown_each
shutdown_each-IsValid [] h v = v
shutdown_each-IsValid (i ∷ is) h v =
    shutdown_each-IsValid is _ (update-IsValid h i _ v (shutdown-IsValid (h i) (v i)))

pub shutdown-IsTransport : (t : QueueTransport) → IsTransport t → IsTransport (shutdown t)
unfolding shutdown elem
shutdown-IsTransport t v = record {
  distinct = tt;
  allocated = λ i h. refl;
  valid = shutdown_each-IsValid t.queues t.heap v.valid;
}

pub publish-IsTransport :
    (t : QueueTransport) (f : Bytes) → IsTransport t → IsTransport (publish t f).0
publish-IsTransport t f v =
    let (heap, queues, allocated, _) = publish-delivers t f v in
    record {
      distinct = rw queues v.distinct;
      allocated = λ i h. rw queues (v.allocated i (rw allocated at h));
      valid = λ i. rw heap (elim (Bool-cases (elem i t.queues)) [
        | inl e ↦ rw e (publish-IsValid (t.heap i) f (v.valid i))
        | inr e ↦ rw e (v.valid i)
      ]);
    }

pub transport_step-IsTransport :
    (t : QueueTransport) (e : TransportEvent) → IsTransport t → IsTransport (transport_step t e)
unfolding transport_step
transport_step-IsTransport t subscribes v = subscribe_enter-IsTransport t v
transport_step-IsTransport t (leaves i) v = subscribe_exit-IsTransport t i v
transport_step-IsTransport t (publishes f) v = publish-IsTransport t f v
transport_step-IsTransport t shuts_down v = shutdown-IsTransport t v
transport_step-IsTransport t (reads i e) v = record {
  distinct = v.distinct;
  allocated = v.allocated;
  valid = update-IsValid t.heap i _ v.valid (step-IsValid (t.heap i) e (v.valid i));
}

-- In any history of subscriptions, departures, frames, reads and shutdowns, from the invariant on, no
-- subscriber is registered twice, none is registered before it exists, and every queue is within its
-- bound with its items counted.
transport_run-IsTransport :
    (t : QueueTransport) (es : List TransportEvent)
    → IsTransport t
    → IsTransport (transport_run t es)
unfolding transport_run
transport_run-IsTransport t [] v = v
transport_run-IsTransport t (e ∷ es) v =
    transport_run-IsTransport (transport_step t e) es (transport_step-IsTransport t e v)
