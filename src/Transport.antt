-- ===== src/Transport.antt =====
-- `QueueTransport` of src/corshub/ntrip/v2/transport.py: one mountpoint's publisher and subscribers.
-- The subscriber objects stand in a heap, and `queues` refers to them by their place in it.
pub mod Delivery
pub mod Validity
pub mod Shutdown
use corshub.Prelude.{
  ℕ, zero, suc, ◌+◌, ◌≤◌, ◌<◌, ◌≡◌, refl, Bool, true, false, List, [], ◌∷◌, ◌++◌, ◌==◌, arith,
  if◌then◌else◌, length,
}
use corshub.Framing.{Bytes}
use corshub.Subscriber
use corshub.Subscriber.{QueueTransportSubscriber, init}

abbrev pub Heap : Type 0
Heap = ℕ → QueueTransportSubscriber

abbrev pub update : Heap → ℕ → QueueTransportSubscriber → Heap
update h i s j = if i == j then s else h j

pub record QueueTransport : Type 0 where
  pub queues : List ℕ
  pub heap : Heap
  pub allocated : ℕ

abbrev pub create : QueueTransport
create = record { queues = []; heap = λ _. init; allocated = 0 }

-- `subscriber in subscribers`, by identity.
unfoldable pub elem : ℕ → List ℕ → Bool
elem i [] = false
elem i (j ∷ js) = if j == i then true else elem i js

-- `subscribers.remove(subscriber)`: the first occurrence.
unfoldable pub remove : ℕ → List ℕ → List ℕ
remove i [] = []
remove i (j ∷ js) = if j == i then js else j ∷ remove i js

unfoldable pub subscriber_count : QueueTransport → ℕ
subscriber_count t = length t.queues

unfoldable pub queue_depth_of : Heap → List ℕ → ℕ
queue_depth_of h [] = 0
queue_depth_of h (i ∷ is) = length (h i).queue.items + queue_depth_of h is

unfoldable pub queue_depth : QueueTransport → ℕ
unfolding queue_depth_of
queue_depth t = queue_depth_of t.heap t.queues

-- `subscribe` up to its `yield`: the transport, and the new subscriber.
unfoldable pub subscribe_enter : QueueTransport → QueueTransport × ℕ
subscribe_enter t = (
  record {
    queues = t.queues ++ t.allocated ∷ [];
    heap = update t.heap t.allocated init;
    allocated = t.allocated + 1;
  },
  t.allocated,
)

-- The `finally` block of `subscribe`.
unfoldable pub subscribe_exit : QueueTransport → ℕ → QueueTransport
unfolding elem remove
subscribe_exit t i = record t {
  queues = if elem i t.queues then remove i t.queues else t.queues;
  heap = update t.heap i (Subscriber.shutdown (t.heap i));
}

unfoldable pub shutdown_each : List ℕ → Heap → Heap
shutdown_each [] h = h
shutdown_each (i ∷ is) h = shutdown_each is (update h i (Subscriber.shutdown (h i)))

unfoldable pub shutdown : QueueTransport → QueueTransport
unfolding shutdown_each
shutdown t = record t { queues = []; heap = shutdown_each t.queues t.heap }

-- The fan-out loop of `publish`, over the snapshot of the list.
unfoldable pub publish_each : List ℕ → Heap → Bytes → ℕ → Heap × ℕ
publish_each [] h f acks = (h, acks)
publish_each (i ∷ is) h f acks =
    publish_each is (update h i (Subscriber.publish (h i) f).0) f
      (if (Subscriber.publish (h i) f).1 then acks + 1 else acks)

-- `publish`: the transport, and the number of subscribers that took the frame.
unfoldable pub publish : QueueTransport → Bytes → QueueTransport × ℕ
unfolding publish_each
publish t f = elim t.queues [
  | [] ↦ (t, 0)
  | i ∷ is ↦ let (h, acks) = publish_each (i ∷ is) t.heap f 0 in (record t { heap = h }, acks)
]
