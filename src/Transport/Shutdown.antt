-- ===== src/Transport/Shutdown.antt =====
-- What the end of a transport, and of one subscription, means to the subscribers.
use corshub.Prelude.{
  ℕ, ◌≡◌, refl, Bool, true, false, not, ◌&&◌, Bool-cases, inl, inr, List, [], ◌∷◌, ◌==◌, ==_refl,
  arith, none, if◌then◌else◌,
}
use corshub.Framing.{Bytes}
use corshub.Subscriber
use corshub.Subscriber.{Got, QueueTransportSubscriber, returned, get, take_item}
use corshub.Subscriber.Lifecycle.{IsValid, run, shutdown-ends}
use corshub.Transport.{Heap, QueueTransport, elem, subscribe_exit, shutdown_each, shutdown, publish}
use corshub.Transport.Delivery.{Distinct, IsTransport}
use corshub.Transport.Validity.{elem-remove}

pub heap-shutdown_each :
    (is : List ℕ) (h : Heap) (j : ℕ)
    → Distinct is
    → shutdown_each is h j ≡ (if elem j is then Subscriber.shutdown (h j) else h j)
unfolding shutdown_each elem
heap-shutdown_each [] h j d = refl
heap-shutdown_each (i ∷ is) h j d = rw (heap-shutdown_each is _ j d.1) (ground arith)

-- A reader that is told the end: waiting or not, it gets `None`.
abbrev pub HasEnded : QueueTransportSubscriber → Type 0
HasEnded s = ((take_item s).0 ≡ returned none) × ((get s).0 ≡ returned none)

shutdown-HasEnded :
    (s : QueueTransportSubscriber)
    → IsValid s
    → s.cancelled ≡ false
    → HasEnded (Subscriber.shutdown s)
unfolding run
shutdown-HasEnded s w live = let (woken, got, _) = shutdown-ends s [] [] w live in (woken, got)

-- What the readers of a transport see of its end, if it ends: a registered one is told `None` by its
-- next `get`, and by a `get` that waits, unless it was cancelled before; the others see nothing.
pub record EndsReaders (ends : Bool) (t u : QueueTransport) : Type 0 where
  pub told :
      (s : ℕ)
      → (get (u.heap s)).0 ≡ (if ends && elem s t.queues then returned none else (get (t.heap s)).0)
  pub woken :
      (s : ℕ)
      → (take_item (u.heap s)).0 ≡ (
          if ends && (elem s t.queues && not (t.heap s).cancelled)
          then returned none
          else (take_item (t.heap s)).0)

else_branch : (b : Bool) (t x y : Got) → b ≡ false → t ≡ y → t ≡ (if b then x else y)
else_branch true t x y e h = absurd (ground arith)
else_branch false t x y e h = h

reads-shutdown :
    (s : QueueTransportSubscriber)
    → IsValid s
    → ((get (Subscriber.shutdown s)).0 ≡ returned none)
      × ((take_item (Subscriber.shutdown s)).0
          ≡ (if s.cancelled then (take_item s).0 else returned none))
reads-shutdown s v = elim (Bool-cases s.cancelled) [
  | inl c ↦ unfold Subscriber.shutdown get in ground (arith, c)
  | inr c ↦
      let (woken, told) = shutdown-HasEnded s v c in
      (told, else_branch s.cancelled _ (take_item s).0 _ c woken)
]

shutdown-EndsReaders : (t : QueueTransport) → IsTransport t → EndsReaders true t (shutdown t)
unfolding shutdown
shutdown-EndsReaders t v = record {
  told = λ s.
      rw (heap-shutdown_each t.queues t.heap s v.distinct)
        (ground (arith, reads-shutdown (t.heap s) (v.valid s)));
  woken = λ s.
      rw (heap-shutdown_each t.queues t.heap s v.distinct)
        (ground (arith, reads-shutdown (t.heap s) (v.valid s)));
}

-- The readers of a transport that is shut down, or that is left alone.
pub ended-EndsReaders :
    (ends : Bool) (t : QueueTransport)
    → IsTransport t
    → EndsReaders ends t (if ends then shutdown t else t)
ended-EndsReaders true t v = shutdown-EndsReaders t v
ended-EndsReaders false t v = record { told = λ s. refl; woken = λ s. refl }

-- After the shutdown of a transport that meets the invariant no subscriber is registered, a frame
-- reaches nobody and changes nothing, exactly the subscribers that were registered have been shut
-- down, and such a one that was live ends.
pub shutdown-ends-all :
    (t : QueueTransport) (f : Bytes) (i : ℕ)
    → IsTransport t
    → elem i t.queues ≡ true
    → (t.heap i).cancelled ≡ false
    → ((shutdown t).queues ≡ [])
      × (publish (shutdown t) f ≡ (shutdown t, 0))
      × ((j : ℕ)
          → (shutdown t).heap j
            ≡ (if elem j t.queues then Subscriber.shutdown (t.heap j) else t.heap j))
      × HasEnded ((shutdown t).heap i)
unfolding shutdown publish
shutdown-ends-all t f i v e live = (
  refl,
  refl,
  λ j. heap-shutdown_each t.queues t.heap j v.distinct,
  rw (heap-shutdown_each t.queues t.heap i v.distinct, e)
      (shutdown-HasEnded (t.heap i) (v.valid i) live),
)

-- A live subscriber that leaves a transport that meets the invariant is no longer registered, and
-- ends; the other subscribers stay registered as they were, with their queues untouched.
subscribe_exit-ends :
    (t : QueueTransport) (i : ℕ)
    → IsTransport t
    → (t.heap i).cancelled ≡ false
    → ((j : ℕ) → elem j (subscribe_exit t i).queues ≡ (if i == j then false else elem j t.queues))
      × ((j : ℕ)
          → (subscribe_exit t i).heap j
            ≡ (if i == j then Subscriber.shutdown (t.heap i) else t.heap j))
      × HasEnded ((subscribe_exit t i).heap i)
unfolding subscribe_exit
subscribe_exit-ends t i v live = (
  λ j. ground (arith, elem-remove i j t.queues v.distinct),
  λ j. refl,
  rw (==_refl i) (shutdown-HasEnded (t.heap i) (v.valid i) live),
)
