-- ===== src/Subscriber/Lifecycle.antt =====
-- The invariant of a subscriber, and what its end means to the task that reads it.
use corshub.Prelude.{
  ℕ, zero, suc, ◌-◌, ◌≤◌, ◌≡◌, ◌≢◌, refl, true, false, none, List, [], ◌∷◌, arith, length,
  length-append,
}
use corshub.AsyncQueue.{full, put_nowait, get_nowait, task_done}
use corshub.Framing.{Bytes}
use corshub.Subscriber.{
  Item, frame, sentinel, queue_maxsize, QueueTransportSubscriber, init, signal_done, drain_items,
  drain, cleanup, shutdown, evict_oldest, publish, returned, value_error, take_item, get,
  get_cancelled,
}

-- The queue is within its bound, and every item in it is still counted as unfinished.
pub record IsValid (s : QueueTransportSubscriber) : Type 0 where
  pub sized : s.queue.maxsize ≡ queue_maxsize
  pub bounded : length s.queue.items ≤ queue_maxsize
  pub counted : length s.queue.items ≤ s.queue.unfinished

pub init-IsValid : IsValid init
init-IsValid = record { sized = refl; bounded = omega arith; counted = omega arith }

-- A full drain: the safety net is not needed while every item is counted.
drain_items-all :
    (items : List Item) (u : ℕ) → length items ≤ u → drain_items items u ≡ ([], u - length items)
unfolding drain_items
drain_items-all [] u h = ground arith
drain_items-all (x ∷ items) zero h = absurd (omega arith)
drain_items-all (x ∷ items) (suc u) h = rw (drain_items-all items u (omega arith)) (ground arith)

pub items-cleanup :
    (s : QueueTransportSubscriber)
    → IsValid s
    → ((cleanup s).queue.items ≡ sentinel ∷ []) × ((cleanup s).cancelled ≡ true)
unfolding cleanup signal_done drain put_nowait full
items-cleanup s v = ground (arith, drain_items-all s.queue.items s.queue.unfinished)

cleanup-IsValid : (s : QueueTransportSubscriber) → IsValid s → IsValid (cleanup s)
unfolding cleanup signal_done drain put_nowait full
cleanup-IsValid s v = ground (arith, drain_items-all s.queue.items s.queue.unfinished)

pub shutdown-IsValid : (s : QueueTransportSubscriber) → IsValid s → IsValid (shutdown s)
unfolding shutdown
shutdown-IsValid s v = ground (arith, cleanup-IsValid s)

pub publish-IsValid :
    (s : QueueTransportSubscriber) (f : Bytes) → IsValid s → IsValid (publish s f).0
unfolding publish evict_oldest put_nowait get_nowait full
publish-IsValid s f v = ground (arith, length-append s.queue.items (frame f ∷ []))

take_item-IsValid : (s : QueueTransportSubscriber) → IsValid s → IsValid (take_item s).1
unfolding take_item get_nowait task_done
take_item-IsValid s v = ground arith

-- What may happen to a subscriber: a method is called, or a waiting `get` is woken or cancelled.
pub data Event : Type 0 where
  publishes : Bytes → Event
  gets : Event
  wakes : Event
  cancels : Event
  cleans_up : Event
  shuts_down : Event

unfoldable pub step : QueueTransportSubscriber → Event → QueueTransportSubscriber
step s (publishes f) = (publish s f).0
step s gets = (get s).1
step s wakes = (take_item s).1
step s cancels = get_cancelled s
step s cleans_up = cleanup s
step s shuts_down = shutdown s

unfoldable pub run : QueueTransportSubscriber → List Event → QueueTransportSubscriber
unfolding step
run s [] = s
run s (e ∷ es) = run (step s e) es

pub step-IsValid : (s : QueueTransportSubscriber) (e : Event) → IsValid s → IsValid (step s e)
unfolding step
step-IsValid s (publishes f) v = publish-IsValid s f v
step-IsValid s gets v = unfold get in ground (arith, take_item-IsValid s)
step-IsValid s wakes v = take_item-IsValid s v
step-IsValid s cancels v = unfold get_cancelled in ground arith
step-IsValid s cleans_up v = cleanup-IsValid s v
step-IsValid s shuts_down v = shutdown-IsValid s v

-- Whatever happens to a valid subscriber, its queue keeps the bound and counts every waiting item.
pub run-IsValid : (s : QueueTransportSubscriber) (es : List Event) → IsValid s → IsValid (run s es)
unfolding run
run-IsValid s [] v = v
run-IsValid s (e ∷ es) v = run-IsValid (step s e) es (step-IsValid s e v)

run-cancelled :
    (s : QueueTransportSubscriber) (es : List Event)
    → s.cancelled ≡ true
    → (run s es).cancelled ≡ true
unfolding run
run-cancelled s [] c = c
run-cancelled s (e ∷ es) c = run-cancelled (step s e) es (go e)
  where
    go : (d : Event) → (step s d).cancelled ≡ true
    go (publishes f) = unfold step publish in ground arith
    go gets = unfold step get in ground arith
    go wakes = unfold step take_item get_nowait task_done in ground arith
    go cancels = unfold step get_cancelled in refl
    go cleans_up = unfold step cleanup signal_done drain in ground arith
    go shuts_down = unfold step shutdown in ground arith

-- On a valid subscriber, after any events, neither a call of `get` nor a waiting one that is woken
-- raises the `ValueError` of `task_done`.
get-ne-value_error :
    (s : QueueTransportSubscriber) (es : List Event)
    → IsValid s
    → ((get (run s es)).0 ≢ value_error) × ((take_item (run s es)).0 ≢ value_error)
unfolding get
get-ne-value_error s es v = ground (arith, never (run s es) (run-IsValid s es v))
  where
    never : (t : QueueTransportSubscriber) → IsValid t → (take_item t).0 ≢ value_error
    never t w = unfold take_item get_nowait task_done in ground arith

take_item-sentinel :
    (s : QueueTransportSubscriber)
    → IsValid s
    → s.queue.items ≡ sentinel ∷ []
    → (take_item s).0 ≡ returned none
unfolding take_item get_nowait task_done
take_item-sentinel s v e = ground arith

ended :
    (s : QueueTransportSubscriber) (f : Bytes)
    → s.cancelled ≡ true
    → ((get s).0 ≡ returned none) × ((publish s f).1 ≡ false)
unfolding get publish
ended s f c = ground arith

-- Shutting a valid, live subscriber down discards what waited: a reader that is waiting is woken and
-- gets `None`, and from then on, whatever else happens, each `get` returns `None` and each frame is refused.
pub shutdown-ends :
    (s : QueueTransportSubscriber) (es : List Event) (f : Bytes)
    → IsValid s
    → s.cancelled ≡ false
    → ((take_item (shutdown s)).0 ≡ returned none)
      × ((get (run (shutdown s) es)).0 ≡ returned none)
      × ((publish (run (shutdown s) es) f).1 ≡ false)
unfolding shutdown
shutdown-ends s es f v live =
    let (items, done) = items-cleanup s v in
    let (got, refused) = ended (run (cleanup s) es) f (run-cancelled (cleanup s) es done) in
    rw live (take_item-sentinel (cleanup s) (cleanup-IsValid s v) items, got, refused)
