-- ===== src/Subscriber.antt =====
-- `QueueTransportSubscriber` of src/corshub/ntrip/v2/transport.py: the bounded queue of one rover.
pub mod Freshest
pub mod Lifecycle
pub mod Fed
use corshub.Prelude.{
  ℕ, zero, suc, ◌+◌, ◌≤◌, ◌<◌, ◌≡◌, refl, Bool, true, false, Option, none, some, List, [], ◌∷◌,
  ◌++◌, arith, if◌then◌else◌, length,
}
use corshub.AsyncQueue.{AsyncQueue, create, full, put_nowait, get_nowait, task_done}
use corshub.Framing.{Bytes}

-- What the queue holds: frames, and the unique object that signals the end.
pub data Item : Type 0 where
  frame : Bytes → Item
  sentinel : Item

abbrev pub queue_maxsize : ℕ
queue_maxsize = 15

pub record QueueTransportSubscriber : Type 0 where
  pub queue : AsyncQueue Item
  pub cancelled : Bool

abbrev pub init : QueueTransportSubscriber
init = record { queue = create queue_maxsize; cancelled = false }

-- `_signal_done`: a full queue is ignored.
unfoldable pub signal_done : QueueTransportSubscriber → QueueTransportSubscriber
unfolding put_nowait
signal_done s = elim (put_nowait s.queue sentinel) [
  | none ↦ record s { cancelled = true }
  | some q ↦ record { queue = q; cancelled = true }
]

-- The loop of `drain`, over the waiting items and the count of unfinished tasks: each round takes an
-- item and marks it done, and the safety net breaks the loop when `task_done` raises.
unfoldable pub drain_items : List Item → ℕ → List Item × ℕ
drain_items [] unfinished = ([], unfinished)
drain_items (_ ∷ rest) zero = (rest, zero)
drain_items (_ ∷ rest) (suc unfinished) = drain_items rest unfinished

unfoldable pub drain : QueueTransportSubscriber → QueueTransportSubscriber
unfolding drain_items
drain s =
    let (items, unfinished) = drain_items s.queue.items s.queue.unfinished in
    record s { queue = record s.queue { items = items; unfinished = unfinished } }

unfoldable pub cleanup : QueueTransportSubscriber → QueueTransportSubscriber
unfolding drain signal_done
cleanup s = signal_done (drain (record s { cancelled = true }))

unfoldable pub shutdown : QueueTransportSubscriber → QueueTransportSubscriber
unfolding cleanup
shutdown s = if s.cancelled then s else cleanup s

-- The eviction of `publish`.
unfoldable pub evict_oldest : AsyncQueue Item → AsyncQueue Item
unfolding full get_nowait
evict_oldest q = if full q then (elim (get_nowait q) [ none ↦ q | some (_, rest) ↦ rest ]) else q

-- `publish`: the subscriber after it, and whether the frame was taken.
unfoldable pub publish : QueueTransportSubscriber → Bytes → QueueTransportSubscriber × Bool
unfolding evict_oldest put_nowait
publish s f =
    if s.cancelled then (s, false) else elim (put_nowait (evict_oldest s.queue) (frame f)) [
      | none ↦ (record s { queue = evict_oldest s.queue }, false)
      | some q ↦ (record s { queue = q }, true)
    ]

-- How `get` goes on: it returns, raises `ValueError` from `task_done`, or waits for an item.
pub data Got : Type 0 where
  returned : Option Bytes → Got
  value_error : Got
  waiting : Got

-- `get` from the point where `queue.get()` looks for an item: it is run when the call is made, and
-- again when a waiting call is woken.
unfoldable pub take_item : QueueTransportSubscriber → Got × QueueTransportSubscriber
unfolding get_nowait task_done
take_item s = elim (get_nowait s.queue) [
  | none ↦ (waiting, s)
  | some (frame f, q) ↦ (returned (some f), record s { queue = q })
  | some (sentinel, q) ↦ elim (task_done q) [
    | none ↦ (value_error, record s { queue = q })
    | some q' ↦ (returned none, record s { queue = q' })
  ]
]

unfoldable pub get : QueueTransportSubscriber → Got × QueueTransportSubscriber
unfolding take_item
get s = if s.cancelled then (returned none, s) else take_item s

-- A waiting `get` that is cancelled. A timeout leaves the subscriber as it is.
unfoldable pub get_cancelled : QueueTransportSubscriber → QueueTransportSubscriber
get_cancelled s = record s { cancelled = true }
