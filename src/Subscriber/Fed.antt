-- ===== src/Subscriber/Fed.antt =====
-- What a subscriber holds, as its queue is filled, emptied and read.
use mathlib.Core.List.{Sublist, append-nil, append_assoc, nil-sublist}
use mathlib.Core.List as List
use corshub.Prelude.{
  ℕ, zero, suc, ◌≡◌, refl, ap, none, some, List, [], ◌∷◌, ◌++◌, Bool-cases, inl, inr, arith, drop,
}
use corshub.AsyncQueue.{get_nowait, task_done}
use corshub.Framing.{Bytes}
use corshub.Subscriber.{
  Item, frame, sentinel, QueueTransportSubscriber, cleanup, shutdown, publish, Got, returned,
  value_error, waiting, take_item, get,
}
use corshub.Subscriber.Lifecycle.{IsValid, items-cleanup}
use corshub.Subscriber.Freshest.{items-publish}

-- The frames among the items of a queue.
abbrev pub frames_in : List Item → List Bytes
frames_in [] = []
frames_in (frame f ∷ items) = f ∷ frames_in items
frames_in (sentinel ∷ items) = frames_in items

abbrev pub held : QueueTransportSubscriber → List Bytes
held s = frames_in s.queue.items

-- From the first state to the second, the subscriber is given some of these frames at most, in their
-- order, and may lose others that it held.
abbrev pub Fed : List Bytes → QueueTransportSubscriber → QueueTransportSubscriber → Type 0
Fed fs s t = Sublist (held t) (held s ++ fs)

pub Fed-refl : (s : QueueTransportSubscriber) → Fed [] s s
Fed-refl s = rw append-nil (List.Sublist.refl (held s))

pub Fed-trans :
    (fs gs : List Bytes) (s t u : QueueTransportSubscriber)
    → Fed fs s t
    → Fed gs t u
    → Fed (fs ++ gs) s u
Fed-trans fs gs s t u h k =
    rw (← append_assoc (held s) fs gs)
      (List.Sublist.trans k (List.Sublist.append h (List.Sublist.refl gs)))

frames_in-append : (xs ys : List Item) → frames_in (xs ++ ys) ≡ frames_in xs ++ frames_in ys
frames_in-append [] ys = refl
frames_in-append (frame f ∷ xs) ys = ap (λ fs. f ∷ fs) (frames_in-append xs ys)
frames_in-append (sentinel ∷ xs) ys = frames_in-append xs ys

frames_in-drop : (n : ℕ) (xs : List Item) → Sublist (frames_in (drop n xs)) (frames_in xs)
frames_in-drop zero xs = List.Sublist.refl (frames_in xs)
frames_in-drop (suc n) [] = List.Sublist.refl []
frames_in-drop (suc n) (frame f ∷ xs) = List.Sublist.cons f (frames_in-drop n xs)
frames_in-drop (suc n) (sentinel ∷ xs) = frames_in-drop n xs

pub Fed-nothing : (fs : List Bytes) (s t : QueueTransportSubscriber) → held t ≡ [] → Fed fs s t
Fed-nothing fs s t e = rw e (nil-sublist (held s ++ fs))

pub publish-Fed :
    (s : QueueTransportSubscriber) (f : Bytes) → IsValid s → Fed (f ∷ []) s (publish s f).0
publish-Fed s f v = elim (Bool-cases s.cancelled) [
  | inl q ↦ unfold publish in rw q (List.sublist-append_left (held s) (f ∷ []))
  | inr q ↦
      rw ((items-publish s f v q).0, ← frames_in-append s.queue.items (frame f ∷ []))
        (frames_in-drop _ (s.queue.items ++ frame f ∷ []))
]

pub shutdown-Fed : (s : QueueTransportSubscriber) → IsValid s → Fed [] s (shutdown s)
unfolding shutdown
shutdown-Fed s v = elim (Bool-cases s.cancelled) [
  | inl q ↦ rw q (Fed-refl s)
  | inr q ↦ rw q (Fed-nothing [] s (cleanup s) (ap frames_in (items-cleanup s v).0))
]

-- The frame that a `get` returns.
abbrev pub frame_of : Got → List Bytes
frame_of (returned none) = []
frame_of (returned (some f)) = f ∷ []
frame_of value_error = []
frame_of waiting = []

-- What is returned stood in front of what is held, and nothing else is lost.
pub take_item-held :
    (s : QueueTransportSubscriber) → frame_of (take_item s).0 ++ held (take_item s).1 ≡ held s
unfolding take_item get_nowait task_done
take_item-held s = ground arith

pub get-held : (s : QueueTransportSubscriber) → frame_of (get s).0 ++ held (get s).1 ≡ held s
unfolding get
get-held s = ground (arith, take_item-held s)
