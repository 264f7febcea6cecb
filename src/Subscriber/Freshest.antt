-- ===== src/Subscriber/Freshest.antt =====
-- A subscriber that falls behind keeps the freshest frames, in order.
use corshub.Prelude.{
  ℕ, zero, suc, ◌-◌, ◌≡◌, refl, ap, ◌∙◌, true, false, some, List, [], ◌∷◌, ◌++◌, map, arith, length,
  last, last-last, map-drop, length-append, length-map, drop, drop-append,
}
use mathlib.Core.List.{append_assoc, append-nil}
use corshub.AsyncQueue.{full, put_nowait, get_nowait}
use corshub.Framing.{Bytes}
use corshub.Subscriber.{
  Item, frame, queue_maxsize, QueueTransportSubscriber, init, evict_oldest, publish, Got, returned,
  get, take_item,
}
use corshub.Subscriber.Lifecycle.{IsValid, publish-IsValid, init-IsValid}

unfoldable pub publish_all : QueueTransportSubscriber → List Bytes → QueueTransportSubscriber
publish_all s [] = s
publish_all s (f ∷ fs) = publish_all (publish s f).0 fs

pub items-publish :
    (s : QueueTransportSubscriber) (f : Bytes)
    → IsValid s
    → s.cancelled ≡ false
    → ((publish s f).0.queue.items ≡ last queue_maxsize (s.queue.items ++ frame f ∷ []))
      × ((publish s f).0.cancelled ≡ false)
      × ((publish s f).1 ≡ true)
unfolding publish evict_oldest put_nowait get_nowait full
items-publish s f v live =
    ground (
      arith,
      length-append s.queue.items (frame f ∷ []),
      drop-append 1 s.queue.items (frame f ∷ []),
    )

-- A valid, live subscriber that is given frames with nothing read in between holds the last fifteen of
-- what it held followed by those frames, in order.
items-publish_all :
    (s : QueueTransportSubscriber) (fs : List Bytes)
    → IsValid s
    → s.cancelled ≡ false
    → (publish_all s fs).queue.items ≡ last queue_maxsize (s.queue.items ++ map frame fs)
unfolding publish_all
items-publish_all s [] v live = rw append-nil (ap (λ k. drop k s.queue.items) {x = 0} (omega arith))
items-publish_all s (f ∷ fs) v live =
    let (items, live', _) = items-publish s f v live in
    items-publish_all (publish s f).0 fs (publish-IsValid s f v) live'
    ∙ ap (λ l. last queue_maxsize (l ++ map frame fs)) items
    ∙ last-last queue_maxsize (s.queue.items ++ frame f ∷ []) (map frame fs)
    ∙ ap (last queue_maxsize) (append_assoc s.queue.items (frame f ∷ []) (map frame fs))

-- The results of `n` calls of `get`, one after the other.
pub reads : ℕ → QueueTransportSubscriber → List Got
reads zero s = []
reads (suc n) s = (get s).0 ∷ reads n (get s).1

abbrev pub got_frame : Bytes → Got
got_frame f = returned (some f)

get-frame :
    (s : QueueTransportSubscriber) (f : Bytes) (rest : List Item)
    → s.cancelled ≡ false
    → s.queue.items ≡ frame f ∷ rest
    → ((get s).0 ≡ got_frame f) × ((get s).1.cancelled ≡ false) × ((get s).1.queue.items ≡ rest)
unfolding get take_item get_nowait
get-frame s f rest live e = ground arith

reads-frames :
    (fs : List Bytes) (s : QueueTransportSubscriber)
    → s.cancelled ≡ false
    → s.queue.items ≡ map frame fs
    → reads (length fs) s ≡ map got_frame fs
unfolding reads
reads-frames [] s live e = refl
reads-frames (f ∷ fs) s live e =
    let (got, live', rest) = get-frame s f (map frame fs) live e in
    rw (got, reads-frames fs (get s).1 live' rest)

cancelled-publish_all :
    (s : QueueTransportSubscriber) (fs : List Bytes)
    → IsValid s
    → s.cancelled ≡ false
    → (publish_all s fs).cancelled ≡ false
unfolding publish_all
cancelled-publish_all s [] v live = live
cancelled-publish_all s (f ∷ fs) v live =
    cancelled-publish_all (publish s f).0 fs (publish-IsValid s f v) (items-publish s f v live).1

-- A rover that subscribes, falls behind while frames are published, and then reads, gets the last
-- fifteen of these frames in the order of their publication.
pub reads-publish_all :
    (fs : List Bytes)
    → reads (length (last queue_maxsize fs)) (publish_all init fs)
      ≡ map got_frame (last queue_maxsize fs)
reads-publish_all fs =
    reads-frames (last queue_maxsize fs) (publish_all init fs)
      (cancelled-publish_all init fs init-IsValid refl)
      (items-publish_all init fs init-IsValid refl
        ∙ rw length-map (map-drop frame (length fs - queue_maxsize) fs))
