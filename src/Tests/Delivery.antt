-- ===== src/Tests/Delivery.antt =====
-- Tests of the transport and its subscribers.
use corshub.Prelude.{◌≡◌, refl, List, [], ◌∷◌, false, none}
use corshub.Subscriber
use corshub.Subscriber.{
  QueueTransportSubscriber, init, frame, queue_maxsize, returned, value_error, get, take_item,
}
use corshub.Subscriber.Lifecycle.{
  init-IsValid, Event, publishes, gets, wakes, cancels, run, shutdown-ends,
}
use corshub.Subscriber.Freshest.{publish_all, reads, got_frame, reads-publish_all}
use corshub.Transport
use corshub.Transport.{QueueTransport, create, elem, subscribe_enter, subscribe_exit}
use corshub.Transport.Delivery.{IsTransport}
use corshub.Transport.Validity.{TransportEvent, create-IsTransport, subscribe_enter-IsTransport}

abbrev some_events : List Event
some_events = publishes (1 ∷ []) ∷ gets ∷ cancels ∷ wakes ∷ []

shutdown-ends_example :
    ((take_item (Subscriber.shutdown init)).0 ≡ returned none)
    × ((get (run (Subscriber.shutdown init) some_events)).0 ≡ returned none)
    × ((Subscriber.publish (run (Subscriber.shutdown init) some_events) (2 ∷ [])).1 ≡ false)
shutdown-ends_example = shutdown-ends init some_events (2 ∷ []) init-IsValid refl

reads-publish_all_example :
    reads 2 (publish_all init ((1 ∷ []) ∷ (2 ∷ []) ∷ []))
    ≡ got_frame (1 ∷ []) ∷ got_frame (2 ∷ []) ∷ []
reads-publish_all_example = reads-publish_all ((1 ∷ []) ∷ (2 ∷ []) ∷ [])

abbrev two : QueueTransport
two = (subscribe_enter (subscribe_enter create).0).0

two-IsTransport : IsTransport two
two-IsTransport =
    subscribe_enter-IsTransport _ (subscribe_enter-IsTransport create create-IsTransport)

-- Two live subscribers take the frame.
publish_count : (Transport.publish two (9 ∷ [])).1 ≡ 2
unfolding Transport.publish subscribe_enter Subscriber.publish
publish_count = refl

abbrev some_history : List TransportEvent
some_history =
    TransportEvent.subscribes ∷ TransportEvent.publishes (1 ∷ []) ∷ TransportEvent.leaves 0 ∷ []
