-- ===== src/Transport/Delivery.antt =====
-- What a frame does to the subscribers of its transport.
use corshub.Prelude.{
  ℕ, ◌+◌, ◌≤◌, ◌≡◌, refl, ◌∙◌, false, not, List, [], ◌∷◌, ◌==◌, arith, if◌then◌else◌, Bool-cases,
  inl, inr,
}
use corshub.Framing.{Bytes}
use corshub.Subscriber
use corshub.Subscriber.{QueueTransportSubscriber, init}
use corshub.Subscriber.Lifecycle.{IsValid, publish-IsValid}
use corshub.Subscriber.Freshest.{items-publish}
use corshub.Transport.{Heap, update, QueueTransport, elem, publish_each, publish}

-- No subscriber is listed twice.
abbrev pub Distinct : List ℕ → Type 0
Distinct [] = Unit {0}
Distinct (i ∷ is) = (elem i is ≡ false) × Distinct is

-- The subscribers of the list that have not been cancelled.
abbrev pub count_live : Heap → List ℕ → ℕ
count_live h [] = 0
count_live h (i ∷ is) = (if (h i).cancelled then 0 else 1) + count_live h is

taken-publish :
    (s : QueueTransportSubscriber) (f : Bytes)
    → IsValid s
    → (Subscriber.publish s f).1 ≡ not s.cancelled
taken-publish s f v = elim (Bool-cases s.cancelled) [
  | inl c ↦ unfold Subscriber.publish in ground arith
  | inr c ↦ ground (arith, items-publish s f v c)
]

count_live-update :
    (h : Heap) (i : ℕ) (s : QueueTransportSubscriber) (is : List ℕ)
    → elem i is ≡ false
    → count_live (update h i s) is ≡ count_live h is
unfolding elem
count_live-update h i s [] e = refl
count_live-update h i s (j ∷ is) e = ground (arith, count_live-update h i s is)

pub update-IsValid :
    (h : Heap) (i : ℕ) (s : QueueTransportSubscriber)
    → ((j : ℕ) → IsValid (h j))
    → IsValid s
    → (j : ℕ) → IsValid (update h i s j)
update-IsValid h i s v w j = elim (Bool-cases (i == j)) [ inl e ↦ rw e w | inr e ↦ rw e (v j) ]

heap-publish_each :
    (is : List ℕ) (h : Heap) (f : Bytes) (acks j : ℕ)
    → Distinct is
    → (publish_each is h f acks).0 j ≡ (if elem j is then (Subscriber.publish (h j) f).0 else h j)
unfolding publish_each elem
heap-publish_each [] h f acks j d = refl
heap-publish_each (i ∷ is) h f acks j d = rw (heap-publish_each is _ f _ j d.1) (ground arith)

acks-publish_each :
    (is : List ℕ) (h : Heap) (f : Bytes) (acks : ℕ)
    → Distinct is
    → ((i : ℕ) → IsValid (h i))
    → (publish_each is h f acks).1 ≡ acks + count_live h is
unfolding publish_each
acks-publish_each [] h f acks d v = omega arith
acks-publish_each (i ∷ is) h f acks d v =
    rw
      (
        acks-publish_each is (update h i (Subscriber.publish (h i) f).0) f _ d.1
            (update-IsValid h i _ v (publish-IsValid (h i) f (v i))),
        count_live-update h i (Subscriber.publish (h i) f).0 is d.0,
        taken-publish (h i) f (v i),
      )
      (ground arith)

-- The invariant of a transport: no subscriber is registered twice, each was allocated, and every
-- subscriber is valid.
pub record IsTransport (t : QueueTransport) : Type 0 where
  pub distinct : Distinct t.queues
  pub allocated : (i : ℕ) → t.allocated ≤ i → elem i t.queues ≡ false
  pub valid : (i : ℕ) → IsValid (t.heap i)

-- The early return for no subscribers gives what the loop would.
publish_lem :
    (t : QueueTransport) (f : Bytes)
    → publish t f ≡ (
      record t { heap = (publish_each t.queues t.heap f 0).0 },
      (publish_each t.queues t.heap f 0).1,
    )
unfolding publish publish_each
publish_lem t f = ground arith

-- Publishing on a transport that meets the invariant hands the frame to each registered subscriber,
-- once, and to no other, changes nothing else, and returns the number of the registered subscribers
-- that were not cancelled.
pub publish-delivers :
    (t : QueueTransport) (f : Bytes)
    → IsTransport t
    → ((i : ℕ)
        → (publish t f).0.heap i
          ≡ (if elem i t.queues then (Subscriber.publish (t.heap i) f).0 else t.heap i))
      × ((publish t f).0.queues ≡ t.queues)
      × ((publish t f).0.allocated ≡ t.allocated)
      × ((publish t f).1 ≡ count_live t.heap t.queues)
publish-delivers t f v = rw (publish_lem t f) (
  λ i. heap-publish_each t.queues t.heap f 0 i v.distinct,
  refl,
  refl,
  acks-publish_each t.queues t.heap f 0 v.distinct v.valid ∙ omega arith,
)
