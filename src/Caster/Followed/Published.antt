-- ===== src/Caster/Followed/Published.antt =====
-- What the events of the caster publish, and which of them read a subscriber.
use corshub.Prelude.{
  ℕ, ◌≡◌, false, String, [], ◌∷◌, ◌++◌, ◌&&◌, ◌==◌, same, string_eq, if◌then◌else◌,
}
use corshub.Prelude
use corshub.Float.{Float}
use corshub.Framing.{Bytes}
use corshub.Caster.Histories.{
  Event, registers, closes, unregisters, publishes, subscribes, unsubscribes, sets_position,
  clears_position, reaps, parses, reads, starts, stops,
}

module _ (fl : Float) where
  -- What an event publishes on a mountpoint.
  abbrev pub published : String → Event fl → Prelude.List Bytes
  published m (publishes now k f) = if same k m then f ∷ [] else []
  published m (registers now k kwargs) = []
  published m (closes k) = []
  published m (unregisters k) = []
  published m (subscribes k) = []
  published m (unsubscribes j r) = []
  published m (sets_position k rover position) = []
  published m (clears_position k rover) = []
  published m (reaps now) = []
  published m parses = []
  published m (reads j r e) = []
  published m starts = []
  published m stops = []

  unfoldable pub all_published : String → Prelude.List (Event fl) → Prelude.List Bytes
  all_published m [] = []
  all_published m (e ∷ es) = published m e ++ all_published m es

  -- The event is not a read of this subscriber: its own task reads it, and nobody else.
  abbrev pub IsForeign : ℕ → ℕ → Event fl → Type 0
  IsForeign i s (reads j r e) = (j == i && r == s) ≡ false
  IsForeign i s (publishes now k f) = Unit {0}
  IsForeign i s (registers now k kwargs) = Unit {0}
  IsForeign i s (closes k) = Unit {0}
  IsForeign i s (unregisters k) = Unit {0}
  IsForeign i s (subscribes k) = Unit {0}
  IsForeign i s (unsubscribes j r) = Unit {0}
  IsForeign i s (sets_position k rover position) = Unit {0}
  IsForeign i s (clears_position k rover) = Unit {0}
  IsForeign i s (reaps now) = Unit {0}
  IsForeign i s parses = Unit {0}
  IsForeign i s starts = Unit {0}
  IsForeign i s stops = Unit {0}
