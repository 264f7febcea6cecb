-- ===== src/AsyncQueue.antt =====
-- `asyncio.Queue`, as far as src/corshub/ntrip/v2/transport.py and caster.py use it: the items that
-- wait, the bound, and the count of unfinished tasks behind `task_done` and `join`.
use corshub.Prelude.{
  ℕ, zero, suc, ◌+◌, ◌≤◌, ◌<◌, Bool, ◌&&◌, Option, none, some, List, [], ◌∷◌, ◌++◌, leb, ltb,
  if◌then◌else◌, length,
}

pub record AsyncQueue {ℓ} (A : Type ℓ) : Type ℓ where
  pub maxsize : ℕ
  pub items : List A
  pub unfinished : ℕ

module _ {ℓ} {A : Type ℓ} where
  abbrev pub create : ℕ → AsyncQueue A
  create maxsize = record { maxsize = maxsize; items = []; unfinished = 0 }

  -- A bound of 0 means that the queue is unbounded.
  unfoldable pub full : AsyncQueue A → Bool
  full q = ltb 0 q.maxsize && leb q.maxsize (length q.items)

  -- `none` is `asyncio.QueueFull`.
  unfoldable pub put_nowait : AsyncQueue A → A → Option (AsyncQueue A)
  unfolding full
  put_nowait q a =
      if full q
      then none
      else some (record q { items = q.items ++ a ∷ []; unfinished = q.unfinished + 1 })

  -- `none` is `asyncio.QueueEmpty`.
  unfoldable pub get_nowait : AsyncQueue A → Option (A × AsyncQueue A)
  get_nowait q = elim q.items [ [] ↦ none | a ∷ rest ↦ some (a, record q { items = rest }) ]

  -- `none` is the `ValueError` of a call too many.
  unfoldable pub task_done : AsyncQueue A → Option (AsyncQueue A)
  task_done q = elim q.unfinished [ zero ↦ none | suc n ↦ some (record q { unfinished = n }) ]

  -- The bound is kept, and `task_done` may be called for each item that waits.
  pub record IsQueue (q : AsyncQueue A) : Type 0 where
    pub bounded : 0 < q.maxsize → length q.items ≤ q.maxsize
    pub counted : length q.items ≤ q.unfinished
