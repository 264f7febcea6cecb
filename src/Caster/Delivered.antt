-- ===== src/Caster/Delivered.antt =====
-- What `publish` of `NTRIPCaster` does to the mountpoints and to the subscribers of every transport.
use corshub.Prelude.{
  ℕ, ◌≡◌, refl, Bool, false, ◌&&◌, Option, none, some, String, if◌then◌else◌, string_eq, same,
  same_iff, arith, Option-cases, inl, inr, ◌==◌,
}
use corshub.Dict
use corshub.Dict.{Dict, get-set}
use corshub.Float.{Float}
use corshub.Framing.{Bytes}
use corshub.Mountpoint.{Mountpoint}
use corshub.Observe.{Parser}
use corshub.Transport
use corshub.Transport.Delivery.{publish-delivers, count_live}
use corshub.Caster.{NtripCaster, Returns}
use corshub.Caster.Publishing.{report, enqueue_quality, process_quality, deliver, publish}
use corshub.Caster.Registry.{IsCaster}

module _ (fl : Float) where
  abbrev pub touched : ℕ → Option (Mountpoint fl) → Option (Mountpoint fl)
  touched now none = none
  touched now (some mp) = some (record mp { last_seen = now })

  -- The transport of a mountpoint, if it has one, is the one with this number.
  abbrev pub is_at : Option ℕ → ℕ → Bool
  is_at none j = false
  is_at (some i) j = i == j

  abbrev pub live_at : NtripCaster fl → Option ℕ → ℕ
  live_at c none = 0
  live_at c (some i) = count_live (c.heap i).heap (c.heap i).queues

  pub record IsDelivered (c : NtripCaster fl) (now : ℕ) (m : String) (f : Bytes)
      (r : NtripCaster fl × ℕ) : Type 0 where
    pub count : r.1 ≡ live_at c (Dict.get c.transports m)
    pub transports : r.0.transports ≡ c.transports
    pub heap :
        (j : ℕ)
        → r.0.heap j ≡ (
            if is_at (Dict.get c.transports m) j
            then (Transport.publish (c.heap j) f).0
            else c.heap j)
    pub mountpoints :
        (k : String)
        → Dict.get r.0.mountpoints k ≡ (
            if Dict.contains c.transports m && same m k
            then touched now (Dict.get c.mountpoints k)
            else Dict.get c.mountpoints k)
    pub idle : (if Dict.contains c.transports m then c else r.0) ≡ c

  module _ (p : Parser fl) where
    deliver-IsDelivered :
        (c : NtripCaster fl) (now : ℕ) (m : String) (f : Bytes) (i : ℕ) (mp : Mountpoint fl)
        → IsCaster fl c
        → Dict.get c.transports m ≡ some i
        → Dict.get c.mountpoints m ≡ some mp
        → IsDelivered c now m f (deliver fl p c now m f i mp)
    unfolding deliver report enqueue_quality process_quality
    deliver-IsDelivered c now m f i mp v e n = record {
      count = rw e (publish-delivers (c.heap i) f (v.valid i)).3;
      transports = ground arith;
      heap = λ j. ground (arith, e);
      mountpoints = λ k.
          ground
            (arith, e, get-set c.mountpoints m k (record mp { last_seen = now }), same_iff m k, n);
      idle = ground (arith, e);
    }

    -- Publishing never raises where the invariant holds. A mountpoint with a transport is marked as
    -- seen now, the frame is published on its transport and on no other, and the number of the
    -- rovers that take it is returned; the frame of any other mountpoint leaves the whole caster as
    -- it was, its reports, buffers and queue of the quality included, and 0 is returned. No transport is opened or closed.
    pub publish-IsDelivered :
        (c : NtripCaster fl) (now : ℕ) (m : String) (f : Bytes)
        → IsCaster fl c
        → Returns (IsDelivered c now m f) (publish fl p c now m f)
    unfolding publish
    publish-IsDelivered c now m f v = elim (Option-cases (Dict.get c.transports m)) [
      | inl e ↦
          rw (e, publish)
            record {
              count = rw e refl;
              transports = refl;
              heap = λ j. ground (arith, e);
              mountpoints = λ k. ground (arith, e);
              idle = ground (arith, e);
            }
      | inr (i, e) ↦ elim (Option-cases (Dict.get c.mountpoints m)) [
        | inl n ↦ ground (arith, v.registered m)
        | inr (mp, n) ↦ rw (e, n, publish) (deliver-IsDelivered c now m f i mp v e n)
      ]
    ]
