-- ===== src/Tests/Registry.antt =====
-- Tests of the caster's registry, and of the mountpoints.
use corshub.Prelude.{ℕ, ◌≡◌, refl, some, String, List, [], ◌∷◌, string_eq, arith}
use corshub.Dict
use corshub.Dict.{Dict, Distinct}
use corshub.Framing.{Bytes}
use corshub.Mountpoint.{no_metadata, construct, assemble}
use corshub.Mountpoint.Valid.{IsValid, construct-IsValid}
use corshub.Subscriber.Freshest.{reads, got_frame}
use corshub.Transport.Validity.{create-IsTransport}
use corshub.Caster.{
  NtripCaster, raise, key_error, Returns, register, close, unregister, open_transport,
}
use corshub.Caster.Publishing.{
  publish, subscribe, report, deliver, enqueue_quality, process_quality,
}
use corshub.Caster.Reaper.{reap, survivor, mountpoints-reap}
use corshub.Caster.Registry.{IsCaster}
use corshub.Caster.Delivered.{IsDelivered, publish-IsDelivered}
use corshub.Caster.Closing.{IsClosed, close-IsClosed, IsGone, unregister-IsGone}
use corshub.Caster.Opening.{Registers, register-Registers}
use corshub.Caster.Histories.{Event, registers, publishes, subscribes, run, run-IsCaster, step}
use corshub.Caster.Sessions.{frames_of, publish_in_turn, reads-publish_in_turn}
use corshub.Tests.Toys.{whole, gps_reader, new_caster}

pub new_caster-IsCaster : IsCaster whole new_caster
unfolding Dict.get
new_caster-IsCaster = record {
  distinct = tt;
  registered = λ m. refl;
  allocated = λ m. tt;
  unshared = λ m k i p q. ground arith;
  valid = λ i. create-IsTransport;
}

abbrev some_events : List (Event whole)
some_events =
    registers 5 "B1" (no_metadata whole)
    ∷ registers 6 "B2" (no_metadata whole)
    ∷ subscribes "B1"
    ∷ publishes 7 "B1" (1 ∷ [])
    ∷ []

-- Two mountpoints, with a rover on one of them.
abbrev pub busy : NtripCaster whole
busy = run whole gps_reader new_caster some_events

run-IsCaster_example : IsCaster whole (run whole gps_reader new_caster some_events)
run-IsCaster_example = run-IsCaster whole gps_reader new_caster some_events new_caster-IsCaster

pub busy-IsCaster : IsCaster whole busy
busy-IsCaster = run-IsCaster whole gps_reader new_caster some_events new_caster-IsCaster

pub get-busy : Dict.get busy.transports "B1" ≡ some 0
unfolding Dict.get Dict.set step run register open_transport construct subscribe publish report
    deliver enqueue_quality process_quality
get-busy = refl

publish-IsDelivered_example :
    Returns (IsDelivered whole busy 9 "B1" (2 ∷ [])) (publish whole gps_reader busy 9 "B1" (2 ∷ []))
publish-IsDelivered_example =
    publish-IsDelivered whole gps_reader busy 9 "B1" (2 ∷ []) busy-IsCaster

abbrev publications : List (ℕ × String × Bytes)
publications = (8, "B1", 1 ∷ []) ∷ (8, "B2", 2 ∷ []) ∷ (9, "B1", 3 ∷ []) ∷ []

reads-publish_in_turn_example :
    Returns
      (λ r.
        reads 2 (((publish_in_turn whole gps_reader r.0 publications).heap r.1.0).heap r.1.1)
        ≡ got_frame (1 ∷ []) ∷ got_frame (3 ∷ []) ∷ [])
      (subscribe whole busy "B1")
unfolding frames_of
reads-publish_in_turn_example =
    reads-publish_in_turn whole gps_reader busy "B1" 0 publications busy-IsCaster get-busy

close-IsClosed_example :
    Returns
      (λ d.
        IsClosed whole busy "B1" 0 d
        × (d.mountpoints ≡ busy.mountpoints)
        × (close whole d "B1" ≡ raise (key_error "B1")))
      (close whole busy "B1")
close-IsClosed_example = close-IsClosed whole busy "B1" 0 busy-IsCaster get-busy

unregister-IsGone_example : IsGone whole busy "B1" (unregister whole busy "B1")
unregister-IsGone_example = unregister-IsGone whole busy "B1" busy-IsCaster

register-Registers_example :
    Registers whole busy 9 "B3" (no_metadata whole) (register whole busy 9 "B3" (no_metadata whole))
register-Registers_example = register-Registers whole busy 9 "B3" (no_metadata whole) busy-IsCaster

mountpoints-reap_example :
    Dict.get (reap whole busy 4000).mountpoints "B2"
    ≡ survivor whole busy.expiry 4000 (Dict.get busy.mountpoints "B2")
mountpoints-reap_example = mountpoints-reap whole busy 4000 "B2" busy-IsCaster.distinct

construct-IsValid_example :
    IsValid whole (assemble whole "BASE-1" (no_metadata whole) 5)
    × ((assemble whole "BASE-1" (no_metadata whole) 5).name ≡ "BASE-1")
    × ((assemble whole "BASE-1" (no_metadata whole) 5).last_seen ≡ 5)
unfolding construct
construct-IsValid_example =
    construct-IsValid whole "BASE-1" (no_metadata whole) 5
      (assemble whole "BASE-1" (no_metadata whole) 5) refl
