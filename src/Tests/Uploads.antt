-- ===== src/Tests/Uploads.antt =====
-- Tests of the bodies of base stations and of the streams of rovers.
use mathlib.Core.List.{Sublist}
use corshub.Prelude.{ℕ, ◌≡◌, refl, true, some, List, [], ◌∷◌, string_eq}
use corshub.Framing.{Bytes}
use corshub.Subscriber.Freshest.{reads, got_frame}
use corshub.Caster.{Returns, close}
use corshub.Caster.Publishing.{subscribe}
use corshub.Caster.Histories.{reaps, publishes, closes, sets_position}
use corshub.Routes.Upload.{Arrival, Body, streaming, stream_chunks, put}
use corshub.Routes.Upload.Ended.{Ends, put-Ends}
use corshub.Routes.Upload.Heard.{IsQuiet, frames, reads-stream_chunks}
use corshub.Routes.Stream.{Turn, stream_frames}
use corshub.Routes.Stream.Left.{IsLeft, stream_frames-IsLeft}
use corshub.Routes.Stream.Received.{turns_published, stream_frames-Sublist}
use corshub.Metrics.Closed.{IsHidden, collect-close}
use corshub.Tests.Toys.{whole, gps_reader, long_cache, new_caster, generous}
use corshub.Tests.Registry.{new_caster-IsCaster, busy, busy-IsCaster, get-busy}
use corshub.Tests.Routes.{limits, request}

abbrev arrival : ℕ → Bytes → Arrival whole
arrival now chunk = record { before = []; now = now; chunk = chunk; answered = true }

-- Two chunks, and the reaper in between.
abbrev body : Body whole
body =
    streaming true
      (arrival 6 (1 ∷ [])
        ∷ record { before = reaps 5000 ∷ []; now = 7; chunk = 2 ∷ []; answered = true }
        ∷ [])
      [] true

put-Ends_example :
    Ends whole new_caster "B1" body
      (put whole gps_reader long_cache generous true 1
        (some limits)
        long_cache.empty
        new_caster
        5
        "B1"
        request
        body).1
put-Ends_example =
    put-Ends whole gps_reader long_cache generous true 1 (some limits) long_cache.empty new_caster 5
      "B1" request body new_caster-IsCaster

abbrev arrivals : List (Arrival whole)
arrivals = arrival 8 (1 ∷ []) ∷ arrival 8 [] ∷ arrival 9 (3 ∷ []) ∷ []

quiet : (now : ℕ) (chunk : Bytes) → IsQuiet whole (arrival now chunk)
quiet now chunk = record { alone = refl; answered = refl }

reads-stream_chunks_example :
    Returns
      (λ r.
        reads 2 (((stream_chunks whole gps_reader r.0 "B1" arrivals).0.heap r.1.0).heap r.1.1)
        ≡ got_frame (1 ∷ []) ∷ got_frame (3 ∷ []) ∷ [])
      (subscribe whole busy "B1")
unfolding frames
reads-stream_chunks_example =
    reads-stream_chunks whole gps_reader busy "B1" 0 arrivals busy-IsCaster get-busy
      (quiet 8 (1 ∷ []), (quiet 8 [], (quiet 9 (3 ∷ []), tt)))

-- A frame, and the end of the mountpoint, with a position in between.
abbrev turns : List (Turn whole)
turns =
    record { before = publishes 10 "B1" (4 ∷ []) ∷ []; resumes = true; written = true }
    ∷ record {
      before = sets_position "B1" "R1" (51, 3) ∷ closes "B1" ∷ [];
      resumes = true;
      written = true;
    }
    ∷ []

stream_frames-IsLeft_example :
    IsLeft whole "B1" "R1" (stream_frames whole gps_reader busy "B1" "R1" (some (51, 4)) turns []).0
stream_frames-IsLeft_example =
    stream_frames-IsLeft whole gps_reader busy "B1" "R1" (some (51, 4)) turns [] busy-IsCaster

collect-close_example : Returns (IsHidden whole (λ x. "1") 20 busy "B1") (close whole busy "B1")
collect-close_example = collect-close whole (λ x. "1") 20 busy "B1" 0 busy-IsCaster get-busy

stream_frames-Sublist_example :
    Sublist
      (stream_frames whole gps_reader busy "B1" "R1" (some (51, 4)) turns []).1
      (turns_published whole "B1" turns)
stream_frames-Sublist_example =
    stream_frames-Sublist whole gps_reader busy "B1" "R1" 0 (some (51, 4)) turns [] busy-IsCaster
      get-busy ((tt, tt), ((tt, (tt, tt)), tt))
