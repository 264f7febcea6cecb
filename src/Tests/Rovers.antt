-- ===== src/Tests/Rovers.antt =====
-- Tests of the rover routes.
use corshub.Prelude.{◌≡◌, refl, true, some, [], ◌∷◌, arith, List}
use corshub.Framing.{Bytes}
use corshub.Routes.Read.{ReadRequest, split_lines, read_chunks, stream_mountpoint}
use corshub.Routes.Read.Lines.{concat, read_chunks-concat}
use corshub.Routes.Read.Rover.{Serves, stream_mountpoint-Serves}
use corshub.Tests.Toys.{whole, long_cache, new_caster, generous}
use corshub.Tests.Headers.{readers}

abbrev chunks : List Bytes
chunks = (36 ∷ 71 ∷ []) ∷ (71 ∷ 65 ∷ 10 ∷ 36 ∷ []) ∷ [] ∷ (65 ∷ 10 ∷ []) ∷ []

lines_of_chunks : read_chunks [] chunks ≡ ((36 ∷ 71 ∷ 71 ∷ 65 ∷ []) ∷ (36 ∷ 65 ∷ []) ∷ [], [])
unfolding read_chunks
lines_of_chunks = refl

read_chunks-concat_example : read_chunks [] chunks ≡ split_lines (concat chunks)
unfolding split_lines
read_chunks-concat_example =
    read_chunks-concat chunks (omega arith, (omega arith, (omega arith, (omega arith, tt))))

abbrev rover_request : ReadRequest whole readers
rover_request = record {
  ntrip_version = "Ntrip/2.0";
  credentials = some ("R1", "pw");
  client = "10.0.0.2";
  gga = some "$GPGGA";
}

stream_mountpoint-Serves_example :
    Serves whole readers generous true new_caster "B1" rover_request
      (stream_mountpoint whole readers long_cache generous true 1
        (some (record { capacity = 5; refill = 1 }))
        long_cache.empty
        new_caster
        5
        "B1"
        rover_request).1
stream_mountpoint-Serves_example =
    stream_mountpoint-Serves whole readers generous true new_caster "B1" rover_request long_cache 1
      (some (record { capacity = 5; refill = 1 })) long_cache.empty 5
