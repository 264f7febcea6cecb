-- ===== src/Tests/Quality.antt =====
-- Tests of the quality pipeline and of the rate limiter.
use corshub.Prelude.{◌≡◌, [], ◌∷◌, ◌++◌, string_eq, arith}
use corshub.Dict
use corshub.Framing.{Bytes}
use corshub.Quality.{MountpointQuality, get_or_create}
use corshub.Observe.{observe_rtcm_quality, buffered, snapshot}
use corshub.Observe.Chunked.{observe_all, observe_all-joined}
use corshub.Observe.Retained.{IsRetained}
use corshub.Tests.Toys.{whole, gps_reader, new_pipeline}

abbrev first_half : Bytes
first_half = 211 ∷ 0 ∷ 1 ∷ 9 ∷ []

abbrev second_half : Bytes
second_half = 1 ∷ 2 ∷ 3 ∷ 211 ∷ 0 ∷ []

observe_all-joined_example :
    observe_all whole gps_reader "B1" (first_half ∷ second_half ∷ []) new_pipeline
    ≡ observe_rtcm_quality whole gps_reader "B1" (first_half ++ second_half) new_pipeline
observe_all-joined_example =
    observe_all-joined whole gps_reader "B1" first_half (second_half ∷ []) new_pipeline

new_pipeline-IsRetained : IsRetained whole new_pipeline
unfolding buffered Dict.get snapshot get_or_create
new_pipeline-IsRetained = record {
  buffers = λ m. omega arith;
  windows = λ m name. (omega arith, omega arith);
}

abbrev two_constellations : MountpointQuality whole
two_constellations = ("GPS", record { cnr = 40 ∷ []; sat_counts = 8 ∷ [] }) ∷ []
