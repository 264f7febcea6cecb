-- ===== src/Observe/Chunked.antt =====
-- The quality pipeline does not depend on how the stream is cut into chunks.
use mathlib.Core.List.{append_assoc}
use corshub.Prelude.{
  ◌<◌, ◌≡◌, refl, sym, ◌∙◌, none, String, List, [], ◌∷◌, ◌++◌, length, string_eq, lt→ltb,
}
use corshub.Dict
use corshub.Dict.{Dict, get-set, get-set_self, get-pop_self, pop-set, pop_absent}
use corshub.Float.{Float}
use corshub.Framing.{Bytes, rtcm3_max_frame, split_rtcm_frames}
use corshub.Framing.Chunks.{split_rtcm_frames-append}
use corshub.Framing.Bounds.{split_rtcm_frames_sound}
use corshub.Observe.{
  Parser, Pipeline, Seen, observe_frames, buffered, keep_remainder, observe_rtcm_quality,
}

-- The remainder is what the next chunk is put behind.
pub buffered-keep :
    (d : Dict String Bytes) (mountpoint : String) (r : Bytes)
    → length r < rtcm3_max_frame
    → Dict.get d mountpoint ≡ none
    → buffered (keep_remainder d mountpoint r) mountpoint ≡ r
unfolding buffered keep_remainder
buffered-keep d mountpoint [] short absent = rw (absent, buffered)
buffered-keep d mountpoint (b ∷ bs) short absent =
    rw (lt→ltb (length (b ∷ bs)) rtcm3_max_frame short)
      (rw (get-set_self d mountpoint (b ∷ bs), buffered))

pub pop-keep :
    (d : Dict String Bytes) (mountpoint : String) (r : Bytes)
    → length r < rtcm3_max_frame
    → Dict.get d mountpoint ≡ none
    → Dict.pop (keep_remainder d mountpoint r) mountpoint ≡ d
unfolding keep_remainder
pop-keep d mountpoint [] short absent = pop_absent d mountpoint absent
pop-keep d mountpoint (b ∷ bs) short absent =
    rw (lt→ltb (length (b ∷ bs)) rtcm3_max_frame short) (pop-set d mountpoint (b ∷ bs) absent)

module _ (fl : Float) (p : Parser fl) (mountpoint : String) where
  observe_frames-append :
      (fs gs : List Bytes) (s : Seen fl)
      → observe_frames fl p mountpoint (fs ++ gs) s
        ≡ observe_frames fl p mountpoint gs (observe_frames fl p mountpoint fs s)
  unfolding observe_frames
  observe_frames-append [] gs s = refl
  observe_frames-append (f ∷ fs) gs s = observe_frames-append fs gs _

  -- Observing two chunks one after the other gives the state that observing their concatenation gives:
  -- the same frames are parsed, each once, with the same reports, and the same bytes stay in the buffer.
  pub observe_rtcm_quality-append :
      (a b : Bytes) (s : Pipeline fl)
      → observe_rtcm_quality fl p mountpoint (a ++ b) s
        ≡ observe_rtcm_quality fl p mountpoint b (observe_rtcm_quality fl p mountpoint a s)
  unfolding observe_rtcm_quality
  observe_rtcm_quality-append a b s =
      let held = buffered s.frame_buffer mountpoint in
      let rest = Dict.pop s.frame_buffer mountpoint in
      let absent : Dict.get rest mountpoint ≡ none = get-pop_self s.frame_buffer mountpoint in
      let short = (split_rtcm_frames_sound (held ++ a)).1 in
      let left = (split_rtcm_frames (held ++ a)).1 in
      rw (
        ← append_assoc held a b,
        split_rtcm_frames-append (held ++ a) b,
        buffered-keep rest mountpoint left short absent,
        pop-keep rest mountpoint left short absent,
        observe_frames-append (split_rtcm_frames (held ++ a)).0 (split_rtcm_frames (left ++ b)).0
            s.seen,
      )

  -- A list of chunks, observed one after the other.
  pub observe_all : List Bytes → Pipeline fl → Pipeline fl
  observe_all [] s = s
  observe_all (c ∷ cs) s = observe_all cs (observe_rtcm_quality fl p mountpoint c s)

  abbrev joined : Bytes → List Bytes → Bytes
  joined c [] = c
  joined c (d ∷ ds) = c ++ joined d ds

  -- However a stream is cut into one or more chunks, observing them in order gives the state that
  -- observing the whole stream at once gives, reports and buffer included.
  pub observe_all-joined :
      (c : Bytes) (cs : List Bytes) (s : Pipeline fl)
      → observe_all (c ∷ cs) s ≡ observe_rtcm_quality fl p mountpoint (joined c cs) s
  unfolding observe_all
  observe_all-joined c [] s = refl
  observe_all-joined c (d ∷ ds) s =
      observe_all-joined d ds (observe_rtcm_quality fl p mountpoint c s)
      ∙ sym (observe_rtcm_quality-append c (joined d ds) s)
