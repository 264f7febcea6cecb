-- ===== src/Udp/Signed.antt =====
-- A frame is signed once.
use corshub.Prelude.{ℕ, ◌≡◌, String, ==_refl, string_eq, arith}
use corshub.Dict.{get-set_self}
use corshub.Float.{Float}
use corshub.Udp.Sessions.{Frame, Server, Wire}
use corshub.Udp.Egress.{sign_frame}

module _ (fl : Float) where
  -- A frame object that is signed for one session of a mountpoint is not signed again for the next:
  -- whenever that is, it gets the same correction, and the server stays as it is.
  sign_frame_again :
      (w : Wire fl) (v : Server fl) (now later : ℕ) (m : String) (f : Frame)
      → sign_frame fl w (sign_frame fl w v now m f).0 later m f ≡ sign_frame fl w v now m f
  unfolding sign_frame
  sign_frame_again w v now later m f =
      ground (arith, get-set_self v.signed_cache m (f, w.sign m now f.1), ==_refl f.0)
