-- ===== src/Geodesy.antt =====
-- `haversine` of src/corshub/ntrip/v2/headers.py, over the operations of floats.
use corshub.Float.{Float}

module _ (fl : Float) where
  -- The great-circle distance in kilometres, in the order of operations of the program.
  unfoldable pub haversine : fl.F → fl.F → fl.F → fl.F → fl.F
  haversine lat1 lon1 lat2 lon2 =
      let dlat = fl.radians (fl.sub lat2 lat1) in
      let dlon = fl.radians (fl.sub lon2 lon1) in
      let a = fl.add (fl.square (fl.sin (fl.div dlat (fl.literal 2)))) (
        fl.mul (fl.mul (fl.cos (fl.radians lat1)) (fl.cos (fl.radians lat2)))
          (fl.square (fl.sin (fl.div dlon (fl.literal 2))))) in
      fl.mul (fl.mul (fl.literal 6371) (fl.literal 2)) (fl.asin (fl.sqrt a))
