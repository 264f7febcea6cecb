-- ===== src/Here4/Fixed.antt =====
-- When the base station tool takes its position for known.
use corshub.Prelude.{
  ℕ, ◌≡◌, refl, inl, inr, Bool, true, false, not, ◌&&◌, Option, none, some, String, List, [], ◌∷◌,
  ◌++◌, arith, Bool-cases, List-cases, Option-cases, of_if,
}
use corshub.Float.{Float}
use corshub.Framing.{Bytes}
use corshub.AsyncQueue
use corshub.AsyncQueue.{AsyncQueue}
use corshub.Here4.{Port, find_ublox_ports, Command, tmode3_fixed, Numerals, Arguments}
use corshub.Here4.Receiver.{
  is_fixed, is_searching, is_survey_in, NavSvin, Parsed, nav_pvt, nav_svin, nav_sat, rtcm_message,
  other_message, ConnectPhase, looks, opens, enables, ProcessPhase, receives, configures, Station,
  see_pvt, see_svin,
}
use corshub.Here4.Loops.{
  connect_look, connect_opened, connect_enable, is_reference, read_message, read_error,
  process_message, after_pvt, see_rtcm,
}
use corshub.Here4.Runs.{on_ports, on_opened, on_connect, on_write_failed}

module _ (fl : Float) where
  -- The fixed mode was written to a receiver last.
  abbrev pub LastWritten : Numerals fl → Arguments fl → Station fl → Type 0
  LastWritten num a t =
      (lat lon alt : fl.F) × (ser : ℕ) × (before : List (ℕ × Command fl)) × (a.lat ≡ some lat)
      × (a.lon ≡ some lon)
      × (a.alt ≡ some alt)
      × (t.written ≡ before ++ (ser, tmode3_fixed fl num lat lon alt a.fixed_acc) ∷ [])

  -- From `t` to `u` the state became FIXED for a reason, if it became so: the survey is complete, or
  -- the position is given and the receiver was told so.
  pub data Reason (num : Numerals fl) (a : Arguments fl) (t u : Station fl) : Type 0 where
    unfixed : is_fixed u.gs.state ≡ false → Reason num a t u
    before : u.gs.state ≡ t.gs.state → Reason num a t u
    surveyed :
        is_survey_in t.gs.state ≡ true
        → u.gs.svin_valid ≡ true
        → u.gs.svin_active ≡ false
        → Reason num a t u
    given : LastWritten num a u → Reason num a t u

  module _ (num : Numerals fl) (a : Arguments fl) where
    connect_look-Reason :
        (lower : String → String) (ports : List Port) (t : Station fl)
        → Reason num a t (connect_look fl lower ports t)
    unfolding connect_look
    connect_look-Reason lower ports t = elim (Bool-cases (is_searching t.gs.state)) [
      | inr q ↦ rw (q, connect_look) (before refl)
      | inl q ↦ elim (List-cases (find_ublox_ports lower ports)) [
        | inl r ↦ rw (q, r, connect_look) (before refl)
        | inr (port, ports', r) ↦ rw (q, r, connect_look) (unfixed refl)
      ]
    ]

    pub on_ports-Reason :
        (lower : String → String) (ports : List Port) (c : ConnectPhase fl) (t : Station fl)
        → Reason num a t (on_ports fl lower ports c t)
    unfolding on_ports
    on_ports-Reason lower ports looks t = connect_look-Reason lower ports t
    on_ports-Reason lower ports opens t = before refl
    on_ports-Reason lower ports (enables _ _) t = before refl

    pub on_opened-Reason :
        (ok : Bool) (c : ConnectPhase fl) (t : Station fl) → Reason num a t (on_opened fl ok c t)
    unfolding on_opened connect_opened
    on_opened-Reason true opens t = before refl
    on_opened-Reason false opens t = unfixed refl
    on_opened-Reason ok looks t = before refl
    on_opened-Reason ok (enables _ _) t = before refl

    pub on_connect-Reason :
        (c : ConnectPhase fl) (t : Station fl) → Reason num a t (on_connect fl c t)
    unfolding on_connect connect_enable
    on_connect-Reason (enables ser (cmd ∷ cmds)) t = before refl
    on_connect-Reason (enables ser []) t = unfixed refl
    on_connect-Reason looks t = before refl
    on_connect-Reason opens t = before refl

    pub on_write_failed-Reason :
        (c : ConnectPhase fl) (p : ProcessPhase fl) (t : Station fl)
        → Reason num a t (on_write_failed fl c p t)
    unfolding on_write_failed
    on_write_failed-Reason (enables _ _) p t = before refl
    on_write_failed-Reason looks (configures _ _) t = before refl
    on_write_failed-Reason opens (configures _ _) t = before refl
    on_write_failed-Reason looks receives t = before refl
    on_write_failed-Reason opens receives t = before refl

    pub read_message-Reason :
        (raw : Bytes) (o : Option (Parsed fl)) (t : Station fl)
        → Reason num a t (read_message fl raw o t)
    unfolding read_message
    read_message-Reason raw none t = before refl
    read_message-Reason raw (some parsed) t =
        elim (Option-cases (AsyncQueue.put_nowait t.queue (raw, parsed))) [
          | inl q ↦ rw (q, read_message) (before refl)
          | inr (r, q) ↦ rw (q, read_message) (before refl)
        ]

    pub read_error-Reason : (ser : ℕ) (t : Station fl) → Reason num a t (read_error fl ser t)
    unfolding read_error
    read_error-Reason ser t =
        of_if (Reason num a t) (is_reference fl t.ser_ref ser) _ _ (unfixed refl) (before refl)

    after_pvt-state : (t : Station fl) → (after_pvt fl t).gs.state ≡ t.gs.state
    unfolding after_pvt
    after_pvt-state t = ground arith

    see_svin-Reason :
        (p : NavSvin fl) (t : Station fl) → Reason num a t (record t { gs = see_svin fl p t.gs })
    unfolding see_svin
    see_svin-Reason p t = elim (Bool-cases (is_survey_in t.gs.state && p.valid && not p.active)) [
      | inr q ↦ before (rw q refl)
      | inl q ↦ surveyed (ground arith) (ground arith) (ground arith)
    ]

    see_rtcm-state :
        (url : Option String) (raw : Bytes) (t : Station fl)
        → (see_rtcm fl url raw t).gs.state ≡ t.gs.state
    unfolding see_rtcm
    see_rtcm-state url [] t = refl
    see_rtcm-state url (b ∷ bytes) t = ground arith

    pub process_message-Reason :
        (url : Option String) (raw : Bytes) (m : Parsed fl) (t : Station fl)
        → Reason num a t (process_message fl url raw m t)
    unfolding process_message see_pvt
    process_message-Reason url raw (nav_pvt p) t =
        before (after_pvt-state (record t { gs = see_pvt fl p t.gs }))
    process_message-Reason url raw (nav_svin p) t = see_svin-Reason p t
    process_message-Reason url raw (nav_sat p) t = before refl
    process_message-Reason url raw rtcm_message t = before (see_rtcm-state url raw t)
    process_message-Reason url raw other_message t = before refl
