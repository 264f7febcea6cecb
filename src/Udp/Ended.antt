-- ===== src/Udp/Ended.antt =====
-- The end of a session.
use corshub.Prelude.{
  ℕ, ◌≡◌, refl, Option, none, some, String, ==_refl, if◌then◌else◌, string_eq, nat_eq, same,
  same_refl,
}
use corshub.Dict
use corshub.Dict.{Dict, get-pop_self, get-pop}
use corshub.Float.{Float}
use corshub.Caster.Positions.{position_of, clear_rover_position, position_of-clear_rover_position}
use corshub.Udp.{Position}
use corshub.Udp.Sessions.{
  Address, keepalive, switch_mountpoint, bye, Server, put, cancel, other_task, run_teardown,
  handle_body, decimal,
}

module _ (fl : Float) where
  -- What a torn down session leaves behind.
  pub record IsEnded (v : Server fl) (i : ℕ) (u : Server fl) : Type 0 where
    pub sessions :
        (k : ℕ)
        → Dict.get u.sessions k
          ≡ (if same (v.heap i).session_id k then none else Dict.get v.sessions k)
    pub position :
        position_of fl u.caster (v.heap i).mountpoint (decimal (v.heap i).session_id) ≡ none
    pub again : (current : Option ℕ) → run_teardown fl u current i ≡ u
    pub ignores_keepalive :
        (now : ℕ) (addr : Address) (p : Option (Position fl))
        → handle_body fl u now addr (v.heap i).session_id (keepalive p) ≡ u
    pub ignores_switch :
        (now : ℕ) (addr : Address) (m : String) (p : Option (Position fl))
        → handle_body fl u now addr (v.heap i).session_id (switch_mountpoint m p) ≡ u
    pub ignores_bye :
        (now : ℕ) (addr : Address) → handle_body fl u now addr (v.heap i).session_id bye ≡ u

  -- The server right after the pops.
  abbrev popped : Server fl → ℕ → Server fl
  popped v i =
      let s = v.heap i in
      record v {
        sessions = Dict.pop v.sessions s.session_id;
        caster = clear_rover_position fl v.caster s.mountpoint (decimal s.session_id);
        heap = put fl v.heap i (record s { task = none });
      }

  sessions-cancel : (v : Server fl) (t : Option ℕ) → (cancel fl v t).sessions ≡ v.sessions
  unfolding cancel
  sessions-cancel v none = refl
  sessions-cancel v (some t) = refl

  heap-cancel : (v : Server fl) (t : Option ℕ) → (cancel fl v t).heap ≡ v.heap
  unfolding cancel
  heap-cancel v none = refl
  heap-cancel v (some t) = refl

  caster-cancel : (v : Server fl) (t : Option ℕ) → (cancel fl v t).caster ≡ v.caster
  unfolding cancel
  caster-cancel v none = refl
  caster-cancel v (some t) = refl

  absent-run_teardown :
      (u : Server fl) (current : Option ℕ) (i : ℕ)
      → Dict.get u.sessions (u.heap i).session_id ≡ none
      → run_teardown fl u current i ≡ u
  unfolding run_teardown
  absent-run_teardown u current i e = rw (e, run_teardown)

  -- Tearing down a session that is established removes it and no other session, clears the position
  -- of its rover on its mountpoint, and makes the server ignore any later keepalive, switch or bye of
  -- it; to tear it down again changes nothing.
  run_teardown-IsEnded :
      (v : Server fl) (current : Option ℕ) (i k : ℕ)
      → Dict.get v.sessions (v.heap i).session_id ≡ some k
      → IsEnded v i (run_teardown fl v current i)
  unfolding run_teardown handle_body
  run_teardown-IsEnded v current i k e =
      let id = (v.heap i).session_id in
      let t = other_task fl current (v.heap i).task in
      let gone : Dict.get (cancel fl (popped v i) t).sessions id ≡ none =
        rw (sessions-cancel (popped v i) t) (get-pop_self v.sessions id) in
      rw (e, run_teardown)
        record {
          sessions = λ j. rw (sessions-cancel (popped v i) t) (get-pop v.sessions id j);
          position =
              rw
                (
                  caster-cancel (popped v i) t,
                  position_of-clear_rover_position fl v.caster (v.heap i).mountpoint (decimal id)
                      (v.heap i).mountpoint (decimal id),
                  same_refl (v.heap i).mountpoint,
                  same_refl (decimal id),
                )
                refl;
          again = λ c.
              absent-run_teardown (cancel fl (popped v i) t) c i
                (rw (heap-cancel (popped v i) t, ==_refl i) gone);
          ignores_keepalive = λ now addr p. rw (gone, handle_body);
          ignores_switch = λ now addr m p. rw (gone, handle_body);
          ignores_bye = λ now addr. rw (gone, handle_body);
        }
