-- ===== src/SimpleTcp/Told.antt =====
-- What the callbacks of a simple connection are told over its life.
use service_framework.Prelude.{
  ℕ, refl, Bool, true, not, Option, none, some, List, [], map, arith, ◌≡◌, ◌&&◌, ◌∷◌, ◌++◌, ◌>>=◌,
  if◌then◌else◌,
}
use service_framework.Conn.{IoBuf}
use service_framework.SimpleTcp.{
  SimpleConnHandler, read, Call, data_arrived, read_eof, read_exception, connection_closed, close,
}

-- What wangle calls on a handler after `transportActive`; data has the answer of its callback.
pub data Event : Type 0 where
  gets_data : IoBuf → Bool → Event
  ends fails closes : Event

unfoldable pub handle : SimpleConnHandler → ℕ → Event → Option (List Call)
handle h p (gets_data msg rejected) = read h p msg rejected
handle h p ends = some (read_eof h p)
handle h p fails = some (read_exception h p)
handle h p closes = some (close h p)

unfoldable pub told : SimpleConnHandler → ℕ → List Event → Option (List Call)
told h p [] = some []
told h p (e ∷ events) = do calls ← handle h p e; rest ← told h p events; some (calls ++ rest)

-- The calls that the events ask for, one each.
abbrev pub call_of : ℕ → Event → Call
call_of p (gets_data msg rejected) = data_arrived p msg
call_of p ends = connection_closed p
call_of p fails = connection_closed p
call_of p closes = connection_closed p

abbrev pub accepts : Event → Bool
accepts (gets_data msg rejected) = not rejected
accepts _ = true

abbrev pub all_accepted : List Event → Bool
all_accepted [] = true
all_accepted (e ∷ events) = accepts e && all_accepted events

-- With a callback every event is told, in order, each end and each close once more; data that the
-- callback rejects ends the program.
told_lem :
    (p : ℕ) (events : List Event)
    → told (record { has_callback = true }) p events
      ≡ (if all_accepted events then some (map (call_of p) events) else none)
unfolding told handle read read_eof read_exception close
told_lem p [] = refl
told_lem p (gets_data msg rejected ∷ events) = ground (arith, told_lem p events)
told_lem p (ends ∷ events) = ground (arith, told_lem p events)
told_lem p (fails ∷ events) = ground (arith, told_lem p events)
told_lem p (closes ∷ events) = ground (arith, told_lem p events)
