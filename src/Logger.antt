-- ===== src/Logger.antt =====
-- `LogInitializer` of baselib/base/glog_util.{h,cc}: what the section "logger" sets. The files and flags
-- of glog are a state; `none` is the exception of `get<...>` on a value of another type.
pub mod Again
pub mod Files
use Prim.Native.String.{◌++◌}
use service_framework.Prelude.{
  String, Bool, true, Option, none, some, find, ◌>>=◌, if◌then◌else◌, nat_eq, string_eq,
}
use service_framework.Json.{Json, ℤ, pos}

-- The base names that `SetLogDestination` was given for the severities.
pub record Destinations : Type 0 where
  pub info : Option String
  pub warning : Option String
  pub error : Option String
  pub fatal : Option String

pub record Flags : Type 0 where
  pub logbufsecs : ℤ
  pub logbuflevel : ℤ
  pub max_log_size : ℤ
  pub minloglevel : ℤ
  pub stop_logging_if_full_disk : Bool
  pub v : ℤ

-- `GLOG_trace` and the others of `glog_util`.
pub record Traces : Type 0 where
  pub trace : Bool
  pub trace_call_chain : Bool
  pub trace_fiber : Bool
  pub trace_http : Bool
  pub trace_message_handler : Bool
  pub trace_cost : Bool

pub record Logger : Type 0 where
  pub destinations : Destinations
  pub flags : Flags
  pub traces : Traces

abbrev pub new_traces : Traces
new_traces = record {
  trace = true;
  trace_call_chain = true;
  trace_fiber = true;
  trace_http = true;
  trace_message_handler = true;
  trace_cost = true;
}

module _ {J : Type 0} (json : Json J) where
  -- `if (config_data.find(key) != config_data.end()) ... else ...`, for each type of value.
  abbrev pub read : {A : Type 0} → (J → Option A) → J → String → A → Option A
  read get conf key other = elim (json.find conf key) [ none ↦ some other | some v ↦ get v ]

  -- A destination: the value with the program's name and a suffix.
  abbrev pub destination : String → String → J → Option (Option String)
  destination program suffix v = elim (json.get_string v) [
    | none ↦ none
    | some dest ↦ some (some (dest ++ program ++ suffix))
  ]

  -- The name under "fatal_dest" is given for `google::INFO`.
  unfoldable pub set_destinations : String → J → Destinations → Option Destinations
  set_destinations program conf d = do
    first ← read (destination program "_fatal_") conf "fatal_dest" d.info
    error ← read (destination program "_error_") conf "error_dest" d.error
    warning ← read (destination program "_warning_") conf "warning_dest" d.warning
    info ← read (destination program "_info_") conf "info_dest" first
    some (record d { info = info; warning = warning; error = error })

  module _ (get_bool : J → Option Bool) where
    abbrev pub verbosity : J → ℤ → Option ℤ
    verbosity conf v = elim (json.find conf "enable_folly_debug") [
      | none ↦ some v
      | some b ↦ elim (get_bool b) [ none ↦ none | some on ↦ some (if on then pos 20 else v) ]
    ]

    unfoldable pub set_flags : J → Flags → Option Flags
    set_flags conf f = do
      logbufsecs ← read json.get_int conf "logbufsecs" (pos 10)
      logbuflevel ← read json.get_int conf "logbuflevel" (pos 4)
      max_log_size ← read json.get_int conf "max_log_size" (pos 1000)
      minloglevel ← read json.get_int conf "minloglevel" (pos 0)
      stop ← read get_bool conf "stop_logging_if_full_disk" true
      v ← verbosity conf f.v
      some (record {
        logbufsecs = logbufsecs;
        logbuflevel = logbuflevel;
        max_log_size = max_log_size;
        minloglevel = minloglevel;
        stop_logging_if_full_disk = stop;
        v = v;
      })

    -- The six `SET_TRACE_FLAG`.
    unfoldable pub set_traces : J → Traces → Option Traces
    set_traces conf t = do
      trace ← read get_bool conf "trace" t.trace
      trace_call_chain ← read get_bool conf "trace_call_chain" t.trace_call_chain
      trace_fiber ← read get_bool conf "trace_fiber" t.trace_fiber
      trace_http ← read get_bool conf "trace_http" t.trace_http
      trace_message_handler ← read get_bool conf "trace_message_handler" t.trace_message_handler
      trace_cost ← read get_bool conf "trace_cost" t.trace_cost
      some (record {
        trace = trace;
        trace_call_chain = trace_call_chain;
        trace_fiber = trace_fiber;
        trace_http = trace_http;
        trace_message_handler = trace_message_handler;
        trace_cost = trace_cost;
      })

    -- `SetConf`, which answers true whenever it returns.
    unfoldable pub set_conf : String → J → Logger → Option Logger
    set_conf program conf l = do
      destinations ← set_destinations program conf l.destinations
      flags ← set_flags conf l.flags
      traces ← set_traces conf l.traces
      some (record { destinations = destinations; flags = flags; traces = traces })
