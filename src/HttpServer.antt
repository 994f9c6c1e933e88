-- ===== src/HttpServer.antt =====
-- `RabbitHttpRequestHandler` of baselib/net/rabbit_http_request_handler.{h,cc}, the handler of one HTTP
-- request, and `RabbitHttpHandlerFactory` of baselib/net/rabbit_http_handler.{h,cc}, the table of
-- functions by paths. `none` is a use of a handler that is deleted, or of a null request.
pub mod Life
pub mod Served
pub mod Alive
mod Tests
use service_framework.Prelude.{
  ℕ, String, Bool, true, false, Option, none, some, List, [], find, insert, ◌∷◌, ◌++◌,
  if◌then◌else◌, nat_eq, string_eq,
}
use service_framework.Stats.{Stats, increase_at}

-- What the code reads of proxygen's message: its path. The rest is a number.
pub record Message : Type 0 where
  pub path : String
  pub content : ℕ

pub record Response : Type 0 where
  pub status : ℕ
  pub status_message : String
  pub body : String

-- How a function for a path ends: with the response builder as it left it, or with an exception, a
-- `std::exception` with its text, or another.
pub data Outcome : Type 0 where
  returns : Response → Outcome
  throws : Option String → Outcome

-- A run of a function for a path. It has the headers by reference and may wait in the fiber;
-- `late_use` tells that it uses them again after it has waited.
pub record Handling : Type 0 where
  pub outcome : Outcome
  pub late_use : Bool

abbrev pub HttpExecuteFunc : Type 0
HttpExecuteFunc = Message → List ℕ → Response → Handling

-- No function: the response builder is left as it is.
abbrev pub untouched : Response → Handling
untouched r = record { outcome = returns r; late_use = false }

-- `factories_`; a function may be null.
abbrev pub Factories : Type 0
Factories = List (String × Option HttpExecuteFunc)

-- `RegisterTemplate`
unfoldable pub register_template : Factories → String → Option HttpExecuteFunc → Factories
register_template a path func = elim (find path a) [ none ↦ insert path func a | some f ↦ a ]

unfoldable pub dispatch_http_handler : Factories → Message → List ℕ → Response → Handling
dispatch_http_handler a headers body r = elim (find headers.path a) [
  | none ↦ untouched r
  | some none ↦ untouched r
  | some (some f) ↦ f headers body r
]

-- `self` is the only pointer that owns the handler, once it is set.
pub record RequestHandler : Type 0 where
  pub request : Option Message
  pub request_body : List ℕ
  pub self : Bool
  pub destroyed : Bool

abbrev pub new_request_handler : RequestHandler
new_request_handler = record { request = none; request_body = []; self = false; destroyed = false }

abbrev pub on_request : RequestHandler → Message → RequestHandler
on_request h headers = record h { request = some headers }

abbrev pub on_body : RequestHandler → List ℕ → RequestHandler
on_body h body = record h { request_body = h.request_body ++ body }

-- `self.reset()`, in `requestComplete` and in `onError`.
unfoldable pub reset_self : RequestHandler → RequestHandler
reset_self h = if h.self then record h { self = false; destroyed = true } else h

abbrev f_add_task : ℕ
f_add_task = 0

-- `onEOM`: the handler, the statistics, and whether a task is added to the fibers.
unfoldable pub on_eom : Bool → RequestHandler → Stats → RequestHandler × Stats × Bool
on_eom inited h stats =
    if inited
    then (record h { self = true }, increase_at stats f_add_task 1, true)
    else (h, stats, false)

abbrev pub fresh_response : Response
fresh_response = record { status = 200; status_message = "OK"; body = "" }

-- The task up to where `OnHttpHandler` waits, or to its end.
unfoldable pub start_task : Factories → RequestHandler → Option (RequestHandler × Handling)
start_task a h = if h.destroyed then none else elim h.request [
  | none ↦ none
  | some headers ↦ some (
    record h { request_body = [] },
    dispatch_http_handler a headers h.request_body fresh_response,
  )
]

abbrev pub answer : Outcome → Response
answer (returns r) = r
answer (throws (some what)) = record {
  status = 500;
  status_message = "Internal Server Error";
  body = what;
}
answer (throws none) = record {
  status = 500;
  status_message = "Internal Server Error";
  body = "Unknown exception thrown";
}

-- The rest of the task: what is sent. A handler that is gone has taken its headers along, which a
-- function may not use any more; `weak_capture_ptr.lock()` then keeps the task from sending.
unfoldable pub end_task : RequestHandler → Handling → Option (List Response)
end_task h run =
    if h.destroyed then (if run.late_use then none else some []) else some (answer run.outcome ∷ [])
