-- ===== src/IoThread.antt =====
-- `IOThreadConnManager` of baselib/net/io_thread_pool_manager.{h,cc}: the connections of one IO
-- thread, by id, by service and by registered server. The service name of a pipeline, which the code
-- asks its handler for, is an argument; `none` as a pointer is `nullptr`.
pub mod Services
pub mod Servers
pub mod History
mod Tests
use service_framework.Prelude.{
  ℕ, zero, suc, String, Bool, true, false, Option, none, some, List, [], map, length, find,
  contains, insert, erase, modify, set_insert, set_erase, ◌+◌, ◌&&◌, ◌∷◌, ◌++◌, ◌==◌, if◌then◌else◌,
  nat_eq, string_eq,
}
use service_framework.Conn.{IoBuf, Write, Claim, claim}

pub record ServerConnInfo : Type 0 where
  pub server_name : String
  pub server_number : ℕ
  pub pipeline : Option ℕ

pub record IoThread : Type 0 where
  pub thread_id : ℕ
  pub event_base : Option ℕ
  pub current_conn_id : ℕ
  pub pipelines : List (ℕ × ℕ)
  pub service_pipelines : List (String × List ℕ)
  pub server_conns : List ServerConnInfo

-- `IOThreadConnManager(thread_id, event_base)`
abbrev pub new_io_thread : ℕ → Option ℕ → IoThread
new_io_thread thread_id event_base = record {
  thread_id = thread_id;
  event_base = event_base;
  current_conn_id = 0;
  pipelines = [];
  service_pipelines = [];
  server_conns = [];
}

-- `Equals(server_name, server_number)`
unfoldable pub equals_server : ServerConnInfo → String → ℕ → Bool
equals_server v server_name server_number =
    string_eq.beq server_name v.server_name && (v.server_number == server_number)

-- `Equals(pipeline)`
unfoldable pub equals_pipeline : ServerConnInfo → ℕ → Bool
equals_pipeline v pipeline = elim v.pipeline [ none ↦ false | some p ↦ pipeline == p ]

-- The id goes into the service's set, which is made if it is not there.
unfoldable pub add_to_service : String → ℕ → List (String × List ℕ) → List (String × List ℕ)
add_to_service service_name conn_id m =
    if contains service_name m
    then modify service_name (set_insert conn_id) m
    else insert service_name (conn_id ∷ []) m

unfoldable pub on_new_connection : IoThread → ℕ → String → Option (IoThread × ℕ)
on_new_connection t pipeline service_name =
    elim (claim (length t.pipelines + 1) t.current_conn_id t.pipelines pipeline) [
      | none ↦ none
      | some r ↦ some (
        record t {
          current_conn_id = r.current;
          pipelines = r.table;
          service_pipelines = add_to_service service_name r.conn_id t.service_pipelines;
        },
        r.conn_id,
      )
    ]

-- A server that is registered already is logged and added again.
unfoldable pub on_server_register : IoThread → Option ℕ → String → ℕ → IoThread
on_server_register t pipeline server_name server_number = record t {
  server_conns =
      t.server_conns
      ++ record { server_name = server_name; server_number = server_number; pipeline = pipeline }
        ∷ [];
}

-- The `for` loop: the list without the first entry of the pipeline, or `none` if there is none.
unfoldable pub remove_first : ℕ → List ServerConnInfo → Option (List ServerConnInfo)
remove_first pipeline [] = none
remove_first pipeline (v ∷ vs) =
    let rest = remove_first pipeline vs in
    if equals_pipeline v pipeline
    then some vs
    else elim rest [ none ↦ none | some ws ↦ some (v ∷ ws) ]

-- The `do … while (find)` loop around it; the rounds are at most the entries and one more.
unfoldable pub remove_all : ℕ → ℕ → List ServerConnInfo → List ServerConnInfo
remove_all zero pipeline vs = vs
remove_all (suc rounds) pipeline vs = elim (remove_first pipeline vs) [
  | none ↦ vs
  | some ws ↦ remove_all rounds pipeline ws
]

unfoldable pub on_connection_closed : IoThread → ℕ → ℕ → String → IoThread × Bool
on_connection_closed t conn_id pipeline service_name = (
  record t {
    pipelines = erase conn_id t.pipelines;
    service_pipelines = modify service_name (set_erase conn_id) t.service_pipelines;
    server_conns = remove_all (length t.server_conns + 1) pipeline t.server_conns;
  },
  true,
)

unfoldable pub dispatch_io_buf_by_conn_id : IoThread → ℕ → IoBuf → Bool × List Write
dispatch_io_buf_by_conn_id t conn_id buf = elim (find conn_id t.pipelines) [
  | none ↦ (true, [])
  | some pipeline ↦ (true, (pipeline, buf) ∷ [])
]

-- The loop of `DispatchIOBufByServer`: the first entry of the server that has a pipeline.
unfoldable pub write_to_server : List ServerConnInfo → String → ℕ → IoBuf → Bool × List Write
write_to_server [] server_name server_number buf = (false, [])
write_to_server (v ∷ vs) server_name server_number buf =
    let rest = write_to_server vs server_name server_number buf in
    if equals_server v server_name server_number
    then elim v.pipeline [ none ↦ rest | some p ↦ (true, (p, buf) ∷ []) ]
    else rest

unfoldable pub dispatch_io_buf_by_server : IoThread → String → ℕ → IoBuf → Bool × List Write
dispatch_io_buf_by_server t server_name server_number buf =
    write_to_server t.server_conns server_name server_number buf

unfoldable pub broad_cast : IoThread → IoBuf → Bool × List Write
broad_cast t buf = (true, map (λ e. (e.1, buf)) t.pipelines)

unfoldable pub find_pipeline : IoThread → ℕ → Option ℕ
find_pipeline t conn_id = find conn_id t.pipelines

unfoldable pub find_pipelines : IoThread → String → List ℕ
find_pipelines t service = elim (find service t.service_pipelines) [ none ↦ [] | some ids ↦ ids ]
