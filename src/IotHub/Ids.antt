-- ===== src/IotHub/Ids.antt =====
-- The ids of two servers of the program.
use service_framework.Prelude.{ℕ, refl, ap, some, arith, ◌+◌, ◌%◌, ◌^◌, ◌≡◌, ◌↔◌, nat_eq, string_eq}
use service_framework.Json.{Json, pos}
use service_framework.Snowflake.{
  Globals, pack_id, make_thread_local_worker, init_snowflake_worker_id,
}
use service_framework.Snowflake.Fields.{pack_id_same_iff}
use service_framework.Snowflake.Sequence.{issued}
use service_framework.Snowflake.Threads.{thread_worker, after_threads_lem}
use service_framework.IotHub.{IotHubConfig, set_conf, to_uint16}

-- The globals of a server with a configuration, before it has made an id.
abbrev pub server_globals : IotHubConfig → Globals
server_globals c =
    init_snowflake_worker_id (record { worker_id = 1; data_center_id = 1; thread_id = 0 })
      c.server_number 1

-- The id that the worker of a server's `i`-th thread gives at a time and a counter.
abbrev pub server_id : IotHubConfig → ℕ → ℕ → ℕ → ℕ → ℕ
server_id c i last timestamp sequence =
    (issued (thread_worker i (server_globals c) last) timestamp sequence).1

zero_add : (n : ℕ) → 0 + n ≡ n
zero_add n = omega arith

server_id_lem :
    (c : IotHubConfig) (i last t s : ℕ)
    → server_id c i last t s ≡ pack_id t (i % 2 ^ 16) c.server_number s
unfolding make_thread_local_worker init_snowflake_worker_id
server_id_lem c i last t s =
    rw (after_threads_lem i (server_globals c) (omega arith))
      (ap (λ k. pack_id t (k % 2 ^ 16) c.server_number s) (zero_add i))

module _ {J : Type 0} (json : Json J) where
  set_conf-server_number :
      (conf v : J) (n : ℕ) (old c : IotHubConfig)
      → json.find conf "server_number" ≡ some v
      → json.get_int v ≡ some (pos n)
      → set_conf json conf old ≡ some c
      → c.server_number ≡ n % 2 ^ 16
  unfolding set_conf to_uint16
  set_conf-server_number conf v n old c there number h = ground (arith, there, number, h)

  -- Two servers read the numbers `m` and `n` from their sections. The workers of their threads `i` and
  -- `j` give the same id at the same time and counter exactly when the two numbers agree modulo 32
  -- and the two threads do: the number of the server goes into a field of 5 bits, too.
  pub server_ids_collide_iff :
      (conf conf' v v' : J) (m n : ℕ) (old old' c c' : IotHubConfig)
      (i j last last' timestamp sequence : ℕ)
      → json.find conf "server_number" ≡ some v
      → json.find conf' "server_number" ≡ some v'
      → json.get_int v ≡ some (pos m)
      → json.get_int v' ≡ some (pos n)
      → set_conf json conf old ≡ some c
      → set_conf json conf' old' ≡ some c'
      → (server_id c i last timestamp sequence ≡ server_id c' j last' timestamp sequence)
        ↔ (m % 32 ≡ n % 32) × (i % 32 ≡ j % 32)
  server_ids_collide_iff conf conf' v v' m n old old' c c' i j last last' t s there there' number
        number' read read' =
      let first = set_conf-server_number conf v m old c there number read in
      let second = set_conf-server_number conf' v' n old' c' there' number' read' in
      let same =
        pack_id_same_iff t (i % 2 ^ 16) c.server_number s t (j % 2 ^ 16) c'.server_number s in
      rw (server_id_lem c i last t s, server_id_lem c' j last' t s)
        (
          (λ e. let (time, threads, servers, counter) = same.0 e in (omega arith, omega arith)),
          (λ (servers, threads). same.1 (refl, omega arith, omega arith, refl)),
        )
