-- ===== src/Tcp/Calls.antt =====
-- The sending of `TcpClient` with a callback, and its destructor: baselib/net/server/tcp_client.cc.
use service_framework.Prelude.{
  ℕ, Bool, true, false, Option, none, some, List, [], arith, ◌≡◌, ◌∷◌, if◌then◌else◌,
}
use service_framework.Conn.{IoBuf, Write}
use service_framework.Tcp.{TcpClient, run_send}

-- The closure of `SendIOBufThreadSafe(data, c)`: what it writes, and whether it calls `c`.
unfoldable pub run_send_with_callback : TcpClient → IoBuf → Option (List Write × Bool)
run_send_with_callback c buf =
    if c.connected
    then elim c.client [
      | none ↦ none
      | some b ↦ elim b.pipeline [ none ↦ none | some pipeline ↦ some ((pipeline, buf) ∷ [], true) ]
    ]
    else some ([], false)

-- `~TcpClient`: the pipeline whose manager it resets.
unfoldable pub destroy_tcp_client : TcpClient → Option ℕ
destroy_tcp_client c = elim c.client [ none ↦ none | some b ↦ b.pipeline ]

-- It writes what the sending without a callback writes, and calls back exactly when it writes.
run_send_with_callback-run_send :
    (c : TcpClient) (buf : IoBuf)
    → run_send_with_callback c buf
      ≡ elim (run_send c buf) [ none ↦ none | some writes ↦ some (writes, c.connected) ]
unfolding run_send_with_callback run_send
run_send_with_callback-run_send c buf = ground arith
