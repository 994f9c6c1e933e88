-- ===== src/IoThread/Servers.antt =====
-- The servers that register on a thread's connections.
use service_framework.Prelude.{
  ℕ, zero, suc, String, refl, ap, inl, inr, Bool, true, false, none, some, List, [], arith,
  Option-cases, length, All, ◌+◌, ◌<◌, ◌≡◌, ◌∙◌, ◌≢◌, ◌&&◌, ◌∷◌, ◌++◌, ◌==◌, string_eq,
  if◌then◌else◌, nat_eq, string_eq,
}
use service_framework.Conn.{IoBuf, Write}
use service_framework.IoThread.{
  ServerConnInfo, IoThread, equals_server, equals_pipeline, on_server_register, remove_first,
  remove_all, on_connection_closed, write_to_server, dispatch_io_buf_by_server,
}

-- The entries of the other pipelines, in their order.
abbrev pub others : ℕ → List ServerConnInfo → List ServerConnInfo
others p [] = []
others p (v ∷ vs) = if equals_pipeline v p then others p vs else v ∷ others p vs

remove_first-none : (p : ℕ) (vs : List ServerConnInfo) → remove_first p vs ≡ none → others p vs ≡ vs
unfolding remove_first
remove_first-none p [] h = refl
remove_first-none p (v ∷ vs) h = ground (arith, remove_first-none p vs)

remove_first-some :
    (p : ℕ) (vs ws : List ServerConnInfo)
    → remove_first p vs ≡ some ws
    → (others p vs ≡ others p ws) × (length vs ≡ suc (length ws))
unfolding remove_first
remove_first-some p [] ws h = absurd (ground arith)
remove_first-some p (v ∷ vs) ws h = elim (Option-cases (remove_first p vs)) [
  | inl n ↦ ground arith
  | inr (us, e) ↦ ground (arith, remove_first-some p vs us e)
]

remove_all_lem :
    (rounds p : ℕ) (vs : List ServerConnInfo)
    → length vs < rounds
    → remove_all rounds p vs ≡ others p vs
unfolding remove_all
remove_all_lem zero p vs h = absurd (omega arith)
remove_all_lem (suc rounds) p vs h = elim (Option-cases (remove_first p vs)) [
  | inl e ↦ ground (arith, remove_first-none p vs e)
  | inr (ws, e) ↦ ground (arith, remove_first-some p vs ws e, remove_all_lem rounds p ws)
]

-- Whether the server has a connection that is open.
abbrev answers : List ServerConnInfo → String → ℕ → IoBuf → Bool
answers vs n k buf = (write_to_server vs n k buf).0

write_to_server-append :
    (vs ws : List ServerConnInfo) (n : String) (k : ℕ) (buf : IoBuf)
    → write_to_server (vs ++ ws) n k buf
      ≡ (if answers vs n k buf then write_to_server vs n k buf else write_to_server ws n k buf)
unfolding write_to_server
write_to_server-append [] ws n k buf = refl
write_to_server-append (v ∷ vs) ws n k buf = ground (arith, write_to_server-append vs ws n k buf)

write_to_one :
    (p : ℕ) (n : String) (k : ℕ) (n' : String) (k' : ℕ) (buf : IoBuf)
    → write_to_server
        (record { server_name = n; server_number = k; pipeline = some p } ∷ [])
        n'
        k'
        buf
      ≡ (if string_eq.beq n' n && (k == k') then (true, (p, buf) ∷ []) else (false, []))
unfolding write_to_server equals_server
write_to_one p n k n' k' buf = refl

-- A server registers on the connection `p`: a message to it goes where it went before, if that was
-- anywhere, and else to `p`; messages to the other servers go where they went.
dispatch_after_register :
    (t : IoThread) (p : ℕ) (n : String) (k : ℕ) (n' : String) (k' : ℕ) (buf : IoBuf)
    → let before = dispatch_io_buf_by_server t n' k' buf in
      dispatch_io_buf_by_server (on_server_register t (some p) n k) n' k' buf ≡ (
        if before.0
        then before
        else if string_eq.beq n' n && (k == k')
        then (true, (p, buf) ∷ [])
        else (false, []))
unfolding dispatch_io_buf_by_server on_server_register write_to_server equals_server
dispatch_after_register t p n k n' k' buf =
    write_to_server-append t.server_conns _ n' k' buf
    ∙ ap
        (λ r.
          if answers t.server_conns n' k' buf then write_to_server t.server_conns n' k' buf else r)
        (write_to_one p n k n' k' buf)

-- The message does not go to `p`.
abbrev pub Avoids : ℕ → Bool × List Write → Type 0
Avoids p r = All (λ w. w.0 ≢ p) r.1

others_avoid :
    (p : ℕ) (vs : List ServerConnInfo) (n : String) (k : ℕ) (buf : IoBuf)
    → Avoids p (write_to_server (others p vs) n k buf)
unfolding write_to_server equals_pipeline
others_avoid p [] n k buf = tt
others_avoid p (v ∷ vs) n k buf = ground (arith, others_avoid p vs n k buf)

others_keep :
    (p q : ℕ) (vs : List ServerConnInfo) (n : String) (k : ℕ) (buf : IoBuf)
    → q ≢ p
    → write_to_server vs n k buf ≡ (true, (q, buf) ∷ [])
    → write_to_server (others p vs) n k buf ≡ (true, (q, buf) ∷ [])
unfolding write_to_server equals_pipeline
others_keep p q [] n k buf apart h = absurd (ground arith)
others_keep p q (v ∷ vs) n k buf apart h = ground (arith, others_keep p q vs n k buf apart)

-- When the connection `p` closes, every entry of it goes, however often it registered, and the others
-- stay in their order.
pub on_connection_closed-others :
    (t : IoThread) (id p : ℕ) (service : String)
    → (on_connection_closed t id p service).0.server_conns ≡ others p t.server_conns
unfolding on_connection_closed
on_connection_closed-others t id p service =
    remove_all_lem (length t.server_conns + 1) p t.server_conns (omega arith)

-- After the connection `p` has closed no message to a server goes to it, and a message that went to
-- another connection still goes there.
dispatch_after_close :
    (t : IoThread) (id p : ℕ) (service n : String) (k : ℕ) (buf : IoBuf)
    → let t' = (on_connection_closed t id p service).0 in
      Avoids p (dispatch_io_buf_by_server t' n k buf)
      × ((q : ℕ)
          → q ≢ p
          → dispatch_io_buf_by_server t n k buf ≡ (true, (q, buf) ∷ [])
          → dispatch_io_buf_by_server t' n k buf ≡ (true, (q, buf) ∷ []))
unfolding dispatch_io_buf_by_server
dispatch_after_close t id p service n k buf =
    let gone = on_connection_closed-others t id p service in
    (
      rw gone (others_avoid p t.server_conns n k buf),
      λ q apart h. rw gone (others_keep p q t.server_conns n k buf apart h),
    )
