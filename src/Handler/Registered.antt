-- ===== src/Handler/Registered.antt =====
-- On every thread the manager's table is the connected handlers.
use service_framework.Prelude.{
  ℕ, String, refl, inl, inr, Bool, true, false, Option, none, some, List, [], arith, Option-cases,
  ◌≡◌, ◌⊎◌, ◌∷◌, if◌then◌else◌,
}
use service_framework.Conn.{ConnManager, IoBuf, send_io_buf_by_conn_id, on_new_connection}
use service_framework.Conn.Table.{send_some, Opens-of_return}
use service_framework.Handler.{
  ConnHandler, conn_none, conn_connected, service_on_new_connection, transport_active, close, read,
  read_eof, read_exception,
}
use service_framework.Handler.Life.{
  NetThread, after, ◌⟶◌, activates, reads, ends, fails, closes, Reach, here, next,
}
use service_framework.Handler.Table.{
  IsRegistered, same-IsRegistered, close-IsRegistered, opened-IsRegistered,
}

active_some :
    (h : ConnHandler) (c : ConnManager) (p : ℕ) (address : String) (r : ConnHandler × ConnManager)
    → h.has_service ≡ true
    → transport_active h c p address ≡ some r
    → (c' : ConnManager) × (id : ℕ) × (on_new_connection c p ≡ some (c', id))
      × (r ≡ (record h { conn_state = conn_connected; remote_address = address; conn_id = id }, c'))
unfolding transport_active service_on_new_connection
active_some h c p address r service e = elim (Option-cases (on_new_connection c p)) [
  | inl n ↦ absurd (ground (arith, service, e, n))
  | inr ((c', id), n) ↦ (c', id, n, ground (arith, service, e, n))
]

active-IsRegistered :
    (t : NetThread) (p : ℕ) (address : String) (r : ConnHandler × ConnManager)
    → IsRegistered t
    → (t.handlers p).conn_state ≡ conn_none
    → transport_active (t.handlers p) t.manager p address ≡ some r
    → IsRegistered (after t p r)
active-IsRegistered t p address r v new done =
    let (c', id, opens, same) =
      active_some (t.handlers p) t.manager p address r (v.served p) done in
    rw same (
      opened-IsRegistered t p v address c' id (Opens-of_return t.manager p c' id v.table opens) new)

read_cases :
    (h : ConnHandler) (c : ConnManager) (msg : Option (IoBuf × List IoBuf))
    → (read h c msg ≡ close h c) ⊎ (read h c msg ≡ (h, c))
unfolding read
read_cases h c none = inl refl
read_cases h c (some ([], chain)) = inl refl
read_cases h c (some (b ∷ bs, chain)) = inr refl

some-close :
    (h : ConnHandler) (c : ConnManager) (b : Bool) (r : ConnHandler × ConnManager)
    → ◌≡◌ {A = Option (ConnHandler × ConnManager)} (if b then some (close h c) else none) (some r)
    → r ≡ close h c
some-close h c true r e = ground (arith, e)
some-close h c false r e = absurd (ground (arith, e))

step-IsRegistered : {t u : NetThread} → t ⟶ u → IsRegistered t → IsRegistered u
unfolding read_eof read_exception
step-IsRegistered (activates t p address r new done) v =
    active-IsRegistered t p address r v new done
step-IsRegistered (reads t p msg) v = elim (read_cases (t.handlers p) t.manager msg) [
  | inl e ↦ rw e (close-IsRegistered t p v)
  | inr e ↦ rw e (same-IsRegistered t p v)
]
step-IsRegistered (ends t p r e) v =
    rw (some-close (t.handlers p) t.manager (t.handlers p).has_service r e)
      (close-IsRegistered t p v)
step-IsRegistered (fails t p r e) v =
    rw (some-close (t.handlers p) t.manager (t.handlers p).has_service r e)
      (close-IsRegistered t p v)
step-IsRegistered (closes t p) v = close-IsRegistered t p v

-- The table of a network thread is its connected handlers. Start with a table that has each pipeline
-- exactly under the id of its handler while that is connected: this holds in every state that the
-- thread reaches, in whatever order its pipelines activate, receive data, end, fail and close.
pub Reach-IsRegistered : {s t : NetThread} → IsRegistered s → Reach s t → IsRegistered t
Reach-IsRegistered v here = v
Reach-IsRegistered v (next r step) = step-IsRegistered step (Reach-IsRegistered v r)

-- From the same starts, in every state that is reached: a message for the id of a connected handler
-- is written to its pipeline and to no other.
Reach-sends :
    {s t : NetThread} (p : ℕ) (buf : IoBuf)
    → IsRegistered s
    → Reach s t
    → (t.handlers p).conn_state ≡ conn_connected
    → send_io_buf_by_conn_id t.manager (t.handlers p).conn_id buf ≡ (true, (p, buf) ∷ [])
Reach-sends {t = t} p buf v r up =
    send_some t.manager (t.handlers p).conn_id p buf ((Reach-IsRegistered v r).held p up)
