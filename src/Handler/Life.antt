-- ===== src/Handler/Life.antt =====
-- The pipelines of one network thread: what wangle calls on their handlers, as a step relation.
use service_framework.Prelude.{ℕ, String, Option, some, List, ◌≡◌, ◌==◌, if◌then◌else◌}
use service_framework.Conn.{ConnManager, IoBuf}
use service_framework.Handler.{
  ConnHandler, conn_none, transport_active, close, read, read_eof, read_exception,
}

-- The handlers by their pipelines, and the manager that they share.
pub record NetThread : Type 0 where
  pub manager : ConnManager
  pub handlers : ℕ → ConnHandler

abbrev pub put : (ℕ → ConnHandler) → ℕ → ConnHandler → ℕ → ConnHandler
put handlers p h q = if p == q then h else handlers q

abbrev pub after : NetThread → ℕ → ConnHandler × ConnManager → NetThread
after t p r = record { manager = r.1; handlers = put t.handlers p r.0 }

-- wangle activates a pipeline once, before anything else happens on it; data, the end of the stream,
-- errors and `close` come in any order and any number.
infix 40 ◌⟶◌
pub data ◌⟶◌ : NetThread → NetThread → Type 0 where
  activates :
      (t : NetThread) (p : ℕ) (address : String) (r : ConnHandler × ConnManager)
      → (t.handlers p).conn_state ≡ conn_none
      → transport_active (t.handlers p) t.manager p address ≡ some r
      → t ⟶ after t p r
  reads :
      (t : NetThread) (p : ℕ) (msg : Option (IoBuf × List IoBuf))
      → t ⟶ after t p (read (t.handlers p) t.manager msg)
  ends :
      (t : NetThread) (p : ℕ) (r : ConnHandler × ConnManager)
      → read_eof (t.handlers p) t.manager ≡ some r
      → t ⟶ after t p r
  fails :
      (t : NetThread) (p : ℕ) (r : ConnHandler × ConnManager)
      → read_exception (t.handlers p) t.manager ≡ some r
      → t ⟶ after t p r
  closes : (t : NetThread) (p : ℕ) → t ⟶ after t p (close (t.handlers p) t.manager)

pub data Reach (s : NetThread) : NetThread → Type 0 where
  here : Reach s s
  next : {t u : NetThread} → Reach s t → t ⟶ u → Reach s u
