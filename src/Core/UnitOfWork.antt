-- ===== src/Core/UnitOfWork.antt =====
-- apps/api/app/core/db.py: a session of the sessionmaker. Writes stand in the session until
-- `commit`; a session that is closed without one leaves the database as it was.
use blank.Prelude.{Result, ok, Exec, map_err}

-- The state that a session sees, and the state that is committed.
pub record Pending (S : Type 0) : Type 0 where
  pub current : S
  pub committed : S

abbrev pub Work : Type 0 → Type 0 → Type 0 → Type 0
Work S E A = Exec (Pending S) E A

-- A service function, which never commits; its errors are turned into the route's.
abbrev pub within : {S E F A : Type 0} → (E → F) → Exec S E A → Work S F A
within f m w = let (r, s) = m w.current in (map_err f r, record w { current = s })

abbrev pub commit : {S E : Type 0} → Work S E (Unit {0})
commit w = (ok tt, record { current = w.current; committed = w.current })

-- `get_control_session`: a request opens a session on the database and closes it at the end.
abbrev pub run_request : {S E A : Type 0} → Work S E A → S → Result E A × S
run_request m s = let (r, w) = m (record { current = s; committed = s }) in (r, w.committed)
