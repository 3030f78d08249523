-- ===== src/Errors.antt =====
-- core/error.go: the errors that the handlers return, each with the fields that its text shows.
use loom.Committee.{NodeId}
use loom.Prelude.{ℕ}
use loom.Prelude.Int.{ℤ}

pub data Error : Type 0 where
  err_signature : ℕ → ℤ → NodeId → Error
  err_reference : ℕ → ℤ → NodeId → Error
  err_used_elect : ℕ → ℤ → NodeId → Error
  -- An error that a library called by the code returns.
  err_library : Error
