-- ===== src/Cancel.antt =====
-- Cooperative cancellation (utils/cancel.rs): a generation that cancel_all counts up, and guards that
-- hold the generation of their making. The registry is shared, so a guard is read against its state
-- of the moment; `fetch_add` wraps at 64 bits.
pub mod Generations
use workflowy_mcp.Base.{ℕ, zero, suc, ◌+◌, ◌%◌, ◌^◌, Bool, not, ◌==◌}

pub record CancelRegistry : Type 0 where
  pub generation : ℕ

pub record CancelGuard : Type 0 where
  pub snapshot : ℕ

abbrev pub new_registry : CancelRegistry
new_registry = record { generation = 0 }

unfoldable pub guard : CancelRegistry → CancelGuard
guard r = record { snapshot = r.generation }

unfoldable pub cancel_all : CancelRegistry → CancelRegistry
cancel_all r = record { generation = (r.generation + 1) % 2 ^ 64 }

unfoldable pub is_cancelled : CancelGuard → CancelRegistry → Bool
is_cancelled g r = not (r.generation == g.snapshot)
