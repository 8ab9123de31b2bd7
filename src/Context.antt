-- ===== src/Context.antt =====
-- WorkflowContext (workflows.rs): the cancel guard and the deadline that the workflows poll. A guard
-- reads shared state and a deadline reads the clock, so a poll takes the world and may move it on.
use workflowy_mcp.Base.{Bool, false, Option, none, some}

pub record WorkflowContext (W : Type 0) : Type 0 where
  -- the guard's `is_cancelled`, and `Instant::now() >= dl`
  pub cancel : Option (W → Bool × W)
  pub deadline : Option (W → Bool × W)

module _ {W : Type 0} (ctx : WorkflowContext W) where
  unfoldable pub is_cancelled : W → Bool × W
  is_cancelled w = elim ctx.cancel [ none ↦ (false, w) | some guard ↦ guard w ]

  unfoldable pub is_past_deadline : W → Bool × W
  is_past_deadline w = elim ctx.deadline [ none ↦ (false, w) | some passed ↦ passed w ]
