-- ===== src/Workflows/Creates.antt =====
-- The requests of a workflow (workflows.rs) that creates nodes one after the other, from a first world to a
-- last.
use workflowy_mcp.Base.{ℕ, suc, ◌≡◌, Option, List, [], ◌∷◌, Text}
use workflowy_mcp.Context.{WorkflowContext, is_cancelled, is_past_deadline}
use workflowy_mcp.Error.{WorkflowyError, ok, err, Io}
use workflowy_mcp.Types.{WorkflowyNode, CreatedNode}

-- The request for the create number `n`, with the name, the description and the parent.
abbrev pub Create : Type 0 → Type 0
Create W = ℕ → Text → Option Text → Option Text → Io W CreatedNode

module _ {W : Type 0} (ctx : WorkflowContext W) where
  -- Nothing but polls of the signals.
  pub data Polled : W → W → Type 0 where
    still : (w : W) → Polled w w
    cancel : (w end : W) → Polled (is_cancelled ctx w).1 end → Polled w end
    deadline : (w end : W) → Polled (is_past_deadline ctx w).1 end → Polled w end

  -- Between polls of the signals, one successful create for each node, in their order and numbered from `n`,
  -- that asks for its name, its description and its parent and answers its id; then at most one create that
  -- fails.
  pub data Creates (create : Create W) : ℕ → List WorkflowyNode → W → W → Type 0 where
    ended : (n : ℕ) (w end : W) → Polled w end → Creates create n [] w end
    refused :
        (n : ℕ) (name : Text) (description parent : Option Text) (e : WorkflowyError) (w w' end : W)
        → create n name description parent w ≡ (err e, w')
        → Polled w' end
        → Creates create n [] w end
    polled :
        (n : ℕ) (nodes : List WorkflowyNode) (w w' end : W)
        → Polled w w'
        → Creates create n nodes w' end
        → Creates create n nodes w end
    made :
        (n : ℕ) (node : WorkflowyNode) (nodes : List WorkflowyNode) (created : CreatedNode)
        (w w' end : W)
        → create n node.name node.description node.parent_id w ≡ (ok created, w')
        → created.id ≡ node.id
        → Creates create (suc n) nodes w' end
        → Creates create n (node ∷ nodes) w end

  -- The two polls before each create.
  pub both_polled : (w : W) → Polled w (is_past_deadline ctx (is_cancelled ctx w).1).1
  both_polled w = cancel w _ (deadline (is_cancelled ctx w).1 _ (still _))
