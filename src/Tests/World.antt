-- ===== src/Tests/World.antt =====
-- Two small worlds for the client of api/client.rs: the children of one parent, and one description.
use workflowy_mcp.Base.{
  ◌≡◌, refl, sym, not, Option, none, some, List, [], ◌∷◌, Text, text_eq, text_eq_refl, filter,
  if◌then◌else◌, pair_fst, pair_snd,
}
use workflowy_mcp.Error.{timeout, Result, ok, err}
use workflowy_mcp.Types.{CreatedNode, default_node}
use workflowy_mcp.Context.{WorkflowContext, is_cancelled, is_past_deadline}
use workflowy_mcp.Client.{Client}
use workflowy_mcp.Workflows.Transaction.Rollback.{CreateLaws}
use workflowy_mcp.Workflows.Reorder.Places.{MoveLaws}

abbrev pub a_id : Text
a_id = b'a' ∷ []

abbrev pub b_id : Text
b_id = b'b' ∷ []

abbrev pub c_id : Text
c_id = b'c' ∷ []

abbrev pub p_id : Text
p_id = b'p' ∷ []

-- The ids of the children of the only parent; a create names its node by its name.
abbrev pub Children : Type 0
Children = List Text

abbrev pub take_out : Text → Children → Result (Unit {0}) × Children
take_out id [] = (err timeout, [])
take_out id (first ∷ rest) = if text_eq id first then (ok tt, rest) else (err timeout, first ∷ rest)

abbrev pub put_first : Text → Children → Children
put_first id w = id ∷ filter (λ c. not (text_eq c id)) w

abbrev pub created_as : Text → CreatedNode
created_as name = record { id = name; name = name; parent_id = none }

abbrev pub children_client : Client Children
children_client = record {
  create_node = λ name description parent_id priority w. (ok (created_as name), name ∷ w);
  create_node_cancellable =
      λ name description parent_id priority layout ctx w. (ok (created_as name), name ∷ w);
  get_node = λ id w. (ok (record default_node { id = id }), w);
  edit_node = λ id name description w. (ok tt, w);
  set_completion = λ id completed w. (ok tt, w);
  delete_node = take_out;
  move_node = λ id parent priority w. (ok tt, put_first id w);
}

-- The description of the only node; an edit that names no description keeps it.
abbrev pub described : Option Text → Option Text → Option Text
described none before = before
described (some new) before = some new

abbrev pub note_client : Client (Option Text)
note_client = record {
  create_node = λ name description parent_id priority w. (err timeout, w);
  create_node_cancellable = λ name description parent_id priority layout ctx w. (err timeout, w);
  get_node = λ id w. (ok (record default_node { id = id; name = id; description = w }), w);
  edit_node = λ id name description w. (ok tt, described description w);
  set_completion = λ id completed w. (ok tt, w);
  delete_node = λ id w. (err timeout, w);
  move_node = λ id parent priority w. (ok tt, w);
}

abbrev pub no_signals : WorkflowContext Children
no_signals = record { cancel = none; deadline = none }

pub children_client-CreateLaws : CreateLaws children_client
unfolding text_eq
children_client-CreateLaws = record {
  refused = λ name description parent_id priority w w' e h. cc (pair_fst h);
  undone = λ name description parent_id priority w w' n h.
      let same : created_as name ≡ n = cc (pair_fst h) in
      let end : name ∷ w ≡ w' = pair_snd h in rw (sym same, sym end, text_eq_refl name);
}

pub children_client-MoveLaws : MoveLaws children_client no_signals (λ w p. w)
unfolding is_cancelled is_past_deadline
children_client-MoveLaws = record {
  on_move = λ id parent w w' h. sym (pair_snd h);
  on_cancel = λ w p. refl;
  on_deadline = λ w p. refl;
}
