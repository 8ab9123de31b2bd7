-- ===== src/Client/Propagation.antt =====
-- The retries for propagation lag (api/client.rs): the `…_with_propagation_retry` methods and move_node
-- ask again, up to three times, when the answer looks like a 404. `to_lowercase` is a parameter, and
-- the pause is what it does to the world.
pub mod Recovers
use workflowy_mcp.Base.{
  ℕ, zero, suc, ◌*◌, ◌^◌, Bool, true, false, not, ◌&&◌, ◌||◌, Option, List, Text, ascii, contains,
}
use workflowy_mcp.Error.{WorkflowyError, to_string, Result, ok, err, Io}
use workflowy_mcp.Types.{WorkflowyNode}
use workflowy_mcp.Client.{Client}
use workflowy_mcp.Client.Walk.{Reads}

module _ (to_lowercase : Text → Text) where
  unfoldable pub is_404_like : WorkflowyError → Bool
  unfolding to_string contains ascii
  is_404_like e =
      let text = to_lowercase (to_string e) in
      contains text (ascii "api error 404") || contains text (ascii "not found")

  unfoldable pub is_parent_related_error : WorkflowyError → Bool
  unfolding to_string contains ascii
  is_parent_related_error e =
      let text = to_lowercase (to_string e) in
      (contains text (ascii "parent") || contains text (ascii "not found"))
      && not (contains text (ascii "api error 5"))

  module _ {W : Type 0} (sleep : ℕ → W → W) where
    -- The loop, with so many retries left after so many attempts.
    unfoldable pub retry_on_404 : {A : Type 0} → ℕ → ℕ → Io W A → Io W A
    unfolding is_404_like
    retry_on_404 zero attempt call w = call w
    retry_on_404 (suc left) attempt call w =
        let (r, w') = call w in
        elim r [
          | ok a ↦ (ok a, w')
          | err e ↦ elim (is_404_like e) [
            | true ↦ retry_on_404 left (suc attempt) call (sleep (200 * 2 ^ attempt) w')
            | false ↦ (err e, w')
          ]
        ]

    -- MAX_PROP_RETRIES is 3.
    abbrev pub with_propagation_retry : {A : Type 0} → Io W A → Io W A
    with_propagation_retry call = retry_on_404 2 0 call

    module _ (client : Client W) (reads : Reads W) where
      unfoldable pub get_node_with_propagation_retry : Text → Io W WorkflowyNode
      unfolding retry_on_404
      get_node_with_propagation_retry id w =
          with_propagation_retry (reads.get_node_cancellable id) w

      unfoldable pub get_children_with_propagation_retry : Text → Io W (List WorkflowyNode)
      unfolding retry_on_404
      get_children_with_propagation_retry id w =
          with_propagation_retry (reads.get_children_cancellable id) w

      unfoldable pub set_completion_with_propagation_retry : Text → Bool → Io W (Unit {0})
      unfolding retry_on_404
      set_completion_with_propagation_retry id completed w =
          with_propagation_retry (client.set_completion id completed) w

      unfoldable pub delete_node_with_propagation_retry : Text → Io W (Unit {0})
      unfolding retry_on_404
      delete_node_with_propagation_retry id w = with_propagation_retry (client.delete_node id) w

      unfoldable pub edit_node_with_propagation_retry :
          Text → Option Text → Option Text → Io W (Unit {0})
      unfolding retry_on_404
      edit_node_with_propagation_retry id name description w =
          with_propagation_retry (client.edit_node id name description) w

      -- One attempt of a move: a complaint about the parent has its listing read and the request
      -- repeated. The request of the move is an argument.
      unfoldable pub move_attempt : Io W (Unit {0}) → Text → Io W (Unit {0})
      unfolding is_parent_related_error
      move_attempt request new_parent_id w =
          let (r, w₁) = request w in
          elim r [
            | ok _ ↦ (ok tt, w₁)
            | err e ↦ elim (is_parent_related_error e) [
              | true ↦ let (_, w₂) = reads.get_children_cancellable new_parent_id w₁ in request w₂
              | false ↦ (err e, w₁)
            ]
          ]

      unfoldable pub move_node : Io W (Unit {0}) → Text → Io W (Unit {0})
      unfolding move_attempt retry_on_404
      move_node request new_parent_id w =
          with_propagation_retry (move_attempt request new_parent_id) w
