-- ===== src/Workflows/Insert/Outline.antt =====
-- What insert_content_via_indented (workflows.rs) creates: an outline in which each line stands under
-- the nearest earlier line that is one level up.
use mathlib.Core.List.{append_assoc, append-nil}
use mathlib.Core.Path.{subst}
use workflowy_mcp.Base.{
  ℕ, ◌+◌, ◌-◌, ◌<◌, min, ◌≡◌, ◌⊎◌, refl, sym, ◌∙◌, Option, none, some, List, [], ◌∷◌, ◌++◌, Text,
  length, get_elem?, ltb, arith, Bool-cases, Option-cases, inl, inr, pair_fst, pair_snd, suc,
}
use workflowy_mcp.Base.Int.{pos}
use workflowy_mcp.Context.{WorkflowContext, is_cancelled, is_past_deadline}
use workflowy_mcp.Error.{WorkflowyError, ok, Result-cases, to_string}
use workflowy_mcp.Types.{WorkflowyNode, CreatedNode, default_node}
use workflowy_mcp.Workflows.Creates.{
  Create, Polled, still, cancel, Creates, ended, refused, polled, made, both_polled,
}
use workflowy_mcp.Client.{Client}
use workflowy_mcp.Workflows.{
  MutationFootprint, new_footprint, record_created, invalidate_parent, invalidate_cache_only,
}
use workflowy_mcp.Workflows.Insert.{
  ParsedLine, PartialReason, InsertContentOutcome, complete, partial, Inserted, insert_lines,
  insert_content_via_indented, stop_on_error, signal_of, outcome_of, descend, parent_at,
  max_insert_content_lines,
}
use workflowy_mcp.Workflows.Insert.Nearest.{
  History, room, nearest, outline, Fits, Fits-start, Fits-descend,
}

abbrev last_of : List Text → Option Text → Option Text
last_of [] before = before
last_of (id ∷ ids) before = last_of ids (some id)

-- What the loop over the lines asks for and adds to the footprint, and where it stopped.
record IsInserted {W : Type 0} (ctx : WorkflowContext W) (create : Create W) (base : Option Text)
    (history : History) (lines : List ParsedLine) (nodes : List WorkflowyNode) (idx count : ℕ)
    (last : Option Text) (w : W) (done : Inserted) (end : W) : Type 0 where
  ids : List Text
  asked : Creates ctx create idx (outline base history lines ids) w end
  nodes_made : done.footprint.created_nodes ≡ nodes ++ outline base history lines ids
  counted : done.created_count ≡ count + length ids
  last_made : done.last_inserted_id ≡ last_of ids last
  finished : done.reason ≡ none → length ids ≡ length lines
  stopped : (reason : PartialReason) → done.reason ≡ some reason → length ids < length lines
  cursor :
      (done.stopped_at_line ≡ none)
      ⊎ ((line : ParsedLine) × (get_elem? lines (length ids) ≡ some line)
          × (done.stopped_at_line ≡ some line.text))

module _ {W : Type 0} (ctx : WorkflowContext W) (create : Create W) where
  stopped_here :
      (base : Option Text) (history : History) (line : ParsedLine) (rest : List ParsedLine)
      (idx count : ℕ) (last : Option Text) (w : W) (done : Inserted) (end : W) (r : PartialReason)
      → Creates ctx create idx [] w end
      → done.created_count ≡ count
      → done.last_inserted_id ≡ last
      → done.reason ≡ some r
      → (done.stopped_at_line ≡ none) ⊎ (done.stopped_at_line ≡ some line.text)
      → IsInserted ctx create base history
          (line ∷ rest)
          done.footprint.created_nodes
          idx
          count
          last
          w
          done
          end
  unfolding outline
  stopped_here base history line rest idx count last w done end r a c l e at_line = record {
    ids = [];
    asked = a;
    nodes_made = sym (append-nil done.footprint.created_nodes);
    counted = omega (arith, c);
    last_made = l;
    finished = λ h. cc (sym e ∙ h);
    stopped = λ reason h. omega arith;
    cursor = elim at_line [ inl silent ↦ inl silent | inr told ↦ inr (line, refl, told) ];
  }

  one_more :
      (base : Option Text) (history : History) (line : ParsedLine) (rest : List ParsedLine)
      (nodes : List WorkflowyNode) (idx count : ℕ) (last : Option Text) (created : CreatedNode)
      (w w₁ w₂ : W) (done : Inserted) (end : W)
      → Polled ctx w w₁
      → create idx line.text none (nearest (min line.indent (room history)) history base) w₁
        ≡ (ok created, w₂)
      → (let depth = min line.indent (room history) in
          IsInserted ctx create base
            ((depth, created.id) ∷ history)
            rest
            (nodes
              ++ record default_node {
                id = created.id;
                name = line.text;
                description = none;
                parent_id = nearest depth history base;
              }
                ∷ [])
            (idx + 1)
            (count + 1)
            (some created.id)
            w₂
            done
            end)
      → IsInserted ctx create base history (line ∷ rest) nodes idx count last w done end
  unfolding outline
  one_more base history line rest nodes idx count last created w w₁ w₂ done end waited answer h =
      let next : idx + 1 ≡ suc idx = omega arith in
      record {
        ids = created.id ∷ h.ids;
        asked = polled idx _ w w₁ end waited (
            made idx _ _ created w₁ w₂ end answer refl (
              subst
                (λ n.
                  Creates ctx create n
                    (outline base ((min line.indent (room history), created.id) ∷ history) rest
                      h.ids)
                    w₂ end)
                next h.asked));
        nodes_made = h.nodes_made ∙ append_assoc nodes _ _;
        counted = omega (arith, h.counted);
        last_made = h.last_made;
        finished = λ e. omega (arith, h.finished e);
        stopped = λ reason e. omega (arith, h.stopped reason e);
        cursor = h.cursor;
      }

module _ {W : Type 0} (client : Client W) (ctx : WorkflowContext W) where
  -- The create that the insertion of a line asks for.
  abbrev pub insert_create : Create W
  insert_create idx name description parent w =
      client.create_node_cancellable name description parent (some (pos idx)) none ctx w

  stop_on_error-lem :
      (e : WorkflowyError) (line : Text) (now : Inserted) (w : W)
      → (reason : PartialReason) × (failure : Option Text) × ((stop_on_error client ctx e line now
            w).0
          ≡ record now { reason = some reason; stopped_at_line = some line; failure = failure })
        × Polled ctx w (stop_on_error client ctx e line now w).1
  unfolding stop_on_error
  stop_on_error-lem e line now w =
      let off_poll = is_cancelled ctx w in
      let late = is_past_deadline ctx off_poll.1 in
      elim (Option-cases (signal_of e)) [
        | inr (r, sig) ↦ (r, none, rw (sig, stop_on_error), rw (sig, stop_on_error) (still w))
        | inl hard ↦ elim (Bool-cases off_poll.0) [
          | inl off ↦ (
            PartialReason.cancelled,
            none,
            rw (hard, off, stop_on_error),
            rw (hard, off, stop_on_error) (cancel w off_poll.1 (still off_poll.1)),
          )
          | inr on ↦ elim (Bool-cases late.0) [
            | inl over ↦ (
              PartialReason.timeout,
              none,
              rw (hard, on, over, stop_on_error),
              rw (hard, on, over, stop_on_error) (both_polled ctx w),
            )
            | inr early ↦ (
              PartialReason.error,
              some (to_string e),
              rw (hard, on, early, stop_on_error),
              rw (hard, on, early, stop_on_error) (both_polled ctx w),
            )
          ]
        ]
      ]

  parent_at_lem :
      (stack : List (Option Text)) (d : ℕ) (p : Option Text)
      → get_elem? stack d ≡ some p
      → parent_at stack d ≡ p
  unfolding parent_at
  parent_at_lem stack d p e = rw (e, parent_at)

  insert_lines-IsInserted :
      (base : Option Text) (lines : List ParsedLine) (history : History) (idx : ℕ)
      (stack : List (Option Text)) (count : ℕ) (last : Option Text) (fp : MutationFootprint) (w : W)
      → Fits base stack history
      → (let (done, end) = insert_lines client ctx idx lines stack count last fp w in
          IsInserted ctx insert_create base history lines fp.created_nodes idx count last w done
            end)
  unfolding insert_lines outline record_created
  insert_lines-IsInserted base [] history idx stack count last fp w fits = record {
    ids = [];
    asked = ended idx w w (still w);
    nodes_made = sym (append-nil fp.created_nodes);
    counted = omega arith;
    last_made = refl;
    finished = λ h. refl;
    stopped = λ reason h. cc h;
    cursor = inl refl;
  }
  insert_lines-IsInserted base (line ∷ rest) history idx stack count last fp w fits =
      let off_poll = is_cancelled ctx w in
      let late = is_past_deadline ctx off_poll.1 in
      let depth = min line.indent (room history) in
      let same_depth : min line.indent (length stack - 1) ≡ depth = omega (arith, fits.size) in
      let parent =
        parent_at_lem stack depth (nearest depth history base) (fits.level depth (omega arith)) in
      let step = insert_create idx line.text none (nearest depth history base) late.1 in
      elim (Bool-cases off_poll.0) [
        | inl off ↦
            rw (off, insert_lines)
              (stopped_here ctx insert_create base history line rest idx count last w _ off_poll.1
                PartialReason.cancelled
                (ended idx w off_poll.1 (cancel w off_poll.1 (still off_poll.1))) refl refl refl
                (inl refl))
        | inr on ↦ elim (Bool-cases late.0) [
          | inl over ↦
              rw (on, over, insert_lines)
                (stopped_here ctx insert_create base history line rest idx count last w _ late.1
                  PartialReason.timeout (ended idx w late.1 (both_polled ctx w)) refl refl refl
                  (inr refl))
          | inr early ↦ elim (Result-cases step.0) [
            | inl (created, e) ↦
                rw (on, early, same_depth, parent, e, insert_lines)
                  (rw (same_depth, parent)
                    (one_more ctx insert_create base history line rest fp.created_nodes idx count
                      last created w late.1 step.1 _ _ (both_polled ctx w) (cc e)
                      (insert_lines-IsInserted base rest ((depth, created.id) ∷ history) (idx + 1)
                        (descend depth created.id stack) (count + 1) (some created.id)
                        (record_created created.id line.text none (nearest depth history base) fp)
                        step.1
                        (Fits-descend base stack history depth created.id fits (omega arith)))))
            | inr (x, e) ↦
                let now : Inserted = record {
                  created_count = count;
                  last_inserted_id = last;
                  footprint = fp;
                  reason = none;
                  stopped_at_line = none;
                  failure = none;
                } in
                let (r, failure, same, polls) = stop_on_error-lem x line.text now step.1 in
                let asked : Creates ctx insert_create idx [] w
                    (stop_on_error client ctx x line.text now step.1).1 =
                  polled idx [] w late.1 _ (both_polled ctx w) (
                    refused idx line.text none (nearest depth history base) x late.1 step.1 _ (cc e)
                      polls) in
                rw (on, early, same_depth, parent, e, insert_lines)
                  (rw (same_depth, parent)
                    (rw same (
                      stopped_here ctx insert_create base history line rest idx count last w _ _ r
                        asked refl refl refl (inr refl))))
          ]
        ]
      ]

-- How many lines an outcome says were created, and what it says of the last one and of the rest.
unfoldable pub IsOutlined :
    {W : Type 0}
    → WorkflowContext W
    → Create W
    → Option Text
    → List ParsedLine
    → W
    → InsertContentOutcome × MutationFootprint
    → W
    → Type 0
IsOutlined ctx create base parsed w (complete parent count last, fp) end =
    (ids : List Text) × (parent ≡ base)
    × Creates ctx create 0 (outline base [] parsed ids) w end
    × (fp.created_nodes ≡ outline base [] parsed ids)
    × (count ≡ length ids)
    × (length ids ≡ length parsed)
    × (last ≡ last_of ids none)
IsOutlined ctx create base parsed w (partial parent reason count total last stopped failure, fp)
      end =
    (ids : List Text) × (parent ≡ base)
    × Creates ctx create 0 (outline base [] parsed ids) w end
    × (fp.created_nodes ≡ outline base [] parsed ids)
    × (count ≡ length ids)
    × (length ids < length parsed)
    × (last ≡ last_of ids none)
    × (total ≡ length parsed)
    × ((stopped ≡ none)
        ⊎ ((line : ParsedLine) × (get_elem? parsed (length ids) ≡ some line)
            × (stopped ≡ some line.text)))

created-invalidate_parent :
    (parent : Option Text) (fp : MutationFootprint)
    → (invalidate_parent parent fp).created_nodes ≡ fp.created_nodes
unfolding invalidate_parent invalidate_cache_only
created-invalidate_parent none fp = refl
created-invalidate_parent (some pid) fp = refl

module _ {W : Type 0} (ctx : WorkflowContext W) (create : Create W) where
  nothing_inserted :
      (base : Option Text) (w : W)
      → IsOutlined ctx create base [] w (complete base 0 none, new_footprint) w
  unfolding IsOutlined outline
  nothing_inserted base w = ([], refl, ended 0 w w (still w), refl, refl, refl, refl)

  outcome-IsOutlined :
      (base : Option Text) (parsed : List ParsedLine) (w : W) (done : Inserted) (end : W)
      → IsInserted ctx create base [] parsed [] 0 0 none w done end
      → IsOutlined ctx create base parsed w
          (outcome_of base (length parsed) done, invalidate_parent base done.footprint)
          end
  unfolding IsOutlined outcome_of
  outcome-IsOutlined base parsed w done end h =
      let nodes = created-invalidate_parent base done.footprint ∙ h.nodes_made in
      elim (Option-cases done.reason) [
        | inl e ↦
            rw (e, outcome_of)
              (h.ids, refl, h.asked, nodes, omega (arith, h.counted), h.finished e, h.last_made)
        | inr (r, e) ↦
            rw (e, outcome_of)
              (
                h.ids,
                refl,
                h.asked,
                nodes,
                omega (arith, h.counted),
                h.stopped r e,
                h.last_made,
                refl,
                h.cursor,
              )
      ]

module _ {W : Type 0} (client : Client W) (ctx : WorkflowContext W) where
  -- Whatever the client and the polls do, an insertion that returns an outcome has asked, between its
  -- polls, for one create for each of a first part of the lines, in their order, with the text of the
  -- line, under the nearest earlier line one level up, where a line that is indented too far counts as one
  -- level under the line before it; these creates succeeded, and at most one more was asked for and
  -- failed. The outcome says how many succeeded and which was the last; it is complete exactly when all
  -- were created, and a partial one names the first line not created or none.
  pub insert_content-IsOutlined :
      (base : Option Text) (parsed : List ParsedLine) (w w' : W) (outcome : InsertContentOutcome)
      (fp : MutationFootprint)
      → insert_content_via_indented client ctx base parsed w ≡ (ok (outcome, fp), w')
      → IsOutlined ctx (insert_create client ctx) base parsed w (outcome, fp) w'
  unfolding insert_content_via_indented
  insert_content-IsOutlined base [] w w' outcome fp h =
      let create = insert_create client ctx in
      let made_so : ◌≡◌ {A = InsertContentOutcome × MutationFootprint}
          (complete base 0 none, new_footprint) (outcome, fp) =
        cc (pair_fst h) in
      subst (λ end. IsOutlined ctx create base [] w (outcome, fp) end) (pair_snd h)
        (subst (λ r. IsOutlined ctx create base [] w r w) made_so
          (nothing_inserted ctx create base w))
  insert_content-IsOutlined base (line ∷ rest) w w' outcome fp h =
      elim (Bool-cases (ltb max_insert_content_lines (length (line ∷ rest)))) [
        | inl long ↦ cc (pair_fst (rw long at h))
        | inr short ↦
            let create = insert_create client ctx in
            let run = insert_lines client ctx 0 (line ∷ rest) (base ∷ []) 0 none new_footprint w in
            let back = rw short at h in
            let made_so : ◌≡◌ {A = InsertContentOutcome × MutationFootprint}
                (
                  outcome_of base (length (line ∷ rest)) run.0,
                  invalidate_parent base run.0.footprint,
                )
                (outcome, fp) =
              cc (pair_fst back) in
            subst (λ end. IsOutlined ctx create base (line ∷ rest) w (outcome, fp) end)
              (pair_snd back)
              (subst (λ r. IsOutlined ctx create base (line ∷ rest) w r run.1) made_so
                (outcome-IsOutlined ctx create base (line ∷ rest) w run.0 run.1 (
                  insert_lines-IsInserted client ctx base (line ∷ rest) [] 0 (base ∷ []) 0 none
                    new_footprint w (Fits-start base))))
      ]
