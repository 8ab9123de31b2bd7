-- ===== src/Workflows/Insert.antt =====
-- insert_content_via_indented, smart_insert_under_target and parse_indented_content (workflows.rs):
-- an indented text becomes one create for each line, under parents that a stack keeps by depth. The
-- refusal of a large payload leaves out its advice.
pub mod Outline
pub mod Depths
pub mod Nearest
use workflowy_mcp.Base.{
  ℕ, zero, suc, ◌+◌, ◌-◌, ◌/◌, min, Bool, true, false, Option, none, some, List, [], ◌∷◌, ◌++◌,
  Text, ascii, decimal, trim, trim_start, length, take, get_elem?, ltb, ◌==◌, if◌then◌else◌,
}
use workflowy_mcp.Base.Int.{ℤ, pos}
use workflowy_mcp.Context.{WorkflowContext, is_cancelled, is_past_deadline}
use workflowy_mcp.Error.{WorkflowyError, invalid_input, to_string, Result, ok, err, Io}
use workflowy_mcp.Types.{CreatedNode}
use workflowy_mcp.Client.{Client}
use workflowy_mcp.Workflows.{MutationFootprint, new_footprint, record_created, invalidate_parent}

abbrev pub max_insert_content_lines : ℕ
max_insert_content_lines = 80

pub data PartialReason : Type 0 where
  cancelled timeout error : PartialReason

pub record ParsedLine : Type 0 where
  pub text : Text
  pub indent : ℕ

pub data InsertContentOutcome : Type 0 where
  -- the parent, how many were created, the last one
  complete : Option Text → ℕ → Option Text → InsertContentOutcome
  -- the parent, the reason, how many were created, of how many, the last one, the line, the error
  partial :
      Option Text
      → PartialReason
      → ℕ
      → ℕ
      → Option Text
      → Option Text
      → Option Text
      → InsertContentOutcome

-- The pieces of a text between its line feeds.
unfoldable pub cons_piece : ℕ → List Text → List Text
cons_piece c [] = (c ∷ []) ∷ []
cons_piece c (piece ∷ rest) = (c ∷ piece) ∷ rest

unfoldable pub pieces : Text → List Text
unfolding cons_piece
pieces [] = [] ∷ []
pieces (c ∷ s) = let rest = pieces s in if c == 10 then [] ∷ rest else cons_piece c rest

unfoldable pub strip_return : Text → Text
strip_return [] = []
strip_return (c ∷ []) = if c == 13 then [] else c ∷ []
strip_return (c ∷ d ∷ s) = c ∷ strip_return (d ∷ s)

-- A piece that ended in a line feed loses a carriage return at its end; an empty last piece is no line.
unfoldable pub lines_of_pieces : List Text → List Text
unfolding strip_return
lines_of_pieces [] = []
lines_of_pieces ([] ∷ []) = []
lines_of_pieces ((c ∷ s) ∷ []) = (c ∷ s) ∷ []
lines_of_pieces (piece ∷ next ∷ rest) = strip_return piece ∷ lines_of_pieces (next ∷ rest)

-- `content.lines()`
unfoldable pub lines : Text → List Text
unfolding pieces lines_of_pieces
lines content = lines_of_pieces (pieces content)

-- One line: nothing if it is blank, else its trimmed text and half its leading white space.
unfoldable pub parse_line : Text → List ParsedLine → List ParsedLine
unfolding trim trim_start
parse_line line rest =
    let trimmed = trim line in
    let parsed : ParsedLine = record {
      text = trimmed;
      indent = (length line - length (trim_start line)) / 2;
    } in
    elim trimmed [ [] ↦ rest | c ∷ s ↦ parsed ∷ rest ]

unfoldable pub parse_lines : List Text → List ParsedLine
unfolding parse_line
parse_lines [] = []
parse_lines (line ∷ rest) = parse_line line (parse_lines rest)

unfoldable pub parse_indented_content : Text → List ParsedLine
unfolding lines parse_lines
parse_indented_content content = parse_lines (lines content)

module _ {ℓ} {A : Type ℓ} where
  -- `xs[i] = x`
  unfoldable pub set_elem : ℕ → A → List A → List A
  set_elem i x [] = []
  set_elem zero x (y ∷ ys) = x ∷ ys
  set_elem (suc i) x (y ∷ ys) = y ∷ set_elem i x ys

-- `parent_stack[indent]`, an index that the clamp keeps in range
unfoldable pub parent_at : List (Option Text) → ℕ → Option Text
parent_at stack i = elim (get_elem? stack i) [ none ↦ none | some parent ↦ parent ]

-- After a create at depth `indent`: its id is the parent one level down, and deeper levels go.
unfoldable pub descend : ℕ → Text → List (Option Text) → List (Option Text)
unfolding set_elem
descend indent id stack =
    let next_level = suc indent in
    if ltb next_level (length stack)
    then take (suc next_level) (set_elem next_level (some id) stack)
    else stack ++ some id ∷ []

-- What the loop leaves, `reason` being set when it stopped early.
pub record Inserted : Type 0 where
  pub created_count : ℕ
  pub last_inserted_id : Option Text
  pub footprint : MutationFootprint
  pub reason : Option PartialReason
  pub stopped_at_line : Option Text
  pub failure : Option Text

-- The two errors that stand for a signal.
unfoldable pub signal_of : WorkflowyError → Option PartialReason
signal_of WorkflowyError.cancelled = some cancelled
signal_of WorkflowyError.timeout = some timeout
signal_of _ = none

unfoldable pub outcome_of : Option Text → ℕ → Inserted → InsertContentOutcome
outcome_of parent_id total done = elim done.reason [
  | none ↦ complete parent_id done.created_count done.last_inserted_id
  | some reason ↦
      partial parent_id reason done.created_count total done.last_inserted_id done.stopped_at_line
        done.failure
]

module _ {W : Type 0} (client : Client W) (ctx : WorkflowContext W) where
  -- A failed create: a signal, or an error that came after a signal, or a hard error.
  unfoldable pub stop_on_error : WorkflowyError → Text → Inserted → W → Inserted × W
  unfolding signal_of is_cancelled is_past_deadline to_string
  stop_on_error e line now w =
      let stop : PartialReason → Option Text → Inserted = λ reason failure. record now {
        reason = some reason;
        stopped_at_line = some line;
        failure = failure;
      } in
      elim (signal_of e) [
        | some reason ↦ (stop reason none, w)
        | none ↦
            let (is_off, w₁) = is_cancelled ctx w in
            elim is_off [
              | true ↦ (stop cancelled none, w₁)
              | false ↦
                  let (is_late, w₂) = is_past_deadline ctx w₁ in
                  elim is_late [
                    | true ↦ (stop timeout none, w₂)
                    | false ↦ (stop error (some (to_string e)), w₂)
                  ]
            ]
      ]

  -- the loop over the lines from index `idx` on
  unfoldable pub insert_lines :
      ℕ
      → List ParsedLine
      → List (Option Text)
      → ℕ
      → Option Text
      → MutationFootprint
      → W
      → Inserted × W
  unfolding is_cancelled is_past_deadline parent_at descend record_created stop_on_error
  insert_lines idx [] stack count last footprint w = (
    record {
      created_count = count;
      last_inserted_id = last;
      footprint = footprint;
      reason = none;
      stopped_at_line = none;
      failure = none;
    },
    w,
  )
  insert_lines idx (line ∷ rest) stack count last footprint w =
      let now : Option PartialReason → Option Text → Inserted = λ reason stopped. record {
        created_count = count;
        last_inserted_id = last;
        footprint = footprint;
        reason = reason;
        stopped_at_line = stopped;
        failure = none;
      } in
      let (is_off, w₁) = is_cancelled ctx w in
      elim is_off [
        | true ↦ (now (some cancelled) none, w₁)
        | false ↦
            let (is_late, w₂) = is_past_deadline ctx w₁ in
            elim is_late [
              | true ↦ (now (some timeout) (some line.text), w₂)
              | false ↦
                  let indent = min line.indent (length stack - 1) in
                  let line_parent = parent_at stack indent in
                  let (r, w₃) =
                    client.create_node_cancellable line.text none line_parent (some (pos idx)) none
                      ctx w₂ in
                  elim r [
                    | ok created ↦
                        insert_lines (idx + 1) rest (descend indent created.id stack) (count + 1)
                          (some created.id)
                          (record_created created.id line.text none line_parent footprint) w₃
                    | err e ↦ stop_on_error e line.text (now none none) w₃
                  ]
            ]
      ]

  unfoldable pub insert_content_via_indented :
      Option Text → List ParsedLine → Io W (InsertContentOutcome × MutationFootprint)
  unfolding insert_lines outcome_of invalidate_parent ascii decimal
  insert_content_via_indented parent_id [] w = (ok (complete parent_id 0 none, new_footprint), w)
  insert_content_via_indented parent_id (line ∷ rest) w =
      let parsed = line ∷ rest in
      let (done, w') = insert_lines 0 parsed (parent_id ∷ []) 0 none new_footprint w in
      let total = length parsed in
      if ltb max_insert_content_lines total
      then (
        err (
            invalid_input (
              ascii "payload too large: "
              ++ (decimal total
                  ++ (ascii " lines exceeds the "
                      ++ (decimal max_insert_content_lines ++ ascii "-line cap"))))),
        w,
      )
      else (ok (outcome_of parent_id total done, invalidate_parent parent_id done.footprint), w')

  unfoldable pub smart_insert_under_target :
      Text → Text → Io W (InsertContentOutcome × MutationFootprint)
  unfolding parse_indented_content insert_content_via_indented ascii
  smart_insert_under_target target_node_id content w = elim (parse_indented_content content) [
    | [] ↦ (err (invalid_input (ascii "Content cannot be empty")), w)
    | line ∷ rest ↦ insert_content_via_indented (some target_node_id) (line ∷ rest) w
  ]
