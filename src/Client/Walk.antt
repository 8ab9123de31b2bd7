-- ===== src/Client/Walk.antt =====
-- The subtree walk of the API client (api/client.rs): get_subtree_with_controls, fetch_descendants and
-- the recovery of dropped branches. The requests of a fan-out are taken one after the other, in an order
-- that the reads choose, since they end in any order. `elapsed_ms` and the width of the fan-out, which
-- change no other result, are left out.
pub mod Drains
pub mod Levels
pub mod Covers
pub mod Bounds
pub mod Answered
use workflowy_mcp.Base.{
  ℕ, zero, suc, ◌+◌, ◌-◌, ◌^◌, Bool, true, false, ◌||◌, not, Option, none, some, List, [], ◌∷◌,
  ◌++◌, map, Text, text_eq, length, take, get_elem?, leb, ltb, ◌==◌, sort_by, if◌then◌else◌,
}
use workflowy_mcp.Base.Int.{ℤ, negsuc, leb_ℤ}
use workflowy_mcp.Context.{WorkflowContext, is_cancelled, is_past_deadline}
use workflowy_mcp.Error.{WorkflowyError, Result, ok, err, Io}
use workflowy_mcp.Retry.{is_signal}
use workflowy_mcp.Types.{WorkflowyNode}

abbrev pub retry_window_wait_slack_ms : ℕ
retry_window_wait_slack_ms = 500

pub data TruncationReason : Type 0 where
  node_limit timeout cancelled skipped_branches : TruncationReason

pub record TruncationOutcome : Type 0 where
  pub reason : Option TruncationReason
  pub truncated_at_node_id : Option Text
  pub skipped_branches : List Text

abbrev pub complete : TruncationOutcome
complete = record { reason = none; truncated_at_node_id = none; skipped_branches = [] }

abbrev pub stopped : TruncationReason → Option Text → TruncationOutcome
stopped reason anchor = record {
  reason = some reason;
  truncated_at_node_id = anchor;
  skipped_branches = [];
}

-- A walk that dropped branches and did not stop otherwise is not complete.
unfoldable pub with_skipped : TruncationOutcome → List Text → TruncationOutcome
with_skipped o [] = o
with_skipped o (id ∷ ids) = elim o.reason [
  | none ↦ record {
    reason = some TruncationReason.skipped_branches;
    truncated_at_node_id = some id;
    skipped_branches = id ∷ ids;
  }
  | some r ↦ record o { skipped_branches = id ∷ ids }
]

unfoldable pub abort_reason : WorkflowyError → TruncationReason
abort_reason WorkflowyError.timeout = TruncationReason.timeout
abort_reason _ = TruncationReason.cancelled

pub record SubtreeFetch : Type 0 where
  pub nodes : List WorkflowyNode
  pub truncated : Bool
  pub limit : ℕ
  pub truncation_reason : Option TruncationReason
  pub truncated_at_node_id : Option Text
  pub skipped_branches : List Text

-- `n.priority.unwrap_or(i64::MIN)`
abbrev pub priority_key : WorkflowyNode → ℤ
priority_key n = elim n.priority [ none ↦ negsuc (2 ^ 63 - 1) | some p ↦ p ]

unfoldable pub sort_children_by_priority : List WorkflowyNode → List WorkflowyNode
unfolding sort_by
sort_children_by_priority children =
    sort_by (λ a b. leb_ℤ (priority_key a) (priority_key b)) children

-- The place of an id in the level above, the last of several.
unfoldable pub rank_from : ℕ → Text → List WorkflowyNode → Option ℕ
unfolding text_eq
rank_from i id [] = none
rank_from i id (n ∷ ns) =
    let later = rank_from (suc i) id ns in
    elim later [ some r ↦ some r | none ↦ if text_eq n.id id then some i else none ]

-- `usize::MAX` for a node whose parent is not in the level above
unfoldable pub rank_of : List WorkflowyNode → WorkflowyNode → ℕ
unfolding rank_from
rank_of parents n = elim n.parent_id [
  | none ↦ 2 ^ 64 - 1
  | some p ↦ elim (rank_from 0 p parents) [ none ↦ 2 ^ 64 - 1 | some r ↦ r ]
]

unfoldable pub order_level_by_parent : List WorkflowyNode → List WorkflowyNode → List WorkflowyNode
unfolding sort_by rank_of
order_level_by_parent level parents =
    if length level == 0 || ltb (length parents) 2
    then level
    else sort_by (λ a b. leb (rank_of parents a) (rank_of parents b)) level

-- What the walk asks of the rest of the client, with the walk's guard and deadline.
pub record Reads (W : Type 0) : Type 0 where
  pub get_node_cancellable : Text → Io W WorkflowyNode
  pub get_top_level_nodes_cancellable : Io W (List WorkflowyNode)
  pub get_children_cancellable : Text → Io W (List WorkflowyNode)
  -- the order in which the requests for these nodes end
  pub completion_order : List Text → W → List Text × W
  -- `rate_limit_posture().retry_after_remaining_ms`
  pub retry_after_remaining_ms : W → Option ℕ × W
  -- whether a wait ends before the deadline
  pub fits_budget : ℕ → W → Bool × W
  pub sleep : ℕ → W → W

-- What the loop over the fetches of a level leaves, with the parents that are not drained.
pub record Drained : Type 0 where
  pub next_level : List WorkflowyNode
  pub level_skipped : List Text
  pub stop : Option TruncationReason
  pub last_unfinished : Option Text
  pub pending_parents : List Text

-- The nodes of a walk, and how it ended.
pub record Walked : Type 0 where
  pub out : List WorkflowyNode
  pub outcome : TruncationOutcome

abbrev pub first_of : {A : Type 0} → List A → Option A
first_of [] = none
first_of (x ∷ xs) = some x

abbrev pub or_else : {A : Type 0} → Option A → Option A → Option A
or_else none b = b
or_else (some a) b = some a

abbrev pub first_parent : List WorkflowyNode → Option Text
first_parent [] = none
first_parent (n ∷ ns) = n.parent_id

module _ {W : Type 0} (reads : Reads W) (ctx : WorkflowContext W) (patient : Bool) (limit : ℕ) where
  unfoldable pub status : W → Option TruncationReason × W
  unfolding is_cancelled is_past_deadline
  status w =
      let (off, w₁) = is_cancelled ctx w in
      elim off [
        | true ↦ (some TruncationReason.cancelled, w₁)
        | false ↦
            let (late, w₂) = is_past_deadline ctx w₁ in
            elim late [ true ↦ (some TruncationReason.timeout, w₂) | false ↦ (none, w₂) ]
      ]

  -- The level goes to the nodes of the walk, up to the cap; with the parent of the first that does not fit.
  unfoldable pub push_level :
      List WorkflowyNode → List WorkflowyNode → List WorkflowyNode × Option (Option Text)
  push_level [] out = (out, none)
  push_level (n ∷ ns) out = elim (leb limit (length out)) [
    | true ↦ (out, some n.parent_id)
    | false ↦ push_level ns (out ++ n ∷ [])
  ]

  -- After one fetch: the cap, then the signals, then the next fetch.
  unfoldable pub drain_on :
      (List WorkflowyNode → List Text → W → Drained × W)
      → ℕ
      → List Text
      → List WorkflowyNode
      → List Text
      → W
      → Drained × W
  unfolding status
  drain_on again have pending next skipped w =
      let halt : TruncationReason → Drained = λ r. record {
        next_level = next;
        level_skipped = skipped;
        stop = some r;
        last_unfinished = none;
        pending_parents = pending;
      } in
      elim (leb limit (have + length next)) [
        | true ↦ (halt TruncationReason.node_limit, w)
        | false ↦
            let (signal, w') = status w in
            elim signal [ some r ↦ (halt r, w') | none ↦ again next skipped w' ]
      ]

  -- The loop over the fetches of a level, for as many nodes as the walk has.
  unfoldable pub drain : ℕ → List Text → List WorkflowyNode → List Text → W → Drained × W
  unfolding drain_on is_signal abort_reason
  drain have [] next skipped w = (
    record {
      next_level = next;
      level_skipped = skipped;
      stop = none;
      last_unfinished = none;
      pending_parents = [];
    },
    w,
  )
  drain have (id ∷ rest) next skipped w =
      let (r, w') = reads.get_children_cancellable id w in
      elim r [
        | ok children ↦ drain_on (drain have rest) have rest (next ++ children) skipped w'
        | err e ↦ elim (is_signal e) [
          | true ↦ (
            record {
              next_level = next;
              level_skipped = skipped;
              stop = some (abort_reason e);
              last_unfinished = some id;
              pending_parents = rest;
            },
            w',
          )
          | false ↦ drain_on (drain have rest) have rest next (skipped ++ id ∷ []) w'
        ]
      ]

  -- The loop of a wave of retries.
  unfoldable pub retry_fetches :
      List Text → List WorkflowyNode → List Text → W → (List WorkflowyNode × List Text) × W
  retry_fetches [] recovered failed w = ((recovered, failed), w)
  retry_fetches (id ∷ rest) recovered failed w =
      let (r, w') = reads.get_children_cancellable id w in
      elim r [
        | ok children ↦ retry_fetches rest (recovered ++ children) failed w'
        | err e ↦ retry_fetches rest recovered (failed ++ id ∷ []) w'
      ]

  unfoldable pub retry_now : List Text → W → (List WorkflowyNode × List Text) × W
  unfolding retry_fetches
  retry_now ids w = let (order, w') = reads.completion_order ids w in retry_fetches order [] [] w'

  unfoldable pub retry_skipped_branches : List Text → W → (List WorkflowyNode × List Text) × W
  unfolding status retry_now
  retry_skipped_branches ids w =
      let (signal, w₁) = status w in
      elim signal [
        | some _ ↦ (([], ids), w₁)
        | none ↦
            let (remaining, w₂) = reads.retry_after_remaining_ms w₁ in
            elim remaining [
              | none ↦ retry_now ids w₂
              | some ms ↦
                  let wait = ms + retry_window_wait_slack_ms in
                  let (fits, w₃) = reads.fits_budget wait w₂ in
                  elim fits [
                    | false ↦ (([], ids), w₃)
                    | true ↦
                        let (signal_now, w₄) = status (reads.sleep wait w₃) in
                        elim signal_now [ some _ ↦ (([], ids), w₄) | none ↦ retry_now ids w₄ ]
                  ]
            ]
      ]

  -- The waves of a patient walk; a wave that recovers nothing is the last.
  unfoldable pub recover_waves :
      ℕ → List WorkflowyNode → List Text → W → (List WorkflowyNode × List Text) × W
  unfolding status retry_skipped_branches
  recover_waves fuel recovered [] w = ((recovered, []), w)
  recover_waves zero recovered (id ∷ ids) w = ((recovered, id ∷ ids), w)
  recover_waves (suc fuel) recovered (id ∷ ids) w =
      let (signal, w₁) = status w in
      elim signal [
        | some _ ↦ ((recovered, id ∷ ids), w₁)
        | none ↦
            let ((more, still), w₂) = retry_skipped_branches (id ∷ ids) w₁ in
            elim (leb (length (id ∷ ids)) (length still)) [
              | true ↦ ((recovered ++ more, still), w₂)
              | false ↦ recover_waves fuel (recovered ++ more) still w₂
            ]
      ]

  -- Each wave but the last leaves fewer branches, so there are no more waves than branches.
  unfoldable pub recover_skipped_branches : List Text → W → (List WorkflowyNode × List Text) × W
  unfolding retry_skipped_branches recover_waves
  recover_skipped_branches ids w =
      let ((recovered, failed), w') = retry_skipped_branches ids w in
      elim patient [
        | false ↦ ((recovered, failed), w')
        | true ↦ recover_waves (length failed) recovered failed w'
      ]

  -- `if !level_skipped.is_empty()`
  unfoldable pub recover_level : List Text → W → (List WorkflowyNode × List Text) × W
  unfolding recover_skipped_branches
  recover_level [] w = (([], []), w)
  recover_level (id ∷ ids) w = recover_skipped_branches (id ∷ ids) w

  -- Where the level is not to be descended from.
  unfoldable pub last_level : List WorkflowyNode → List WorkflowyNode → List Text → Walked
  unfolding with_skipped
  last_level level out skipped =
      let remaining = limit - length out in
      let anchor : Option Text = elim (get_elem? level remaining) [
        | none ↦ none
        | some n ↦ n.parent_id
      ] in
      if ltb remaining (length level)
      then record {
        out = out ++ take remaining level;
        outcome = with_skipped (stopped TruncationReason.node_limit anchor) skipped;
      }
      else record { out = out ++ level; outcome = with_skipped complete skipped }

  -- A stop within a level.
  unfoldable pub cut_level :
      TruncationReason → Drained → List WorkflowyNode → List WorkflowyNode → List Text → Walked
  unfolding with_skipped order_level_by_parent
  cut_level reason d level out skipped =
      let anchor =
        or_else d.last_unfinished
          (or_else (first_of d.pending_parents) (first_of (map (λ n. n.id) level))) in
      record {
        out = out ++ take (limit - length out) (order_level_by_parent d.next_level level);
        outcome = with_skipped (stopped reason anchor) (skipped ++ d.level_skipped);
      }

  -- The loop over the levels, for as many as are left to the greatest depth.
  unfoldable pub fetch_descendants :
      ℕ → List WorkflowyNode → List WorkflowyNode → List Text → W → Walked × W
  unfolding last_level push_level status drain cut_level recover_level order_level_by_parent
  fetch_descendants zero level out skipped w = (last_level level out skipped, w)
  fetch_descendants (suc left) [] out skipped w = (last_level [] out skipped, w)
  fetch_descendants (suc left) (n ∷ ns) out skipped w =
      let level = n ∷ ns in
      let (pushed, overflow) = push_level level out in
      elim overflow [
        | some anchor ↦
            (record { out = pushed; outcome = stopped TruncationReason.node_limit anchor }, w)
        | none ↦
            let (signal, w₁) = status w in
            elim signal [
              | some r ↦ (record { out = pushed; outcome = stopped r n.parent_id }, w₁)
              | none ↦
                  let (order, w₂) = reads.completion_order (map (λ v. v.id) level) w₁ in
                  let (d, w₃) = drain (length pushed) order [] [] w₂ in
                  elim d.stop [
                    | some r ↦ (cut_level r d level pushed skipped, w₃)
                    | none ↦
                        let ((recovered, still), w₄) = recover_level d.level_skipped w₃ in
                        fetch_descendants left
                          (order_level_by_parent (d.next_level ++ recovered) level) pushed
                          (skipped ++ still) w₄
                  ]
            ]
      ]

  -- The result of the walk that has these nodes and ended so.
  unfoldable pub fetched : Walked → SubtreeFetch
  fetched done = record {
    nodes = done.out;
    truncated =
        elim done.outcome.reason [ none ↦ false | some _ ↦ true ]
        || elim done.outcome.skipped_branches [ [] ↦ false | id ∷ ids ↦ true ];
    limit = limit;
    truncation_reason = done.outcome.reason;
    truncated_at_node_id = done.outcome.truncated_at_node_id;
    skipped_branches = done.outcome.skipped_branches;
  }

  abbrev pub ended : List WorkflowyNode → TruncationReason → Option Text → SubtreeFetch
  unfolding fetched
  ended nodes reason anchor = fetched record { out = nodes; outcome = stopped reason anchor }

  -- The children of the root, or the top level, and what is below them.
  unfoldable pub descend_from :
      ℕ → Io W (List WorkflowyNode) → Option Text → List WorkflowyNode → Io W SubtreeFetch
  unfolding fetch_descendants fetched is_signal abort_reason
  descend_from max_depth get anchor nodes w =
      let (r, w') = get w in
      elim r [
        | ok level ↦
            let (done, w₁) = fetch_descendants max_depth level nodes [] w' in
            (ok (fetched done), w₁)
        | err e ↦ elim (is_signal e) [
          | true ↦ (ok (ended nodes (abort_reason e) anchor), w')
          | false ↦ (err e, w')
        ]
      ]

  unfoldable pub get_subtree_with_controls : Option Text → ℕ → Io W SubtreeFetch
  unfolding status descend_from is_signal abort_reason fetched
  get_subtree_with_controls root_id max_depth w =
      let (signal, w₁) = status w in
      elim signal [
        | some r ↦ (ok (ended [] r root_id), w₁)
        | none ↦ elim root_id [
          | none ↦ descend_from max_depth reads.get_top_level_nodes_cancellable none [] w₁
          | some id ↦
              let (found, w₂) = reads.get_node_cancellable id w₁ in
              elim found [
                | err e ↦ elim (is_signal e) [
                  | true ↦ (ok (ended [] (abort_reason e) (some id)), w₂)
                  | false ↦ (err e, w₂)
                ]
                | ok root ↦ elim (leb limit 1) [
                  | true ↦ (ok (ended (root ∷ []) TruncationReason.node_limit (some id)), w₂)
                  | false ↦
                      let (signal_now, w₃) = status w₂ in
                      elim signal_now [
                        | some r ↦ (ok (ended (root ∷ []) r (some id)), w₃)
                        | none ↦
                            descend_from max_depth (reads.get_children_cancellable id) (some id)
                              (root ∷ []) w₃
                      ]
                ]
              ]
        ]
      ]
