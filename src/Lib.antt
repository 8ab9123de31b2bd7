-- ===== src/Lib.antt =====
-- The verification library of workflowyMCP, a server and a command line for Workflowy outlines.
--
-- The program keeps local state (a name index, a node cache, an operation log, idempotency keys) and runs
-- workflows over the HTTP client of the Workflowy API: transactions with rollback, insertion of indented
-- text, reordering of siblings, copies of subtrees, mirrors.
-- A workflow calls the client, polls its context for a cancel or a deadline, and hands a footprint of
-- what it changed to the caches.
--
-- The files and the code they model:
--   Base          text as the bytes of its UTF-8 form, maps as association lists, numbers: the Rust
--                 standard library as far as the program calls it. A number is native; a fixed width
--                 is written out where the code can reach it.
--   OpLog         src/utils/op_log.rs: with_capacity, append, recent, last_failure,
--                 last_unrecovered_failure, finish_ok and finish_err. OpLog/Window, OpLog/Failures and
--                 OpLog/Utf8 hold the proofs.
--   ErrorClass    src/utils/error_class.rs: as_str and is_retryable are cause_as_str and is_retryable_cause.
--   Error, Types  src/error.rs and the records of src/types.rs; an operation of the client is a function
--                 from the world to a result and the world after it.
--   Context       WorkflowContext of src/workflows.rs. A poll may move the world on.
--   Client        the operations of src/api/client.rs that the workflows call, as a record: the workflows
--                 are proved for every client, and a law of the upstream is a named hypothesis.
--                 Client/Walk is get_subtree_with_controls with fetch_descendants and the recovery of
--                 dropped branches; the order in which the concurrent requests of a level end is an
--                 argument. Client/Propagation is the retries for propagation lag and move_node;
--                 Client/Posture is stamp_rate_limited, rate_limit_posture and rate_limit_window_error.
--   Workflows     MutationFootprint of src/workflows.rs. Workflows/Transaction is run_transaction with
--                 apply_txn_step (one function for each kind) and run_txn_inverse; Workflows/Insert is
--                 insert_content_via_indented and parse_indented_content; Workflows/Reorder is
--                 reorder_nodes_via_priority; Workflows/Bulk is apply_bulk_op, where
--                 BulkOp::parse and as_str are parse_bulk_op and bulk_op_as_str; Workflows/Mirror is
--                 create_mirror_via_convention and its dry run; Workflows/Chain is walk_parent_chain;
--                 Workflows/Copy is deep_copy_subtree, duplicate_subtree and instantiate_template. Their
--                 children hold the proofs; Workflows/Creates is the trace of the creates that a workflow
--                 asks for between its polls.
--   NameIndex     src/utils/name_index.rs: the four maps, ingest, remove_locked, invalidate_node, clear,
--                 lookup_entry_by_id, resolve_short_hash; NameIndex/Disk is merge_from_disk and
--                 load_from_disk. NameIndex/Hashes, Entries, Valid and Ingest keep the invariant, and
--                 Reachable, Lookup and Merge state what it gives. NameIndex/Exclude is excluded_ids,
--                 NameIndex/Save is snapshot and save_to_disk, NameIndex/Search is lookup (as
--                 lookup_names), entries_modified_since, path_of and is_descendant_of.
--   NodeCache     src/utils/cache.rs: insert (as insert_node), get, children_listing and its insertion, the
--                 invalidations of a listing, of a node and of a subtree.
--   Retry         request_cancellable of src/api/client.rs, the loop around one HTTP call, over a record of
--                 what the loop calls.
--   Cancel        src/utils/cancel.rs.
--   Idempotency   src/utils/idempotency.rs: check, and record as record_create.
--   JobQueue      src/utils/job_queue.rs; a tick of start_cleanup_task is cleanup.
--   Tests         small worlds, and the theorems at concrete inputs.
--
-- Bounds and fuel: a loop that is modelled is recursion on a list, on the depth that it counts up to or on
-- the index it counts down, but for these. The retry loop runs on fuel, and the configured number of
-- attempts is enough; the walk of the excluded ids has fuel for three visits of each node, which is enough;
-- the waves of a patient walk have one for each branch, and each wave but the last leaves fewer; the queue
-- of a copy has the number of nodes it makes, and the invalidation of a subtree the number of ids in it,
-- where the parents form no cycle; the decimal print of a
-- number has one digit more than it can need. The caps are those of the code: 512 bytes of error text,
-- 80 lines, 200 ids, 32 hops to an ancestor, a 32-bit count that saturates, a 64-bit generation that wraps.
--
-- Not modelled: search_tokens, the audit of mirrors, the link parser, the walks of utils/subtree.rs,
-- aggregation, validation, the HTTP client itself and its rate limiter, the server's tool
-- handlers and the command line, which parse parameters and print JSON, the regular expressions of tags
-- and display text (render_display is a parameter), Unicode lowering (to_lowercase is a parameter), the
-- locks (a method is one step), the clock and the file system (a file is what reading it gives),
-- for which the duration of an operation is taken between time stamps in whole milliseconds: the code
-- subtracts the times first, at most one millisecond apart from that.
pub mod Base
pub mod OpLog
pub mod Error
pub mod ErrorClass
pub mod Types
pub mod Context
pub mod Client
pub mod NameIndex
pub mod Retry
pub mod NodeCache
pub mod Cancel
pub mod Idempotency
pub mod JobQueue
pub mod Workflows
pub mod Tests
