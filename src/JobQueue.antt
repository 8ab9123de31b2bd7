-- ===== src/JobQueue.antt =====
-- The background job queue (utils/job_queue.rs). The map of jobs is under a lock, which every operation
-- holds from its first read to its last write. The clock counts milliseconds; the ids of new jobs, the
-- progress numbers with their clamp, and the time of a call are arguments. A tick of the cleanup task is
-- one call of `cleanup`; the channel that `submit` sends to keeps the ids in their order.
pub mod History
use workflowy_mcp.Base.{
  ℕ, ◌-◌, ◌/◌, Bool, true, false, Option, none, some, List, [], ◌∷◌, ◌++◌, map, Text, ascii,
  text_eq, Dict, lookup, erase, insert, retain, remove_keys, sort_by_key, length, take, ltb, leb,
  if◌then◌else◌,
}
use workflowy_mcp.Error.{WorkflowyError, job_failed, Result, ok, err}

pub data JobStatus : Type 0 where
  pending running completed failed cancelled : JobStatus

pub record JobQueueConfig : Type 0 where
  pub completed_job_ttl_secs : ℕ
  pub max_job_history : ℕ
  pub cleanup_interval_secs : ℕ

pub record Job (P : Type 0) : Type 0 where
  pub id : Text
  pub status : JobStatus
  pub created_at : ℕ
  pub completed_at : Option ℕ
  pub error : Option Text
  pub progress : Option P

pub record JobQueue (P : Type 0) : Type 0 where
  pub config : JobQueueConfig
  pub jobs : Dict (Job P)
  pub sent : List Text

-- `matches!(j.status, JobStatus::Completed | JobStatus::Failed | JobStatus::Cancelled)`
unfoldable pub is_finished : JobStatus → Bool
is_finished completed = true
is_finished failed = true
is_finished cancelled = true
is_finished _ = false

module _ {P : Type 0} where
  abbrev pub new_queue : JobQueueConfig → JobQueue P
  new_queue config = record { config = config; jobs = []; sent = [] }

  -- with the new id and the time
  unfoldable pub submit : Text → ℕ → JobQueue P → JobQueue P
  unfolding insert
  submit job_id now queue =
      let job : Job P = record {
        id = job_id;
        status = pending;
        created_at = now;
        completed_at = none;
        error = none;
        progress = none;
      } in
      record queue { jobs = insert job_id job queue.jobs; sent = queue.sent ++ job_id ∷ [] }

  unfoldable pub get_job : Text → JobQueue P → Option (Job P)
  unfolding lookup
  get_job job_id queue = lookup job_id queue.jobs

  unfoldable pub get_status : Text → JobQueue P → Option JobStatus
  unfolding lookup
  get_status job_id queue = elim (lookup job_id queue.jobs) [ none ↦ none | some j ↦ some j.status ]

  -- `if let Some(job) = jobs.get_mut(id)`
  unfoldable pub update_job : (Job P → Job P) → Text → JobQueue P → JobQueue P
  unfolding lookup insert
  update_job change job_id queue = elim (lookup job_id queue.jobs) [
    | none ↦ queue
    | some job ↦ record queue { jobs = insert job_id (change job) queue.jobs }
  ]

  unfoldable pub update_progress :
      (clamp : P → P) → Text → P → JobQueue P → Result (Unit {0}) × JobQueue P
  unfolding lookup update_job ascii
  update_progress clamp job_id progress queue = elim (lookup job_id queue.jobs) [
    | none ↦ (err (job_failed job_id (ascii "Job not found")), queue)
    | some _ ↦
        (ok tt, update_job (λ job. record job { progress = some (clamp progress) }) job_id queue)
  ]

  -- with the number 1.0
  unfoldable pub complete : P → Text → ℕ → JobQueue P → JobQueue P
  unfolding update_job
  complete one job_id now queue =
      update_job
        (λ job. record job { status = completed; completed_at = some now; progress = some one })
        job_id queue

  unfoldable pub fail : Text → Text → ℕ → JobQueue P → JobQueue P
  unfolding update_job
  fail job_id error now queue =
      update_job
        (λ job. record job { status = failed; completed_at = some now; error = some error }) job_id
        queue

  unfoldable pub cancel : Text → ℕ → JobQueue P → JobQueue P
  unfolding update_job
  cancel job_id now queue =
      update_job (λ job. record job { status = cancelled; completed_at = some now }) job_id queue

  -- `j.completed_at.unwrap_or(j.created_at)`
  abbrev pub end_time : Job P → ℕ
  end_time j = elim j.completed_at [ none ↦ j.created_at | some t ↦ t ]

  abbrev pub finished_jobs : Dict (Job P) → Dict (Job P)
  unfolding retain is_finished
  finished_jobs jobs = retain (λ _ j. is_finished j.status) jobs

  -- A completion time in the future has no age.
  unfoldable pub is_expired : ℕ → ℕ → Job P → Bool
  is_expired ttl_secs now j = elim j.completed_at [
    | none ↦ false
    | some t ↦ if leb t now then ltb ttl_secs ((now - t) / 1000) else false
  ]

  -- The jobs that a tick removes: over the limit the oldest finished ones, else those past their time.
  unfoldable pub to_remove : JobQueueConfig → ℕ → Dict (Job P) → Dict (Job P)
  unfolding retain is_finished sort_by_key is_expired
  to_remove config now jobs =
      let completed_count = length (finished_jobs jobs) in
      if ltb config.max_job_history completed_count
      then take (completed_count - config.max_job_history)
          (sort_by_key end_time (finished_jobs jobs))
      else retain (λ _ j. is_expired config.completed_job_ttl_secs now j) jobs

  -- One tick of the cleanup task.
  unfoldable pub cleanup : ℕ → JobQueue P → JobQueue P
  unfolding to_remove remove_keys
  cleanup now queue = record queue {
    jobs = remove_keys (to_remove queue.config now queue.jobs) queue.jobs;
  }
