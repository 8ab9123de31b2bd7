-- ===== src/JobQueue/History.antt =====
-- The history of the job queue (utils/job_queue.rs): what a tick of the cleanup task removes.
use mathlib.Core.Path.{subst}
use workflowy_mcp.Base.{
  Option, if◌then◌else◌, ℕ, ◌-◌, ◌≤◌, ◌≡◌, refl, sym, ap, ◌∙◌, Bool, true, false, none, some, List,
  [], ◌∷◌, Text, text_eq, text_eq_iff, Dict, lookup, erase, insert, retain, contains_key, keep_if,
  Distinct, Distinct-insert, Distinct-erase, Distinct-retain, lookup-insert, lookup-retain,
  length-erase-le, length-remove_oldest, lookup-remove_keys, lookup-sort_by_key, lookup-take,
  remove_oldest_lem, remove_keys, sort_by_key, length, take, ltb, Bool-cases, Option-cases, inl,
  inr, arith,
}
use workflowy_mcp.JobQueue.{
  Job, JobQueue, JobQueueConfig, new_queue, submit, update_job, update_progress, complete, fail,
  cancel, cleanup, to_remove, finished_jobs, is_finished, is_expired, end_time,
}

retain-erase {ℓ} :
    {V : Type ℓ} (p : Text → V → Bool) (k : Text) (m : Dict V)
    → retain p (erase k m) ≡ erase k (retain p m)
unfolding retain erase
retain-erase p k [] = refl
retain-erase p k ((i, v) ∷ m) = ground (arith, retain-erase p k m)

retain-remove_keys {ℓ} :
    {V : Type ℓ} (p : Text → V → Bool) (xs m : Dict V)
    → retain p (remove_keys xs m) ≡ remove_keys xs (retain p m)
unfolding remove_keys
retain-remove_keys p [] m = refl
retain-remove_keys p ((k, v) ∷ xs) m =
    retain-remove_keys p xs (erase k m) ∙ ap (remove_keys xs) (retain-erase p k m)

length-remove_keys-le {ℓ} : {V : Type ℓ} (xs m : Dict V) → length (remove_keys xs m) ≤ length m
unfolding remove_keys
length-remove_keys-le [] m = omega arith
length-remove_keys-le ((k, v) ∷ xs) m =
    omega (arith, length-remove_keys-le xs (erase k m), length-erase-le k m)

Distinct-remove_keys {ℓ} : {V : Type ℓ} (xs m : Dict V) → Distinct m → Distinct (remove_keys xs m)
unfolding remove_keys
Distinct-remove_keys [] m d = d
Distinct-remove_keys ((k, v) ∷ xs) m d = Distinct-remove_keys xs (erase k m) (Distinct-erase k m d)

module _ {P : Type 0} where
  abbrev has_ended : Job P → Bool
  has_ended j = elim j.completed_at [ none ↦ false | some _ ↦ true ]

  -- A map with one job for each id, of which those that are finished have a completion time.
  pub record IsKept (queue : JobQueue P) : Type 0 where
    pub distinct : Distinct queue.jobs
    pub timed :
        (k : Text) (j : Job P)
        → lookup k queue.jobs ≡ some j
        → (has_ended j ≡ is_finished j.status) × (j.id ≡ k)

  -- The states that the operations and the ticks reach.
  pub data Reachable : JobQueue P → Type 0 where
    started : (config : JobQueueConfig) → Reachable (new_queue config)
    submitted :
        (id : Text) (now : ℕ) (queue : JobQueue P)
        → Reachable queue
        → Reachable (submit id now queue)
    progressed :
        (clamp : P → P) (id : Text) (progress : P) (queue : JobQueue P)
        → Reachable queue
        → Reachable (update_progress clamp id progress queue).1
    completed_one :
        (one : P) (id : Text) (now : ℕ) (queue : JobQueue P)
        → Reachable queue
        → Reachable (complete one id now queue)
    failed_one :
        (id error : Text) (now : ℕ) (queue : JobQueue P)
        → Reachable queue
        → Reachable (fail id error now queue)
    cancelled_one :
        (id : Text) (now : ℕ) (queue : JobQueue P)
        → Reachable queue
        → Reachable (cancel id now queue)
    cleaned : (now : ℕ) (queue : JobQueue P) → Reachable queue → Reachable (cleanup now queue)

  IsKept-insert :
      (k : Text) (job : Job P) (queue : JobQueue P) (sent : List Text)
      → (has_ended job ≡ is_finished job.status) × (job.id ≡ k)
      → IsKept queue
      → IsKept record queue { jobs = insert k job queue.jobs; sent = sent }
  IsKept-insert k job queue sent good h = record {
    distinct = Distinct-insert k job queue.jobs h.distinct;
    timed = λ i j found. elim (Bool-cases (text_eq k i)) [
      | inl same ↦
          let equal : k ≡ i = ground (arith, same, text_eq_iff k i) in
          let made : job ≡ j = ground (arith, found, same, lookup-insert k i job queue.jobs) in
          (
            subst (λ x. has_ended x ≡ is_finished x.status) made good.0,
            ap (λ x. x.id) (sym made) ∙ good.1 ∙ equal,
          )
      | inr other ↦ h.timed i j (ground (arith, found, other, lookup-insert k i job queue.jobs))
    ];
  }

  IsKept-update_job :
      (change : Job P → Job P) (k : Text) (queue : JobQueue P)
      → ((j : Job P)
          → has_ended j ≡ is_finished j.status
          → (has_ended (change j) ≡ is_finished (change j).status) × ((change j).id ≡ j.id))
      → IsKept queue
      → IsKept (update_job change k queue)
  unfolding update_job
  IsKept-update_job change k queue good h = elim (Option-cases (lookup k queue.jobs)) [
    | inl e ↦ rw (e, update_job) h
    | inr (job, e) ↦
        let (ended, named) = h.timed k job e in
        let (still, same) = good job ended in
        rw (e, update_job) (IsKept-insert k (change job) queue queue.sent (still, same ∙ named) h)
  ]

  IsKept-cleanup : (now : ℕ) (queue : JobQueue P) → IsKept queue → IsKept (cleanup now queue)
  unfolding cleanup contains_key
  IsKept-cleanup now queue h =
      let gone = to_remove queue.config now queue.jobs in
      record {
        distinct = Distinct-remove_keys gone queue.jobs h.distinct;
        timed =
            λ k j found. h.timed k j (ground (arith, found, lookup-remove_keys k gone queue.jobs));
      }

  pub Reachable-IsKept : (queue : JobQueue P) → Reachable queue → IsKept queue
  unfolding submit update_progress complete fail cancel is_finished lookup
  Reachable-IsKept _ (started config) = record { distinct = tt; timed = λ k j h. cc h }
  Reachable-IsKept _ (submitted id now queue r) =
      IsKept-insert id _ queue _ (refl, refl) (Reachable-IsKept queue r)
  Reachable-IsKept _ (progressed clamp id progress queue r) =
      let h = Reachable-IsKept queue r in
      elim (Option-cases (lookup id queue.jobs)) [
        | inl e ↦ rw (e, update_progress) h
        | inr (job, e) ↦
            rw (e, update_progress) (IsKept-update_job _ id queue (λ j ended. (ended, refl)) h)
      ]
  Reachable-IsKept _ (completed_one one id now queue r) =
      IsKept-update_job _ id queue (λ j ended. (refl, refl)) (Reachable-IsKept queue r)
  Reachable-IsKept _ (failed_one id error now queue r) =
      IsKept-update_job _ id queue (λ j ended. (refl, refl)) (Reachable-IsKept queue r)
  Reachable-IsKept _ (cancelled_one id now queue r) =
      IsKept-update_job _ id queue (λ j ended. (refl, refl)) (Reachable-IsKept queue r)
  Reachable-IsKept _ (cleaned now queue r) = IsKept-cleanup now queue (Reachable-IsKept queue r)

  finished_count-cleanup :
      (now : ℕ) (queue : JobQueue P)
      → Distinct queue.jobs
      → length (finished_jobs (cleanup now queue).jobs) ≤ queue.config.max_job_history
  unfolding cleanup to_remove
  finished_count-cleanup now queue d =
      let done = finished_jobs queue.jobs in
      let count = length done in
      let limit = queue.config.max_job_history in
      let oldest = take (count - limit) (sort_by_key end_time done) in
      elim (Bool-cases (ltb limit count)) [
        | inl over ↦ rw over (
            omega (
              arith,
              ap (length {A = Text × Job P})
                  (retain-remove_keys (λ _ j. is_finished j.status) oldest queue.jobs),
              length-remove_oldest end_time (count - limit) done
                  (Distinct-retain (λ _ j. is_finished j.status) queue.jobs d) (omega arith),
            ))
        | inr under ↦
            let expired =
              retain (λ _ j. is_expired queue.config.completed_job_ttl_secs now j) queue.jobs in
            rw under (
              ground (
                arith,
                under,
                ap (length {A = Text × Job P})
                    (retain-remove_keys (λ _ j. is_finished j.status) expired queue.jobs),
                length-remove_keys-le expired done,
              ))
      ]

  unfinished_kept :
      (now : ℕ) (queue : JobQueue P) (k : Text) (j : Job P)
      → IsKept queue
      → lookup k queue.jobs ≡ some j
      → is_finished j.status ≡ false
      → lookup k (cleanup now queue).jobs ≡ some j
  unfolding cleanup to_remove contains_key keep_if is_expired
  unfinished_kept now queue k j h found open_still =
      let done = finished_jobs queue.jobs in
      let count = length done in
      let limit = queue.config.max_job_history in
      let ttl = queue.config.completed_job_ttl_secs in
      let sorted = sort_by_key end_time done in
      let oldest = take (count - limit) sorted in
      let (ended, _) = h.timed k j found in
      elim (Bool-cases (ltb limit count)) [
        | inl over ↦
            let absent : lookup k done ≡ none =
              lookup-retain (λ _ x. is_finished x.status) k queue.jobs h.distinct
              ∙ rw (found, keep_if, open_still) in
            let unsorted : lookup k sorted ≡ none =
              lookup-sort_by_key end_time k done
                (Distinct-retain (λ _ x. is_finished x.status) queue.jobs h.distinct)
              ∙ absent in
            rw over (
              lookup-remove_keys k oldest queue.jobs
              ∙ rw (lookup-take k (count - limit) sorted unsorted, contains_key) found)
        | inr under ↦
            let expired = retain (λ _ x. is_expired ttl now x) queue.jobs in
            let unexpired : is_expired ttl now j ≡ false = ground (arith, ended, open_still) in
            let absent : lookup k expired ≡ none =
              lookup-retain (λ _ x. is_expired ttl now x) k queue.jobs h.distinct
              ∙ rw (found, keep_if, unexpired) in
            rw under (lookup-remove_keys k expired queue.jobs ∙ rw (absent, contains_key) found)
      ]

  -- The job, unless it is finished.
  abbrev pub unfinished : Option (Job P) → Option (Job P)
  unfolding is_finished
  unfinished none = none
  unfinished (some j) = if is_finished j.status then none else some j

  -- After a tick in a reachable queue there are no more finished jobs than the history may have; and under
  -- every key the jobs that are not finished are the same as before.
  pub cleanup-keeps :
      (now : ℕ) (queue : JobQueue P) (k : Text)
      → Reachable queue
      → (length (finished_jobs (cleanup now queue).jobs) ≤ queue.config.max_job_history)
        × (unfinished (lookup k (cleanup now queue).jobs) ≡ unfinished (lookup k queue.jobs))
  unfolding cleanup contains_key
  cleanup-keeps now queue k r =
      let h = Reachable-IsKept queue r in
      let left = lookup-remove_keys k (to_remove queue.config now queue.jobs) queue.jobs in
      (
        finished_count-cleanup now queue h.distinct,
        elim (Option-cases (lookup k queue.jobs)) [
          | inl absent ↦ ground (arith, absent, left)
          | inr (j, found) ↦ elim (Bool-cases (is_finished j.status)) [
            | inl over ↦ ground (arith, found, over, left)
            | inr open_still ↦
                ap unfinished (unfinished_kept now queue k j h found open_still ∙ sym found)
          ]
        ],
      )

  lookup-finished :
      (m : Dict (Job P)) (k : Text) (j : Job P)
      → Distinct m
      → lookup k m ≡ some j
      → is_finished j.status ≡ true
      → lookup k (finished_jobs m) ≡ some j
  unfolding keep_if finished_jobs
  lookup-finished m k j d found finished =
      lookup-retain (λ _ x. is_finished x.status) k m d ∙ rw (found, keep_if, finished)

  -- Over the limit, a tick in a reachable queue leaves no finished job that ended before one it removed.
  pub cleanup-oldest_first :
      (now : ℕ) (queue : JobQueue P) (k l : Text) (gone left : Job P)
      → Reachable queue
      → ltb queue.config.max_job_history (length (finished_jobs queue.jobs)) ≡ true
      → lookup k queue.jobs ≡ some gone
      → is_finished gone.status ≡ true
      → lookup k (cleanup now queue).jobs ≡ none
      → lookup l (cleanup now queue).jobs ≡ some left
      → is_finished left.status ≡ true
      → end_time gone ≤ end_time left
  unfolding cleanup to_remove contains_key
  cleanup-oldest_first now queue k l gone left r over at_k gone_finished removed at_l
        left_finished =
      let h = Reachable-IsKept queue r in
      let done = finished_jobs queue.jobs in
      let n = length done - queue.config.max_job_history in
      let oldest = take n (sort_by_key end_time done) in
      let d = Distinct-retain (λ _ j. is_finished j.status) queue.jobs h.distinct in
      let at_k' : lookup k (remove_keys oldest queue.jobs) ≡ none = rw over at removed in
      let at_l' : lookup l (remove_keys oldest queue.jobs) ≡ some left = rw over at at_l in
      remove_oldest_lem end_time n done k l gone left d
        (lookup-finished queue.jobs k gone h.distinct at_k gone_finished)
        (ground (
          arith,
          at_k,
          at_k',
          lookup-remove_keys k oldest queue.jobs,
          lookup-remove_keys k oldest done,
        ))
        (ground (
          arith,
          at_l',
          lookup-remove_keys l oldest queue.jobs,
          lookup-remove_keys l oldest done,
          lookup-finished queue.jobs l left h.distinct,
        ))
