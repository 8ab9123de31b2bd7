-- ===== src/OpLog/Failures.antt =====
-- What last_failure and last_unrecovered_failure of utils/op_log.rs report.
use workflowy_mcp.Base.{suc, ◌≡◌, ◌≢◌, refl, ap, List, [], ◌∷◌, ◌++◌, length, All}
use workflowy_mcp.OpLog.{OpLog, OpLogEntry, ok, err}

-- `xs`, newest first, splits at its newest failure `e`: everything newer succeeded, and nothing newer
-- is a success of the tool that failed.
pub record IsOpenFailure (e : OpLogEntry) (xs : List OpLogEntry) : Type 0 where
  pub newer : List OpLogEntry
  pub older : List OpLogEntry
  pub split : xs ≡ newer ++ e ∷ older
  pub failed : e.status ≡ err
  pub clean : All (λ x. (x.status ≡ ok) × (x.tool ≢ e.tool)) newer

length-snoc : (xs : List OpLogEntry) (x : OpLogEntry) → length (xs ++ x ∷ []) ≡ suc (length xs)
length-snoc [] x = refl
length-snoc (y ∷ ys) x = ap suc (length-snoc ys x)

-- `xs`, newest first, splits at its newest failure `e`.
record IsNewestFailure (e : OpLogEntry) (xs : List OpLogEntry) : Type 0 where
  newer : List OpLogEntry
  older : List OpLogEntry
  split : xs ≡ newer ++ e ∷ older
  failed : e.status ≡ err
  succeeded : All (λ x. x.status ≡ ok) newer
