-- ===== src/Tests/Logs.antt =====
-- The theorems on the operation log at concrete inputs.
use workflowy_mcp.Base.{
  ℕ, ◌+◌, ◌≤◌, ◌<◌, ◌≡◌, ◌⊎◌, refl, true, none, some, [], ◌∷◌, Text, ascii, length,
}
use workflowy_mcp.OpLog.{OpLog, OpLogEntry, ok, err, max_error_len, with_capacity, bounded_error}
use workflowy_mcp.OpLog.Window.{Holds, append_all, append_all-window}
use workflowy_mcp.OpLog.Utf8.{utf8, trailing, bounded_error_lem}

abbrev done_at : ℕ → OpLogEntry
done_at t = record {
  tool = b's' ∷ [];
  params_hash = [];
  started_at_unix_ms = t;
  finished_at_unix_ms = t;
  duration_ms = 0;
  status = ok;
  error = none;
}

abbrev failed_at : ℕ → OpLogEntry
failed_at t = record (done_at t) { tool = b'f' ∷ []; status = err; error = some [] }

append_all-window_example :
    Holds 2
      (append_all (with_capacity 2) (failed_at 1 ∷ done_at 2 ∷ failed_at 3 ∷ []))
      (failed_at 1 ∷ done_at 2 ∷ failed_at 3 ∷ [])
append_all-window_example = append_all-window 2 (failed_at 1 ∷ done_at 2 ∷ failed_at 3 ∷ [])

-- The newest failure, of tool "f", before a success of tool "s".
abbrev small_log : OpLog
small_log = record { entries = failed_at 1 ∷ done_at 2 ∷ []; capacity = 2; seq = 2 }

abbrev oops : Text
unfolding ascii
oops = ascii "oops"

oops-utf8 : utf8 0 oops ≡ true
unfolding utf8 trailing oops
oops-utf8 = refl

bounded_error_lem_example :
    (utf8 0 (bounded_error oops) ≡ true)
    × (length (bounded_error oops) ≤ max_error_len + 14)
    × ((bounded_error oops ≡ oops) ⊎ (max_error_len < length oops))
bounded_error_lem_example = bounded_error_lem oops oops-utf8
