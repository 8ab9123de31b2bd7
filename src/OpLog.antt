-- ===== src/OpLog.antt =====
-- The operation log (utils/op_log.rs): a ring buffer of tool invocations, oldest first.
-- The clock is an argument: a recorder holds its start, and the finish time is handed in. The usage
-- log that finish_inner also writes to is file output and is not modelled.
pub mod Window
pub mod Failures
pub mod Utf8
use workflowy_mcp.Base.{
  ℕ, zero, suc, ◌+◌, ◌-◌, ◌%◌, ◌^◌, ◌≤◌, ◌<◌, max, ◌≡◌, Bool, true, false, not, ◌&&◌, ◌||◌, Option,
  none, some, List, [], ◌∷◌, ◌++◌, reverse, length, take, drop, get_elem?, filter, find, any, Text,
  ascii, text_eq, is_continuation, ltb, leb, ◌==◌, if◌then◌else◌,
}

pub data OpStatus : Type 0 where
  ok err : OpStatus

pub record OpLogEntry : Type 0 where
  pub tool : Text
  pub params_hash : Text
  pub started_at_unix_ms : ℕ
  pub finished_at_unix_ms : ℕ
  pub duration_ms : ℕ
  pub status : OpStatus
  pub error : Option Text

pub record OpLog : Type 0 where
  pub entries : List OpLogEntry
  pub capacity : ℕ
  pub seq : ℕ

abbrev pub max_error_len : ℕ
max_error_len = 512

unfoldable pub with_capacity : ℕ → OpLog
with_capacity capacity = record { entries = []; capacity = max capacity 1; seq = 0 }

-- `pop_front` if the buffer is full, `push_back`, and a wrapping 64-bit count
unfoldable pub append : OpLog → OpLogEntry → OpLog
append log entry =
    let kept = if length log.entries == log.capacity then drop 1 log.entries else log.entries in
    record log { entries = kept ++ entry ∷ []; seq = (log.seq + 1) % 2 ^ 64 }

unfoldable pub is_since : Option ℕ → OpLogEntry → Bool
is_since none e = true
is_since (some since) e = leb since e.finished_at_unix_ms

unfoldable pub recent : OpLog → ℕ → Option ℕ → List OpLogEntry
unfolding is_since
recent log limit since = take limit (filter (is_since since) (reverse log.entries))

unfoldable pub is_err : OpLogEntry → Bool
is_err e = elim e.status [ ok ↦ false | err ↦ true ]

unfoldable pub last_failure : OpLog → Option OpLogEntry
unfolding is_err
last_failure log = find is_err (reverse log.entries)

-- `iter().position(p)`
unfoldable pub position : (OpLogEntry → Bool) → List OpLogEntry → Option ℕ
position p [] = none
position p (e ∷ es) =
    let later : Option ℕ = elim (position p es) [ none ↦ none | some i ↦ some (suc i) ] in
    if p e then some 0 else later

unfoldable pub recovers : Text → OpLogEntry → Bool
unfolding is_err
recovers tool e = text_eq e.tool tool && not (is_err e)

-- the part of last_unrecovered_failure behind the snapshot, newest entry first
unfoldable pub unrecovered_in : List OpLogEntry → Option OpLogEntry
unfolding position recovers
unrecovered_in newest = elim (position is_err newest) [
  | none ↦ none
  | some fail_idx ↦ elim (get_elem? newest fail_idx) [
    | none ↦ none
    | some last_fail ↦
        if any (recovers last_fail.tool) (take fail_idx newest) then none else some last_fail
  ]
]

unfoldable pub last_unrecovered_failure : OpLog → Option OpLogEntry
unfolding recent unrecovered_in
last_unrecovered_failure log = unrecovered_in (recent log log.capacity none)

-- `str::is_char_boundary`
unfoldable pub is_char_boundary : Text → ℕ → Bool
is_char_boundary s zero = true
is_char_boundary [] (suc i) = false
is_char_boundary (a ∷ []) (suc zero) = true
is_char_boundary (a ∷ b ∷ s) (suc zero) = not (is_continuation b)
is_char_boundary (a ∷ s) (suc (suc i)) = is_char_boundary s (suc i)

-- `while cut > 0 && !err.is_char_boundary(cut) { cut -= 1 }`
unfoldable pub char_boundary_below : Text → ℕ → ℕ
unfolding is_char_boundary
char_boundary_below s zero = 0
char_boundary_below s (suc cut) =
    if is_char_boundary s (suc cut) then suc cut else char_boundary_below s cut

-- the bytes of "…[truncated]"
abbrev pub truncation_mark : Text
unfolding ascii
truncation_mark = 0xE2 ∷ 0x80 ∷ 0xA6 ∷ ascii "[truncated]"

-- the error text that finish_err stores
unfoldable pub bounded_error : Text → Text
bounded_error error =
    if ltb max_error_len (length error)
    then take (char_boundary_below error max_error_len) error ++ truncation_mark
    else error

pub record Recorder : Type 0 where
  pub tool : Text
  pub params_hash : Text
  pub started_unix_ms : ℕ

unfoldable pub finish_inner : OpLog → Recorder → ℕ → OpStatus → Option Text → OpLog
unfolding append
finish_inner log r now status error = append log (record {
  tool = r.tool;
  params_hash = r.params_hash;
  started_at_unix_ms = r.started_unix_ms;
  finished_at_unix_ms = now;
  duration_ms = now - r.started_unix_ms;
  status = status;
  error = error;
})

unfoldable pub finish_ok : OpLog → Recorder → ℕ → OpLog
unfolding finish_inner
finish_ok log r now = finish_inner log r now ok none

unfoldable pub finish_err : OpLog → Recorder → ℕ → Text → OpLog
unfolding finish_inner bounded_error
finish_err log r now error = finish_inner log r now err (some (bounded_error error))
