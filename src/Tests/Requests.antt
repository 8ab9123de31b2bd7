-- ===== src/Tests/Requests.antt =====
-- The theorems on the retry loop, for an upstream that always answers 503, and on the window of a 429.
use workflowy_mcp.Client.Posture.{Stamps, rate_limit_posture, stamp_rate_limited, remaining_secs}
use workflowy_mcp.Client.Posture.Waits.{remaining_secs_lem}
use workflowy_mcp.Base.{ℕ, ◌+◌, ◌*◌, ◌≡◌, false, some, ltb, arith, true, suc, ◌≤◌, none, [], Text}
use workflowy_mcp.Error.{WorkflowyError, api_error, ok, err}
use workflowy_mcp.Context.{WorkflowContext, is_cancelled, is_past_deadline}
use workflowy_mcp.Retry.{Transport, request_cancellable, take_token, delay_for}
use workflowy_mcp.Retry.Bounded.{CountLaws, IsBounded, request_cancellable-IsBounded}

-- The world is the number of requests sent.
abbrev unavailable : Transport ℕ Text
unavailable = record {
  drop_listings = λ method endpoint w. w;
  open_window = λ w. (none, w);
  acquire = λ w. w;
  acquire_cancellable = λ w. (true, w);
  try_request_cancellable = λ method endpoint w. (err (api_error 503 []), suc w);
  parse_retry_after = λ body. none;
  calculate_backoff = λ attempt w. (1000, w);
  sleep_with_abort = λ ms w. (ok tt, w);
}

abbrev quiet : WorkflowContext ℕ
quiet = record { cancel = none; deadline = none }

delay-le : (n : ℕ) (e : WorkflowyError) (w : ℕ) → (delay_for unavailable quiet 3 n e w).1 ≤ w
unfolding delay_for
delay-le n (api_error status message) w = ground arith
delay-le n e w = omega arith

unavailable-CountLaws : CountLaws unavailable quiet 3 (λ w. w)
unfolding is_cancelled is_past_deadline take_token
unavailable-CountLaws = record {
  on_try = λ method endpoint w. omega arith;
  on_cancel = λ w. omega arith;
  on_deadline = λ w. omega arith;
  on_token = λ w. omega arith;
  on_delay = delay-le;
  on_sleep = λ ms w. omega arith;
  on_listings = λ method endpoint w. omega arith;
  on_window = λ w. omega arith;
}

request_cancellable-IsBounded_example :
    IsBounded unavailable quiet 3 (λ w. w) 3 0 (request_cancellable unavailable quiet 3 3 [] [] 0)
request_cancellable-IsBounded_example =
    request_cancellable-IsBounded unavailable quiet 3 (λ w. w) 3 [] [] 0 unavailable-CountLaws
      (omega arith)

-- A stamp at time 5000 for two seconds and a half, asked at time 6000.
abbrev drained : ℕ → ℕ
drained n = 0

abbrev unstamped : Stamps ℕ
unstamped = record { last_429_unix_ms = 0; last_retry_after_ms = 0; rate_limiter = 3 }

abbrev stamped_now : Stamps ℕ
stamped_now = stamp_rate_limited drained 5000 (some 2500) unstamped

remaining_secs_lem_example :
    ((rate_limit_posture 6000 stamped_now).in_retry_window ≡ ltb 6000 (5000 + 2500))
    × ((rate_limit_posture
          (6000 + 1000 * remaining_secs (rate_limit_posture 6000 stamped_now))
          stamped_now).in_retry_window
        ≡ false)
remaining_secs_lem_example =
    remaining_secs_lem drained 5000 2500 6000 unstamped (omega arith) (omega arith)
