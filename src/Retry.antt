-- ===== src/Retry.antt =====
-- request_cancellable (api/client.rs): the loop around one HTTP call. What the loop calls is a record:
-- the listings it drops before a write, the window of an earlier 429, the rate limiter, one try of the
-- call, the pause, the delays. The loop runs on fuel, and Bounded shows how much is enough.
pub mod Bounded
use workflowy_mcp.Base.{
  ℕ, zero, suc, ◌+◌, Bool, true, false, not, ◌&&◌, Option, none, some, Text, ascii, text_eq, ltb,
  ◌==◌, if◌then◌else◌,
}
use workflowy_mcp.Context.{WorkflowContext, is_cancelled, is_past_deadline}
use workflowy_mcp.Error.{
  WorkflowyError, api_error, retry_exhausted, cancelled, timeout, to_string, is_retryable, Result,
  ok, err, Io,
}

pub record Transport (W A : Type 0) : Type 0 where
  -- `invalidate_listings_for_write`, for the method and the endpoint
  pub drop_listings : Text → Text → W → W
  -- `rate_limit_posture` and `rate_limit_window_error`: an error while the window is open
  pub open_window : W → Option WorkflowyError × W
  pub acquire : W → W
  pub acquire_cancellable : W → Bool × W
  pub try_request_cancellable : Text → Text → Io W A
  pub parse_retry_after : Text → Option ℕ
  pub calculate_backoff : ℕ → W → ℕ × W
  pub sleep_with_abort : ℕ → Io W (Unit {0})

-- Whether the error is passed on as it is.
unfoldable pub is_signal : WorkflowyError → Bool
is_signal cancelled = true
is_signal timeout = true
is_signal _ = false

-- Before a write, the cached listings that it may change go.
unfoldable pub listings_dropped : {W A : Type 0} → Transport W A → Text → Text → W → W
unfolding ascii text_eq
listings_dropped transport method endpoint w =
    if text_eq method (ascii "GET") then w else transport.drop_listings method endpoint w

module _ {W A : Type 0} (transport : Transport W A) (ctx : WorkflowContext W)
    (max_attempts : ℕ) where
  -- The token of the rate limiter; a guard may end the wait.
  unfoldable pub take_token : W → Bool × W
  take_token w = elim ctx.cancel [
    | none ↦ (true, transport.acquire w)
    | some guard ↦ transport.acquire_cancellable w
  ]

  -- A 429 may name its own delay.
  unfoldable pub delay_for : ℕ → WorkflowyError → W → ℕ × W
  delay_for attempt (api_error status message) w =
      if status == 429
      then elim (transport.parse_retry_after message) [
        | none ↦ transport.calculate_backoff attempt w
        | some ms ↦ (ms, w)
      ]
      else transport.calculate_backoff attempt w
  delay_for attempt e w = transport.calculate_backoff attempt w

  -- The result of one try; `again` is the next turn of the loop.
  unfoldable pub on_result : (W → Option (Result A) × W) → ℕ → Result A → W → Option (Result A) × W
  unfolding is_signal is_retryable delay_for to_string
  on_result again attempt (ok a) w = (some (ok a), w)
  on_result again attempt (err e) w = elim (is_signal e) [
    | true ↦ (some (err e), w)
    | false ↦ elim (ltb attempt max_attempts && is_retryable e) [
      | true ↦
          let (delay_ms, w₁) = delay_for attempt e w in
          let (slept, w₂) = transport.sleep_with_abort delay_ms w₁ in
          elim slept [ ok _ ↦ again w₂ | err x ↦ (some (err x), w₂) ]
      | false ↦ (some (err (retry_exhausted attempt (to_string e))), w)
    ]
  ]

  -- One turn: the two signals, the token, the deadline again, the call.
  unfoldable pub turn : (W → Option (Result A) × W) → Text → Text → ℕ → W → Option (Result A) × W
  unfolding is_cancelled is_past_deadline take_token on_result
  turn again method endpoint attempt w =
      let (is_off, w₁) = is_cancelled ctx w in
      elim is_off [
        | true ↦ (some (err cancelled), w₁)
        | false ↦
            let (is_late, w₂) = is_past_deadline ctx w₁ in
            elim is_late [
              | true ↦ (some (err timeout), w₂)
              | false ↦
                  let (has_token, w₃) = take_token w₂ in
                  elim has_token [
                    | false ↦ (some (err cancelled), w₃)
                    | true ↦
                        let (is_late_now, w₄) = is_past_deadline ctx w₃ in
                        elim is_late_now [
                          | true ↦ (some (err timeout), w₄)
                          | false ↦
                              let (r, w₅) = transport.try_request_cancellable method endpoint w₄ in
                              on_result again attempt r w₅
                        ]
                  ]
            ]
      ]

  -- The loop after `attempt` tries; none if the fuel is used up.
  unfoldable pub attempts : ℕ → Text → Text → ℕ → W → Option (Result A) × W
  unfolding turn
  attempts zero method endpoint attempt w = (none, w)
  attempts (suc fuel) method endpoint attempt w =
      turn (attempts fuel method endpoint (suc attempt)) method endpoint (suc attempt) w

  unfoldable pub request_cancellable : ℕ → Text → Text → W → Option (Result A) × W
  unfolding attempts listings_dropped
  request_cancellable fuel method endpoint w =
      let (window, w₁) = transport.open_window (listings_dropped transport method endpoint w) in
      elim window [ some e ↦ (some (err e), w₁) | none ↦ attempts fuel method endpoint 0 w₁ ]
