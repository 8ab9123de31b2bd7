-- ===== src/Client/Posture.antt =====
-- What the client (api/client.rs) remembers of the last 429: stamp_rate_limited, rate_limit_posture and the
-- error of a call inside a retry window. The clock counts milliseconds and is an argument; the local
-- rate limiter, which a stamp drains, is a parameter.
pub mod Waits
use workflowy_mcp.Base.{
  ℕ, ◌+◌, ◌-◌, ◌/◌, Bool, true, false, Option, none, some, ◌++◌, ◌∷◌, [], Text, ascii, decimal, ltb,
  ◌==◌, if◌then◌else◌,
}
use workflowy_mcp.Error.{WorkflowyError, api_error}

pub record RateLimitPosture : Type 0 where
  pub last_429_unix_ms : Option ℕ
  pub last_retry_after_ms : Option ℕ
  pub retry_after_remaining_ms : Option ℕ
  pub in_retry_window : Bool

-- The two atomics, where zero stands for none, and the local limiter.
pub record Stamps (L : Type 0) : Type 0 where
  pub last_429_unix_ms : ℕ
  pub last_retry_after_ms : ℕ
  pub rate_limiter : L

-- `filter(|&r| r > 0)`, for an amount that may be there
abbrev pub positive : Option ℕ → Option ℕ
positive none = none
positive (some n) = if n == 0 then none else some n

module _ {L : Type 0} where
  unfoldable pub rate_limit_posture : ℕ → Stamps L → RateLimitPosture
  rate_limit_posture now s =
      let retry_after = positive (some s.last_retry_after_ms) in
      let elapsed = now - s.last_429_unix_ms in
      let remaining : Option ℕ = elim retry_after [ none ↦ none | some ra ↦ some (ra - elapsed) ] in
      if s.last_429_unix_ms == 0
      then record {
        last_429_unix_ms = none;
        last_retry_after_ms = none;
        retry_after_remaining_ms = none;
        in_retry_window = false;
      }
      else record {
        last_429_unix_ms = some s.last_429_unix_ms;
        last_retry_after_ms = retry_after;
        retry_after_remaining_ms = positive remaining;
        in_retry_window = elim remaining [ none ↦ false | some r ↦ ltb 0 r ];
      }

  -- at this time, with the wait that the answer asked for
  unfoldable pub stamp_rate_limited : (drain : L → L) → ℕ → Option ℕ → Stamps L → Stamps L
  stamp_rate_limited drain now retry_after_ms s = record {
    last_429_unix_ms = now;
    last_retry_after_ms = elim retry_after_ms [ none ↦ 0 | some ms ↦ ms ];
    rate_limiter = drain s.rate_limiter;
  }

-- `ms.div_ceil(1000)`
unfoldable pub remaining_secs : RateLimitPosture → ℕ
remaining_secs posture = elim posture.retry_after_remaining_ms [
  | none ↦ 0
  | some ms ↦ (ms + 999) / 1000
]

unfoldable pub rate_limit_window_error : RateLimitPosture → Text → WorkflowyError
unfolding remaining_secs ascii decimal
rate_limit_window_error posture context = api_error 429 (
    (123 ∷ 34 ∷ ascii "error" ++ 34 ∷ ascii ":" ++ 34 ∷ ascii "rate limit exceeded (")
    ++ context
    ++ ascii ")"
    ++ (34 ∷ ascii "," ++ 34 ∷ ascii "retry_after" ++ 34 ∷ ascii ":")
    ++ decimal (remaining_secs posture)
    ++ 125 ∷ [])
