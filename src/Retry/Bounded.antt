-- ===== src/Retry/Bounded.antt =====
-- request_cancellable (api/client.rs) ends, and sends no more requests than it is configured for.
use workflowy_mcp.Base.{
  ℕ, zero, suc, ◌+◌, ◌-◌, ◌≤◌, ◌<◌, max, ◌≡◌, refl, ◌&&◌, Option, some, Text, ascii, text_eq, ltb,
  Bool-cases, Option-cases, inl, inr, arith, &&-eq-true, ltb→lt,
}
use workflowy_mcp.Context.{WorkflowContext, is_cancelled, is_past_deadline}
use workflowy_mcp.Error.{WorkflowyError, Result, ok, err, Result-cases, is_retryable}
use workflowy_mcp.Retry.{
  Transport, is_signal, take_token, delay_for, on_result, turn, attempts, request_cancellable,
  listings_dropped,
}

module _ {W A : Type 0} (transport : Transport W A) (ctx : WorkflowContext W)
    (max_attempts : ℕ) where
  -- A count of the requests sent: a try adds at most one, and nothing else adds any.
  pub record CountLaws (sent : W → ℕ) : Type 0 where
    pub on_try :
        (method endpoint : Text) (w : W)
        → sent (transport.try_request_cancellable method endpoint w).1 ≤ sent w + 1
    pub on_cancel : (w : W) → sent (is_cancelled ctx w).1 ≤ sent w
    pub on_deadline : (w : W) → sent (is_past_deadline ctx w).1 ≤ sent w
    pub on_token : (w : W) → sent (take_token transport ctx max_attempts w).1 ≤ sent w
    pub on_delay :
        (n : ℕ) (e : WorkflowyError) (w : W)
        → sent (delay_for transport ctx max_attempts n e w).1 ≤ sent w
    pub on_sleep : (ms : ℕ) (w : W) → sent (transport.sleep_with_abort ms w).1 ≤ sent w
    pub on_listings :
        (method endpoint : Text) (w : W) → sent (transport.drop_listings method endpoint w) ≤ sent w
    pub on_window : (w : W) → sent (transport.open_window w).1 ≤ sent w

  -- The run has a result, and has sent at most `n` requests.
  abbrev pub IsBounded : (W → ℕ) → ℕ → W → Option (Result A) × W → Type 0
  IsBounded sent n w run = ((r : Result A) × (run.0 ≡ some r)) × (sent run.1 ≤ sent w + n)

  on_result-IsBounded :
      (sent : W → ℕ)
      → CountLaws sent
      → (again : W → Option (Result A) × W) (n attempt : ℕ) (r : Result A) (w : W)
      → (attempt < max_attempts → (u : W) → IsBounded sent n u (again u))
      → IsBounded sent n w (on_result transport ctx max_attempts again attempt r w)
  unfolding on_result
  on_result-IsBounded sent laws again n attempt (ok a) w rec = ((ok a, refl), omega arith)
  on_result-IsBounded sent laws again n attempt (err e) w rec = elim (Bool-cases (is_signal e)) [
    | inl signal ↦ rw (signal, on_result) ((err e, refl), omega arith)
    | inr other ↦ elim (Bool-cases (ltb attempt max_attempts && is_retryable e)) [
      | inr spent ↦ rw (other, spent, on_result) ((_, refl), omega arith)
      | inl retry ↦
          let left =
            ltb→lt attempt max_attempts
              (&&-eq-true (ltb attempt max_attempts) (is_retryable e) retry).0 in
          let delay = delay_for transport ctx max_attempts attempt e w in
          let slept = transport.sleep_with_abort delay.0 delay.1 in
          let kept = laws.on_delay attempt e w in
          let still = laws.on_sleep delay.0 delay.1 in
          elim (Result-cases slept.0) [
            | inl (t, woke) ↦
                let (made, few) = rec left slept.1 in
                rw (other, retry, woke, on_result) (made, omega (arith, few, kept, still))
            | inr (x, stopped) ↦
                rw (other, retry, stopped, on_result) ((err x, refl), omega (arith, kept, still))
          ]
    ]
  ]

  turn-IsBounded :
      (sent : W → ℕ)
      → CountLaws sent
      → (again : W → Option (Result A) × W) (n : ℕ) (method endpoint : Text) (attempt : ℕ) (w : W)
      → (attempt < max_attempts → (u : W) → IsBounded sent n u (again u))
      → IsBounded sent (suc n) w (turn transport ctx max_attempts again method endpoint attempt w)
  unfolding turn
  turn-IsBounded sent laws again n method endpoint attempt w rec =
      let polled = is_cancelled ctx w in
      let late = is_past_deadline ctx polled.1 in
      let token = take_token transport ctx max_attempts late.1 in
      let later = is_past_deadline ctx token.1 in
      let tried = transport.try_request_cancellable method endpoint later.1 in
      let p = laws.on_cancel w in
      let l = laws.on_deadline polled.1 in
      let t = laws.on_token late.1 in
      let d = laws.on_deadline token.1 in
      elim (Bool-cases polled.0) [
        | inl off ↦ rw (off, turn) ((_, refl), omega (arith, p))
        | inr on ↦ elim (Bool-cases late.0) [
          | inl over ↦ rw (on, over, turn) ((_, refl), omega (arith, p, l))
          | inr early ↦ elim (Bool-cases token.0) [
            | inr ended ↦ rw (on, early, ended, turn) ((_, refl), omega (arith, p, l, t))
            | inl has ↦ elim (Bool-cases later.0) [
              | inl over_now ↦
                  rw (on, early, has, over_now, turn) ((_, refl), omega (arith, p, l, t, d))
              | inr in_time ↦
                  let (made, few) =
                    on_result-IsBounded sent laws again n attempt tried.0 tried.1 rec in
                  rw (on, early, has, in_time, turn)
                    (made, omega (arith, few, laws.on_try method endpoint later.1, p, l, t, d))
            ]
          ]
        ]
      ]

  attempts-IsBounded :
      (sent : W → ℕ)
      → CountLaws sent
      → (fuel n : ℕ) (method endpoint : Text) (attempt : ℕ) (w : W)
      → max max_attempts 1 ≤ attempt + fuel
      → attempt + suc n ≡ max max_attempts 1
      → IsBounded sent
          (suc n)
          w
          (attempts transport ctx max_attempts fuel method endpoint attempt w)
  unfolding attempts
  attempts-IsBounded sent laws zero n method endpoint attempt w enough left = ground arith
  attempts-IsBounded sent laws (suc fuel) zero method endpoint attempt w enough left =
      turn-IsBounded sent laws
        (attempts transport ctx max_attempts fuel method endpoint (suc attempt)) zero method
        endpoint (suc attempt) w (λ more u. ground arith)
  attempts-IsBounded sent laws (suc fuel) (suc n) method endpoint attempt w enough left =
      turn-IsBounded sent laws
        (attempts transport ctx max_attempts fuel method endpoint (suc attempt)) (suc n) method
        endpoint (suc attempt) w
        (λ more u.
          attempts-IsBounded sent laws fuel n method endpoint (suc attempt) u (omega arith)
            (omega arith))

  listings_dropped-le :
      (sent : W → ℕ)
      → CountLaws sent
      → (method endpoint : Text) (w : W)
      → sent (listings_dropped transport method endpoint w) ≤ sent w
  unfolding listings_dropped
  listings_dropped-le sent laws method endpoint w =
      elim (Bool-cases (text_eq method (ascii "GET"))) [
        | inl read ↦ rw (read, listings_dropped) (omega arith)
        | inr write ↦ rw (write, listings_dropped) (laws.on_listings method endpoint w)
      ]

  -- With fuel for the configured number of attempts, or for one if that is zero, a request ends with a
  -- result, and it sends at most that many calls, whatever the upstream answers.
  pub request_cancellable-IsBounded :
      (sent : W → ℕ) (fuel : ℕ) (method endpoint : Text) (w : W)
      → CountLaws sent
      → max max_attempts 1 ≤ fuel
      → IsBounded sent
          (max max_attempts 1)
          w
          (request_cancellable transport ctx max_attempts fuel method endpoint w)
  unfolding request_cancellable
  request_cancellable-IsBounded sent fuel method endpoint w laws enough =
      let start = listings_dropped transport method endpoint w in
      let window = transport.open_window start in
      let dropped = listings_dropped-le sent laws method endpoint w in
      let looked = laws.on_window start in
      elim (Option-cases window.0) [
        | inr (e, suppressed) ↦
            rw (suppressed, request_cancellable) ((err e, refl), omega (arith, dropped, looked))
        | inl clear ↦
            let (made, few) =
              attempts-IsBounded sent laws fuel (max max_attempts 1 - 1) method endpoint 0 window.1
                (omega arith) (omega arith) in
            rw (clear, request_cancellable) (made, omega (arith, few, dropped, looked))
      ]
