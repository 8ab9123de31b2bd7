-- ===== src/Client/Propagation/Recovers.antt =====
-- What the retries for propagation lag (api/client.rs) ride out.
use workflowy_mcp.Base.{ℕ, zero, suc, ◌*◌, ◌^◌, ◌≤◌, ◌≡◌, refl, true, false, Text, arith}
use workflowy_mcp.Error.{WorkflowyError, Result, ok, err, Io}
use workflowy_mcp.Client.Propagation.{is_404_like, retry_on_404, with_propagation_retry}

module _ (to_lowercase : Text → Text) {W : Type 0} (sleep : ℕ → W → W) {A : Type 0}
    (call : Io W A) where
  -- After so many answers that look like a 404, with the pauses between them, the call gives the answer.
  pub data Answers (answer : Result A) : ℕ → ℕ → W → Type 0 where
    at_once : (attempt : ℕ) (w : W) → (call w).0 ≡ answer → Answers answer 0 attempt w
    after_404 :
        (k attempt : ℕ) (w : W) (e : WorkflowyError)
        → (call w).0 ≡ err e
        → is_404_like to_lowercase e ≡ true
        → Answers answer k (suc attempt) (sleep (200 * 2 ^ attempt) (call w).1)
        → Answers answer (suc k) attempt w

  retry_on_404_lem :
      (answer : Result A) (k left attempt : ℕ) (w : W)
      → ((e : WorkflowyError) → answer ≡ err e → is_404_like to_lowercase e ≡ false)
      → k ≤ left
      → Answers answer k attempt w
      → (retry_on_404 to_lowercase sleep left attempt call w).0 ≡ answer
  unfolding retry_on_404
  retry_on_404_lem answer k zero attempt w final h (at_once _ _ e) = e
  retry_on_404_lem (ok a) k (suc left) attempt w final h (at_once _ _ e) = rw (e, retry_on_404)
  retry_on_404_lem (err x) k (suc left) attempt w final h (at_once _ _ e) =
      rw (e, retry_on_404, final x refl)
  retry_on_404_lem answer _ zero attempt w final h (after_404 k _ _ e failed like rest) =
      absurd (omega arith)
  retry_on_404_lem answer _ (suc left) attempt w final h (after_404 k _ _ e failed like rest) =
      rw (failed, retry_on_404, like)
        (retry_on_404_lem answer k left (suc attempt) (sleep (200 * 2 ^ attempt) (call w).1) final
          (omega arith) rest)

  -- A call that answers after at most two answers that look like a 404 has its answer passed on, be it a
  -- success or another error.
  pub with_propagation_retry_lem :
      (answer : Result A) (k : ℕ) (w : W)
      → ((e : WorkflowyError) → answer ≡ err e → is_404_like to_lowercase e ≡ false)
      → k ≤ 2
      → Answers answer k 0 w
      → (with_propagation_retry to_lowercase sleep call w).0 ≡ answer
  with_propagation_retry_lem answer k w final few h = retry_on_404_lem answer k 2 0 w final few h
