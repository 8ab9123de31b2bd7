-- ===== src/Cancel/Generations.antt =====
-- When a guard of utils/cancel.rs is cancelled.
use workflowy_mcp.Base.{ℕ, zero, suc, ◌+◌, ◌%◌, ◌^◌, ◌<◌, ◌≡◌, not, ◌==◌, arith}
use workflowy_mcp.Cancel.{CancelRegistry, new_registry, guard, cancel_all, is_cancelled}

-- The registry after some calls of cancel_all.
unfoldable pub after_cancels : ℕ → CancelRegistry → CancelRegistry
after_cancels zero r = r
after_cancels (suc n) r = after_cancels n (cancel_all r)

generation-after_cancels :
    (n : ℕ) (r : CancelRegistry)
    → r.generation < 2 ^ 64
    → (after_cancels n r).generation ≡ (r.generation + n) % 2 ^ 64
unfolding after_cancels cancel_all
generation-after_cancels zero r h = omega arith
generation-after_cancels (suc n) r h =
    omega (arith, generation-after_cancels n (cancel_all r) (omega arith))

-- A guard taken after `before` calls of cancel_all is cancelled after `n` more exactly when `n` is not a
-- multiple of 2 ^ 64: at once by the first call, and not by the calls before it was taken.
pub is_cancelled-after_cancels :
    (before n : ℕ)
    → (let r = after_cancels before new_registry in
        is_cancelled (guard r) (after_cancels n r) ≡ not (n % 2 ^ 64 == 0))
unfolding is_cancelled guard
is_cancelled-after_cancels before n =
    let r = after_cancels before new_registry in
    let small : r.generation < 2 ^ 64 =
      omega (arith, generation-after_cancels before new_registry (omega arith)) in
    ground (arith, small, generation-after_cancels n r small)
