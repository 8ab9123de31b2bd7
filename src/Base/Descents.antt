-- ===== src/Base/Descents.antt =====
-- How many steps it takes to walk everything below an element, where the children are lower than it.
use mathlib.Core.List.{Memᴰ, List, [], ◌∷◌, ◌++◌}
use Prim.Native.Nat.{ℕ, zero, suc, ◌+◌, ◌≤◌, ◌<◌}
use mathlib.Core.Path.{◌≡◌, refl}
use native.Mathlib.Omega.{arith}

module _ {ℓ} {A : Type ℓ} where
  abbrev pub total : (A → ℕ) → List A → ℕ
  total f [] = 0
  total f (n ∷ ns) = f n + total f ns

  pub total-append : (f : A → ℕ) (xs ys : List A) → total f (xs ++ ys) ≡ total f xs + total f ys
  total-append f [] ys = omega arith
  total-append f (x ∷ xs) ys = omega (arith, total-append f xs ys)

  total-same :
      (f g : A → ℕ) (xs : List A) → ((c : A) → Memᴰ c xs → f c ≡ g c) → total f xs ≡ total g xs
  total-same f g [] h = refl
  total-same f g (x ∷ xs) h =
      omega (arith, h x (Memᴰ.head refl), total-same f g xs (λ c m. h c (Memᴰ.tail m)))

  module _ (children : A → List A) where
    -- The element and everything below it, down to so many levels.
    abbrev pub descent : ℕ → A → ℕ
    descent zero n = 1
    descent (suc b) n = 1 + total (descent b) (children n)

    module _ (height : A → ℕ) (lower : (p c : A) → Memᴰ c (children p) → height c < height p) where
      childless : (n : A) → height n ≤ 0 → (f : A → ℕ) → total f (children n) ≡ 0
      childless n h f = go (children n) (λ c m. lower n c m)
        where
          go : (xs : List A) → ((c : A) → Memᴰ c xs → height c < height n) → total f xs ≡ 0
          go [] k = refl
          go (x ∷ xs) k = absurd (omega (arith, k x (Memᴰ.head refl)))

      descent_stable : (b : ℕ) (n : A) → height n ≤ b → descent (suc b) n ≡ descent b n
      descent_stable zero n h = omega (arith, childless n h (descent 0))
      descent_stable (suc b) n h = omega (
        arith,
        total-same (descent (suc b)) (descent b) (children n)
            (λ c m. descent_stable b c (omega (arith, lower n c m))),
      )

      -- Taking an element and adding its children leaves one step less.
      pub descent_step :
          (b : ℕ) (n : A) → height n ≤ b → suc (total (descent b) (children n)) ≡ descent b n
      descent_step zero n h = omega (arith, childless n h (descent 0))
      descent_step (suc b) n h = omega (
        arith,
        total-same (descent (suc b)) (descent b) (children n)
            (λ c m. descent_stable b c (omega (arith, lower n c m))),
      )
