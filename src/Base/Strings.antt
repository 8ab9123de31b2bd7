-- ===== src/Base/Strings.antt =====
-- The string functions of the Rust standard library that the program calls: trim, decimal print.
use Prim.Native.Nat.{ℕ, zero, suc, ◌+◌, ◌/◌, ◌%◌}
use mathlib.Core.Bool.{Bool, ◌&&◌, ◌||◌}
use mathlib.Core.List.{[], ◌∷◌, reverse}
use workflowy_mcp.Base.Tests.{◌==◌, leb, if◌then◌else◌}
use workflowy_mcp.Base.Bytes.{Text}

unfoldable pub is_white3 : ℕ → ℕ → ℕ → Bool
is_white3 a b c =
    (a == 0xE1 && b == 0x9A && c == 0x80)
    || (a == 0xE2 && b == 0x80 && (leb 0x80 c && leb c 0x8A))
    || (a == 0xE2 && b == 0x80 && (c == 0xA8 || c == 0xA9 || c == 0xAF))
    || (a == 0xE2 && b == 0x81 && c == 0x9F)
    || (a == 0xE3 && b == 0x80 && c == 0x80)

-- U+0009 to U+000D and the space
unfoldable pub is_white1 : ℕ → Bool
is_white1 a = (leb 9 a && leb a 13) || a == 32

-- U+0085 and U+00A0
unfoldable pub is_white2 : ℕ → ℕ → Bool
is_white2 a b = a == 0xC2 && (b == 0x85 || b == 0xA0)

-- How many bytes the white-space character at the front takes; 0 if there is none.
unfoldable pub white : Text → ℕ
unfolding is_white1 is_white2 is_white3
white [] = 0
white (a ∷ []) = if is_white1 a then 1 else 0
white (a ∷ b ∷ []) = if is_white1 a then 1 else if is_white2 a b then 2 else 0
white (a ∷ b ∷ c ∷ s) =
    if is_white1 a then 1 else if is_white2 a b then 2 else if is_white3 a b c then 3 else 0

-- The same at the end of a text, which is handed over in reverse.
unfoldable pub white_back : Text → ℕ
unfolding is_white1 is_white2 is_white3
white_back [] = 0
white_back (a ∷ []) = if is_white1 a then 1 else 0
white_back (a ∷ b ∷ []) = if is_white1 a then 1 else if is_white2 b a then 2 else 0
white_back (a ∷ b ∷ c ∷ s) =
    if is_white1 a then 1 else if is_white2 b a then 2 else if is_white3 c b a then 3 else 0

unfoldable pub strip : (Text → ℕ) → ℕ → Text → Text
strip w skip [] = []
strip w (suc skip) (a ∷ s) = strip w skip s
strip w zero (a ∷ s) = elim (w (a ∷ s)) [ zero ↦ a ∷ s | suc skip ↦ strip w skip s ]

unfoldable pub trim_start : Text → Text
unfolding strip white
trim_start s = strip white 0 s

unfoldable pub trim_end : Text → Text
unfolding strip white_back
trim_end s = reverse (strip white_back 0 (reverse s))

unfoldable pub trim : Text → Text
unfolding trim_start trim_end
trim s = trim_end (trim_start s)

-- The decimal digits of a number, on fuel; a number has at most as many digits as it counts, plus one.
unfoldable pub digits_onto : ℕ → ℕ → Text → Text
digits_onto zero n out = out
digits_onto (suc fuel) n out =
    let shown = (b'0' + n % 10) ∷ out in
    let more = digits_onto fuel (n / 10) shown in if n / 10 == 0 then shown else more

unfoldable pub decimal : ℕ → Text
unfolding digits_onto
decimal n = digits_onto (suc n) n []
