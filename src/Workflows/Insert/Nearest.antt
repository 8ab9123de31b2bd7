-- ===== src/Workflows/Insert/Nearest.antt =====
-- The outline that insert_content_via_indented (workflows.rs) is to create, in which each line stands
-- under the nearest earlier line that is one level up, and the stack of parents that finds it.
use workflowy_mcp.Base.{
  ℕ, zero, suc, ◌≤◌, ◌<◌, min, ◌≡◌, refl, ◌∙◌, Option, none, some, List, [], ◌∷◌, ◌++◌, Text,
  length, length-append, take, get_elem?, ◌==◌, if◌then◌else◌, arith, Bool-cases, inl, inr,
}
use workflowy_mcp.Types.{WorkflowyNode, default_node}
use workflowy_mcp.Workflows.Insert.{ParsedLine, descend}
use workflowy_mcp.Workflows.Insert.Depths.{descend_lem, get-take, get-take_last, length-take}

-- The depths and the ids of the lines inserted so far, the latest one first.
abbrev pub History : Type 0
History = List (ℕ × Text)

-- The first line stands at depth 0, a later one at most one level under the line before it.
abbrev pub room : History → ℕ
room [] = 0
room ((depth, id) ∷ history) = suc depth

-- Whom a line at this depth stands under.
abbrev pub nearest : ℕ → History → Option Text → Option Text
nearest zero history base = base
nearest (suc d) [] base = base
nearest (suc d) ((depth, id) ∷ history) base =
    let earlier = nearest (suc d) history base in if depth == d then some id else earlier

unfoldable pub outline : Option Text → History → List ParsedLine → List Text → List WorkflowyNode
outline base history [] ids = []
outline base history (line ∷ rest) [] = []
outline base history (line ∷ rest) (id ∷ ids) =
    let depth = min line.indent (room history) in
    record default_node {
      id = id;
      name = line.text;
      description = none;
      parent_id = nearest depth history base;
    }
    ∷ outline base ((depth, id) ∷ history) rest ids

-- The stack holds, for each depth that the next line may have, whom that line would stand under.
pub record Fits (base : Option Text) (stack : List (Option Text)) (history : History) : Type 0 where
  pub size : length stack ≡ suc (room history)
  pub level : (k : ℕ) → k ≤ room history → get_elem? stack k ≡ some (nearest k history base)

level-descend :
    (base : Option Text) (stack : List (Option Text)) (history : History) (depth : ℕ) (id : Text)
    → Fits base stack history
    → depth ≤ room history
    → (k : ℕ) → k ≤ suc depth
    → get_elem? (take (suc depth) stack ++ some id ∷ []) k
      ≡ some (nearest k ((depth, id) ∷ history) base)
level-descend base stack history depth id fits h zero le =
    get-take (suc depth) 0 (some id) stack (omega arith) (omega (arith, fits.size))
    ∙ fits.level 0 (omega arith)
level-descend base stack history depth id fits h (suc j) le = elim (Bool-cases (depth == j)) [
  | inl here ↦
      let same : j ≡ depth = ground (arith, here) in
      rw (here, same) (get-take_last (suc depth) (some id) stack (omega (arith, fits.size)))
  | inr above ↦
      let lower : j < depth = ground (arith, above) in
      rw above (
        get-take (suc depth) (suc j) (some id) stack (omega (arith, lower))
          (omega (arith, fits.size))
        ∙ fits.level (suc j) (omega (arith, lower)))
]

pub Fits-descend :
    (base : Option Text) (stack : List (Option Text)) (history : History) (depth : ℕ) (id : Text)
    → Fits base stack history
    → depth ≤ room history
    → Fits base (descend depth id stack) ((depth, id) ∷ history)
Fits-descend base stack history depth id fits h =
    rw (descend_lem depth id stack (omega (arith, fits.size))) record {
      size = omega (
        arith,
        fits.size,
        length-append (take (suc depth) stack) (some id ∷ []),
        length-take (suc depth) stack (omega (arith, fits.size)),
      );
      level = λ k le. level-descend base stack history depth id fits h k le;
    }

level_start :
    (base : Option Text) (k : ℕ) → k ≤ 0 → get_elem? (base ∷ []) k ≡ some (nearest k [] base)
level_start base zero le = refl
level_start base (suc k) le = ground arith

pub Fits-start : (base : Option Text) → Fits base (base ∷ []) []
Fits-start base = record { size = refl; level = λ k le. level_start base k le }
