-- ===== src/OpLog/Window.antt =====
-- The ring buffer of utils/op_log.rs against the whole history of appends.
use workflowy_mcp.Base.{
  ℕ, suc, ◌-◌, ◌%◌, ◌^◌, ◌≤◌, ◌<◌, max, ◌≡◌, refl, List, [], ◌∷◌, ◌++◌, length, drop, arith, ◌==◌,
  length-append, length-drop, drop-append, drop-one-drop, ap, sym, ◌∙◌, Bool-cases, inl, inr,
}
use mathlib.Core.List.{append-nil, append_assoc}
use workflowy_mcp.OpLog.{OpLog, OpLogEntry, append, with_capacity}

unfoldable pub append_all : OpLog → List OpLogEntry → OpLog
append_all log [] = log
append_all log (e ∷ es) = append_all (append log e) es

-- What the buffer holds after the appends `h`, oldest first.
pub record Holds (cap : ℕ) (log : OpLog) (h : List OpLogEntry) : Type 0 where
  pub positive : 0 < cap
  pub fixed : log.capacity ≡ cap
  pub window : log.entries ≡ drop (length h - cap) h
  pub counted : log.seq ≡ length h % 2 ^ 64

drop-snoc :
    (cap : ℕ) (h : List OpLogEntry) (e : OpLogEntry)
    → 0 < cap
    → cap ≤ length h
    → drop 1 (drop (length h - cap) h) ++ e ∷ [] ≡ drop (length (h ++ e ∷ []) - cap) (h ++ e ∷ [])
drop-snoc cap h e pos full =
    let n = length h - cap in
    let k : length (h ++ e ∷ []) - cap ≡ suc n = omega (arith, length-append h (e ∷ [])) in
    rw (k, drop-one-drop, drop-append (suc n) h (e ∷ []) (omega arith))

drop-zero : (n : ℕ) (h : List OpLogEntry) → n ≡ 0 → drop n h ≡ h
drop-zero n h e = rw e

-- The window after one more append, on the branch that evicts and on the one that does not.
append-window :
    (cap : ℕ) (log : OpLog) (h : List OpLogEntry) (e : OpLogEntry)
    → Holds cap log h
    → (append log e).entries ≡ drop (length (h ++ e ∷ []) - cap) (h ++ e ∷ [])
unfolding append
append-window cap log h e t = elim (Bool-cases (length log.entries == log.capacity)) [
  | inl full ↦
      rw (full, t.window)
        (drop-snoc cap h e t.positive (
          ground (
            arith,
            t.fixed,
            length-drop (length h - cap) h,
            ap (length {A = OpLogEntry}) t.window,
          )))
  | inr room ↦
      let short : length h - cap ≡ 0 =
        ground
          (arith, t.fixed, length-drop (length h - cap) h, ap (length {A = OpLogEntry}) t.window) in
      let fits : length h < cap =
        ground (arith, t.fixed, short, t.window, drop-zero (length h - cap) h short) in
      let same : log.entries ≡ h = t.window ∙ drop-zero (length h - cap) h short in
      let none_dropped : length (h ++ e ∷ []) - cap ≡ 0 = omega (arith, length-append h (e ∷ [])) in
      rw (room, same, none_dropped)
]

append-Holds :
    (cap : ℕ) (log : OpLog) (h : List OpLogEntry) (e : OpLogEntry)
    → Holds cap log h
    → Holds cap (append log e) (h ++ e ∷ [])
unfolding append
append-Holds cap log h e t = record {
  positive = t.positive;
  fixed = t.fixed;
  window = append-window cap log h e t;
  counted = omega (arith, length-append h (e ∷ []), t.counted);
}

append_all-Holds :
    (cap : ℕ) (log : OpLog) (h es : List OpLogEntry)
    → Holds cap log h
    → Holds cap (append_all log es) (h ++ es)
unfolding append_all
append_all-Holds cap log h [] t = rw (append-nil h) t
append_all-Holds cap log h (e ∷ es) t =
    rw (append_assoc h (e ∷ []) es) at
      (append_all-Holds cap (append log e) (h ++ e ∷ []) es (append-Holds cap log h e t))

-- Whatever is appended to a fresh log, the buffer holds exactly the last entries appended, as many
-- as its capacity (at least one) and in their order, and the counter is the number of appends
-- modulo 2 ^ 64.
pub append_all-window :
    (capacity : ℕ) (es : List OpLogEntry)
    → Holds (max capacity 1) (append_all (with_capacity capacity) es) es
unfolding with_capacity
append_all-window capacity es =
    append_all-Holds (max capacity 1) (with_capacity capacity) [] es (record {
      positive = omega arith;
      fixed = refl;
      window = sym (drop-zero (0 - max capacity 1) [] (omega arith));
      counted = refl;
    })

-- The buffer never holds more entries than its capacity.
pub length-entries-le :
    (cap : ℕ) (log : OpLog) (h : List OpLogEntry)
    → Holds cap log h
    → length log.entries ≤ log.capacity
length-entries-le cap log h t =
    rw (t.window, t.fixed) (omega (arith, length-drop (length h - cap) h))
