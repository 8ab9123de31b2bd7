-- ===== src/OpLog/Utf8.antt =====
-- The error text that finish_err of utils/op_log.rs stores: where the cut falls.
use workflowy_mcp.Base.{
  ℕ, zero, suc, ◌+◌, ◌≤◌, ◌<◌, ◌≡◌, ◌⊎◌, refl, Bool, true, false, ◌&&◌, Option, none, some, [], ◌∷◌,
  ◌++◌, length, take, arith, Text, ascii, is_continuation, ltb, leb, if◌then◌else◌, length-append,
  length-take-le, Option-cases, Bool-cases, inl, inr,
}
use workflowy_mcp.OpLog.{
  max_error_len, truncation_mark, is_char_boundary, char_boundary_below, bounded_error,
}

-- How many continuation bytes follow a lead byte.
unfoldable pub trailing : ℕ → Option ℕ
trailing a =
    if ltb a 128
    then some 0
    else if leb 192 a && ltb a 224
    then some 1
    else if leb 224 a && ltb a 240
    then some 2
    else if leb 240 a && ltb a 248
    then some 3
    else none

-- Well-formed UTF-8 (overlong forms and surrogates aside), with `pending` continuation bytes first.
unfoldable pub utf8 : ℕ → Text → Bool
utf8 zero [] = true
utf8 (suc pending) [] = false
utf8 zero (a ∷ s) = elim (trailing a) [ none ↦ false | some pending ↦ utf8 pending s ]
utf8 (suc pending) (a ∷ s) = is_continuation a && utf8 pending s

none_pending :
    (pending b : ℕ) (s : Text)
    → utf8 pending (b ∷ s) ≡ true
    → is_continuation b ≡ false
    → utf8 pending [] ≡ true
unfolding utf8
none_pending zero b s h n = refl
none_pending (suc pending) b s h n = absurd (ground arith)

-- A cut at a boundary leaves no continuation byte pending.
utf8-take :
    (pending : ℕ) (s : Text) (cut : ℕ)
    → utf8 pending s ≡ true
    → is_char_boundary s (suc cut) ≡ true
    → utf8 pending (take (suc cut) s) ≡ true
unfolding utf8 is_char_boundary
utf8-take pending [] cut h b = absurd (ground arith)
utf8-take pending (a ∷ []) zero h b = h
utf8-take pending (a ∷ []) (suc cut) h b = absurd (ground arith)
utf8-take zero (a ∷ c ∷ s) zero h b = elim (Option-cases (trailing a)) [
  | inl bad ↦ absurd (ground (arith, bad))
  | inr (n, e) ↦ rw (e, utf8) (none_pending n c s (rw (e, utf8) at h) (ground arith))
]
utf8-take (suc pending) (a ∷ c ∷ s) zero h b = ground (arith, none_pending pending c s)
utf8-take zero (a ∷ c ∷ s) (suc cut) h b = elim (Option-cases (trailing a)) [
  | inl bad ↦ absurd (ground (arith, bad))
  | inr (n, e) ↦ rw (e, utf8) (utf8-take n (c ∷ s) cut (rw (e, utf8) at h) b)
]
utf8-take (suc pending) (a ∷ c ∷ s) (suc cut) h b = ground (arith, utf8-take pending (c ∷ s) cut)

utf8-append :
    (pending : ℕ) (s t : Text)
    → utf8 pending s ≡ true
    → utf8 0 t ≡ true
    → utf8 pending (s ++ t) ≡ true
unfolding utf8
utf8-append zero [] t h k = k
utf8-append (suc pending) [] t h k = absurd (ground arith)
utf8-append zero (a ∷ s) t h k = elim (Option-cases (trailing a)) [
  | inl bad ↦ absurd (ground (arith, bad))
  | inr (n, e) ↦ rw (e, utf8) (utf8-append n s t (rw (e, utf8) at h) k)
]
utf8-append (suc pending) (a ∷ s) t h k = ground (arith, utf8-append pending s t)

-- The loop stops at a boundary, or at 0.
char_boundary_below_stops :
    (s : Text) (cut : ℕ)
    → (char_boundary_below s cut ≤ cut) × (is_char_boundary s (char_boundary_below s cut) ≡ true)
unfolding char_boundary_below
char_boundary_below_stops s zero = (omega arith, unfold is_char_boundary in refl)
char_boundary_below_stops s (suc cut) = ground (arith, char_boundary_below_stops s cut)

utf8-take-boundary :
    (s : Text) (cut : ℕ)
    → utf8 0 s ≡ true
    → is_char_boundary s cut ≡ true
    → utf8 0 (take cut s) ≡ true
utf8-take-boundary s zero h b = unfold utf8 in refl
utf8-take-boundary s (suc cut) h b = utf8-take 0 s cut h b

utf8-truncation_mark : utf8 0 truncation_mark ≡ true
unfolding utf8 trailing is_continuation ascii
utf8-truncation_mark = refl

length-truncation_mark : length truncation_mark ≡ 14
unfolding ascii
length-truncation_mark = refl

-- finish_err never splits a character: well-formed error text of any length is stored as well-formed
-- text, of at most 512 bytes and the 14 of the mark; text of up to 512 bytes is stored as it is.
pub bounded_error_lem :
    (error : Text)
    → utf8 0 error ≡ true
    → (utf8 0 (bounded_error error) ≡ true)
      × (length (bounded_error error) ≤ max_error_len + 14)
      × ((bounded_error error ≡ error) ⊎ (max_error_len < length error))
unfolding bounded_error
bounded_error_lem error h =
    let stop = char_boundary_below_stops error max_error_len in
    let cut = char_boundary_below error max_error_len in
    let head = utf8-take-boundary error cut h stop.1 in
    let whole = utf8-append 0 (take cut error) truncation_mark head utf8-truncation_mark in
    let short = length-take-le cut error in
    let total = length-append (take cut error) truncation_mark in
    elim (Bool-cases (ltb max_error_len (length error))) [
      | inl long ↦ rw long (
        whole,
        omega (arith, stop.0, short, total, length-truncation_mark),
        inr (ground (arith, long)),
      )
      | inr fits ↦ rw fits (h, ground arith, inl refl)
    ]
