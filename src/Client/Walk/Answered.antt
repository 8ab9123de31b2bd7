-- ===== src/Client/Walk/Answered.antt =====
-- The subtree walk (api/client.rs) makes up no node: what holds of every node that the client answers holds
-- of every node that is fetched.
use mathlib.Core.List.{Memᴰ}
use mathlib.Core.List.Memᴰ
use mathlib.Core.Path.{subst}
use workflowy_mcp.Base.{
  ℕ, zero, suc, ◌+◌, ◌-◌, ◌≡◌, refl, sym, Bool, Option, some, List, [], ◌∷◌, ◌++◌, map, Text,
  length, take, leb, ltb, sorted-Memᴰ, Bool-cases, Option-cases, inl, inr, pair_fst, ◌||◌, ◌==◌,
}
use workflowy_mcp.Context.{WorkflowContext}
use workflowy_mcp.Error.{Result, ok, err, Result-cases}
use workflowy_mcp.Retry.{is_signal}
use workflowy_mcp.Types.{WorkflowyNode}
use workflowy_mcp.Client.Walk.{
  Reads, Drained, SubtreeFetch, status, push_level, drain, drain_on, retry_fetches, retry_now,
  retry_skipped_branches, recover_waves, recover_skipped_branches, recover_level, last_level,
  cut_level, fetch_descendants, fetched, descend_from, get_subtree_with_controls,
  order_level_by_parent, retry_window_wait_slack_ms,
}

module _ (P : WorkflowyNode → Type 0) where
  abbrev pub Every : List WorkflowyNode → Type 0
  Every xs = (v : WorkflowyNode) → Memᴰ v xs → P v

  Every-nil : Every []
  Every-nil v m = absurd (Memᴰ.not-nil m)

  Every-append : (xs ys : List WorkflowyNode) → Every xs → Every ys → Every (xs ++ ys)
  Every-append xs ys h k v m = elim (Memᴰ.append_cases xs m) [
    | inl first ↦ h v first
    | inr second ↦ k v second
  ]

  Every-one : (x : WorkflowyNode) → P x → Every (x ∷ [])
  Every-one x h v m = elim (Memᴰ.cases_cons m) [
    | inl here ↦ subst P (sym here) h
    | inr later ↦ absurd (Memᴰ.not-nil later)
  ]

  Every-take : (n : ℕ) (xs : List WorkflowyNode) → Every xs → Every (take n xs)
  Every-take zero xs h = Every-nil
  Every-take (suc n) [] h = h
  Every-take (suc n) (x ∷ xs) h = λ v m. elim (Memᴰ.cases_cons m) [
    | inl here ↦ h v (Memᴰ.head here)
    | inr later ↦ Every-take n xs (λ u k. h u (Memᴰ.tail k)) v later
  ]

  Every-order :
      (level parents : List WorkflowyNode)
      → Every level
      → Every (order_level_by_parent level parents)
  unfolding order_level_by_parent
  Every-order level parents h = elim (Bool-cases (length level == 0 || ltb (length parents) 2)) [
    | inl few ↦ rw few h
    | inr many ↦ rw many (λ v m. h v (sorted-Memᴰ _ v level m))
  ]

  module _ {W : Type 0} (reads : Reads W) (ctx : WorkflowContext W) (patient : Bool) (limit : ℕ)
      (listed : (id : Text) (w w' : W) (children : List WorkflowyNode)
        → reads.get_children_cancellable id w ≡ (ok children, w')
        → Every children) where
    Every-push_level :
        (level out : List WorkflowyNode)
        → Every level
        → Every out
        → Every (push_level reads ctx patient limit level out).0
    unfolding push_level
    Every-push_level [] out h k = k
    Every-push_level (n ∷ ns) out h k = elim (Bool-cases (leb limit (length out))) [
      | inl full ↦ rw (full, push_level) k
      | inr room ↦
          rw (room, push_level)
            (Every-push_level ns (out ++ n ∷ []) (λ v m. h v (Memᴰ.tail m))
              (Every-append out (n ∷ []) k (Every-one n (h n (Memᴰ.head refl)))))
    ]

    Every-drain_on :
        (again : List WorkflowyNode → List Text → W → Drained × W) (have : ℕ) (pending : List Text)
        (next : List WorkflowyNode) (skipped : List Text) (w : W)
        → ((u : W) → Every (again next skipped u).0.next_level)
        → Every next
        → Every (drain_on reads ctx patient limit again have pending next skipped w).0.next_level
    unfolding drain_on
    Every-drain_on again have pending next skipped w h k =
        elim (Bool-cases (leb limit (have + length next))) [
          | inl full ↦ rw (full, drain_on) k
          | inr room ↦
              let signal = status reads ctx patient limit w in
              elim (Option-cases signal.0) [
                | inr (r, on) ↦ rw (room, drain_on, on) k
                | inl off ↦ rw (room, drain_on, off) (h signal.1)
              ]
        ]

    Every-drain :
        (have : ℕ) (ids : List Text) (next : List WorkflowyNode) (skipped : List Text) (w : W)
        → Every next
        → Every (drain reads ctx patient limit have ids next skipped w).0.next_level
    unfolding drain
    Every-drain have [] next skipped w h = h
    Every-drain have (id ∷ rest) next skipped w h =
        let asked = reads.get_children_cancellable id w in
        elim (Result-cases asked.0) [
          | inl (children, e) ↦
              let more = Every-append next children h (listed id w asked.1 children (cc e)) in
              rw (e, drain)
                (Every-drain_on (drain reads ctx patient limit have rest) have rest
                  (next ++ children) skipped asked.1
                  (λ u. Every-drain have rest (next ++ children) skipped u more) more)
          | inr (x, e) ↦ elim (Bool-cases (is_signal x)) [
            | inl halt ↦ rw (e, drain, halt) h
            | inr other ↦
                rw (e, drain, other)
                  (Every-drain_on (drain reads ctx patient limit have rest) have rest next
                    (skipped ++ id ∷ []) asked.1
                    (λ u. Every-drain have rest next (skipped ++ id ∷ []) u h) h)
          ]
        ]

    Every-retry_fetches :
        (ids : List Text) (recovered : List WorkflowyNode) (failed : List Text) (w : W)
        → Every recovered
        → Every (retry_fetches reads ctx patient limit ids recovered failed w).0.0
    unfolding retry_fetches
    Every-retry_fetches [] recovered failed w h = h
    Every-retry_fetches (id ∷ rest) recovered failed w h =
        let asked = reads.get_children_cancellable id w in
        elim (Result-cases asked.0) [
          | inl (children, e) ↦
              rw (e, retry_fetches)
                (Every-retry_fetches rest (recovered ++ children) failed asked.1
                  (Every-append recovered children h (listed id w asked.1 children (cc e))))
          | inr (x, e) ↦
              rw (e, retry_fetches)
                (Every-retry_fetches rest recovered (failed ++ id ∷ []) asked.1 h)
        ]

    Every-retry_now :
        (ids : List Text) (w : W) → Every (retry_now reads ctx patient limit ids w).0.0
    unfolding retry_now
    Every-retry_now ids w =
        let order = reads.completion_order ids w in
        Every-retry_fetches order.0 [] [] order.1 Every-nil

    Every-retry_skipped :
        (ids : List Text) (w : W) → Every (retry_skipped_branches reads ctx patient limit ids w).0.0
    unfolding retry_skipped_branches
    Every-retry_skipped ids w =
        let signal = status reads ctx patient limit w in
        elim (Option-cases signal.0) [
          | inr (r, on) ↦ rw (on, retry_skipped_branches) Every-nil
          | inl off ↦
              let window = reads.retry_after_remaining_ms signal.1 in
              elim (Option-cases window.0) [
                | inl closed ↦
                    rw (off, retry_skipped_branches, closed) (Every-retry_now ids window.1)
                | inr (ms, open_window) ↦
                    let wait = ms + retry_window_wait_slack_ms in
                    let fits = reads.fits_budget wait window.1 in
                    elim (Bool-cases fits.0) [
                      | inr long ↦ rw (off, retry_skipped_branches, open_window, long) Every-nil
                      | inl short ↦
                          let again = status reads ctx patient limit (reads.sleep wait fits.1) in
                          elim (Option-cases again.0) [
                            | inr (r, on) ↦
                                rw (off, retry_skipped_branches, open_window, short, on) Every-nil
                            | inl still_off ↦
                                rw (off, retry_skipped_branches, open_window, short, still_off)
                                  (Every-retry_now ids again.1)
                          ]
                    ]
              ]
        ]

    Every-recover_waves :
        (fuel : ℕ) (recovered : List WorkflowyNode) (ids : List Text) (w : W)
        → Every recovered
        → Every (recover_waves reads ctx patient limit fuel recovered ids w).0.0
    unfolding recover_waves
    Every-recover_waves fuel recovered [] w h = h
    Every-recover_waves zero recovered (id ∷ ids) w h = h
    Every-recover_waves (suc fuel) recovered (id ∷ ids) w h =
        let signal = status reads ctx patient limit w in
        elim (Option-cases signal.0) [
          | inr (r, on) ↦ rw (on, recover_waves) h
          | inl off ↦
              let wave = retry_skipped_branches reads ctx patient limit (id ∷ ids) signal.1 in
              let more =
                Every-append recovered wave.0.0 h (Every-retry_skipped (id ∷ ids) signal.1) in
              elim (Bool-cases (leb (length (id ∷ ids)) (length wave.0.1))) [
                | inl stuck ↦ rw (off, recover_waves, stuck) more
                | inr onward ↦
                    rw (off, recover_waves, onward)
                      (Every-recover_waves fuel (recovered ++ wave.0.0) wave.0.1 wave.1 more)
              ]
        ]

    Every-recover_level :
        (ids : List Text) (w : W) → Every (recover_level reads ctx patient limit ids w).0.0
    unfolding recover_level recover_skipped_branches
    Every-recover_level [] w = Every-nil
    Every-recover_level (id ∷ ids) w =
        let first = retry_skipped_branches reads ctx patient limit (id ∷ ids) w in
        let got = Every-retry_skipped (id ∷ ids) w in
        elim (Bool-cases patient) [
          | inr hasty ↦ rw hasty got
          | inl waits ↦
              rw waits (Every-recover_waves (length first.0.1) first.0.0 first.0.1 first.1 got)
        ]

    Every-last_level :
        (level out : List WorkflowyNode) (skipped : List Text)
        → Every level
        → Every out
        → Every (last_level reads ctx patient limit level out skipped).out
    unfolding last_level
    Every-last_level level out skipped h k =
        elim (Bool-cases (ltb (limit - length out) (length level))) [
          | inl over ↦
              rw (over, last_level)
                (Every-append out (take (limit - length out) level) k
                  (Every-take (limit - length out) level h))
          | inr fits ↦ rw (fits, last_level) (Every-append out level k h)
        ]

    Every-fetch_descendants :
        (left : ℕ) (level out : List WorkflowyNode) (skipped : List Text) (w : W)
        → Every level
        → Every out
        → Every (fetch_descendants reads ctx patient limit left level out skipped w).0.out
    unfolding fetch_descendants cut_level
    Every-fetch_descendants zero level out skipped w h k = Every-last_level level out skipped h k
    Every-fetch_descendants (suc left) [] out skipped w h k = Every-last_level [] out skipped h k
    Every-fetch_descendants (suc left) (n ∷ ns) out skipped w h k =
        let level = n ∷ ns in
        let pushed = push_level reads ctx patient limit level out in
        let all_pushed = Every-push_level level out h k in
        elim (Option-cases pushed.1) [
          | inr (anchor, over) ↦ rw (over, fetch_descendants) all_pushed
          | inl fits ↦
              let signal = status reads ctx patient limit w in
              elim (Option-cases signal.0) [
                | inr (r, on) ↦ rw (fits, fetch_descendants, on) all_pushed
                | inl off ↦
                    let order = reads.completion_order (map (λ v. v.id) level) signal.1 in
                    let d = drain reads ctx patient limit (length pushed.0) order.0 [] [] order.1 in
                    let next = Every-drain (length pushed.0) order.0 [] [] order.1 Every-nil in
                    elim (Option-cases d.0.stop) [
                      | inr (r, halted) ↦
                          rw (fits, fetch_descendants, off, halted)
                            (Every-append pushed.0 _ all_pushed (
                              Every-take (limit - length pushed.0) _
                                (Every-order d.0.next_level level next)))
                      | inl drained ↦
                          let more = recover_level reads ctx patient limit d.0.level_skipped d.1 in
                          rw (fits, fetch_descendants, off, drained)
                            (Every-fetch_descendants left
                              (order_level_by_parent (d.0.next_level ++ more.0.0) level) pushed.0
                              (skipped ++ more.0.1) more.1
                              (Every-order (d.0.next_level ++ more.0.0) level (
                                Every-append d.0.next_level more.0.0 next
                                  (Every-recover_level d.0.level_skipped d.1)))
                              all_pushed)
                    ]
              ]
        ]

    abbrev IsAnswered : Result SubtreeFetch → Type 0
    IsAnswered (ok fetch) = Every fetch.nodes
    IsAnswered (err e) = Unit

    descend_from-IsAnswered :
        (max_depth : ℕ) (id : Text) (anchor : Option Text) (nodes : List WorkflowyNode) (w : W)
        → Every nodes
        → IsAnswered
            (descend_from reads ctx patient limit max_depth
              (reads.get_children_cancellable id)
              anchor
              nodes
              w).0
    unfolding descend_from fetched
    descend_from-IsAnswered max_depth id anchor nodes w h =
        let asked = reads.get_children_cancellable id w in
        elim (Result-cases asked.0) [
          | inl (level, e) ↦
              rw (e, descend_from)
                (Every-fetch_descendants max_depth level nodes [] asked.1
                  (listed id w asked.1 level (cc e)) h)
          | inr (x, e) ↦ elim (Bool-cases (is_signal x)) [
            | inl halt ↦ rw (e, descend_from, halt) h
            | inr other ↦ rw (e, descend_from, other) tt
          ]
        ]

    get_subtree-IsAnswered :
        (id : Text) (max_depth : ℕ) (w : W)
        → ((u u' : W) (n : WorkflowyNode) → reads.get_node_cancellable id u ≡ (ok n, u') → P n)
        → IsAnswered (get_subtree_with_controls reads ctx patient limit (some id) max_depth w).0
    unfolding get_subtree_with_controls fetched
    get_subtree-IsAnswered id max_depth w read =
        let signal = status reads ctx patient limit w in
        elim (Option-cases signal.0) [
          | inr (r, on) ↦ rw (on, get_subtree_with_controls) Every-nil
          | inl off ↦
              let found = reads.get_node_cancellable id signal.1 in
              elim (Result-cases found.0) [
                | inr (x, e) ↦ elim (Bool-cases (is_signal x)) [
                  | inl halt ↦ rw (off, get_subtree_with_controls, e, halt) Every-nil
                  | inr other ↦ rw (off, get_subtree_with_controls, e, other) tt
                ]
                | inl (root, e) ↦
                    let at_root = Every-one root (read signal.1 found.1 root (cc e)) in
                    elim (Bool-cases (leb limit 1)) [
                      | inl full ↦ rw (off, get_subtree_with_controls, e, full) at_root
                      | inr room ↦
                          let again = status reads ctx patient limit found.1 in
                          elim (Option-cases again.0) [
                            | inr (r, on) ↦ rw (off, get_subtree_with_controls, e, room, on) at_root
                            | inl still_off ↦
                                rw (off, get_subtree_with_controls, e, room, still_off)
                                  (descend_from-IsAnswered max_depth id (some id) (root ∷ [])
                                    again.1 at_root)
                          ]
                    ]
              ]
        ]

    pub get_subtree_with_controls-Every :
        (id : Text) (max_depth : ℕ) (w w' : W) (fetch : SubtreeFetch)
        → ((u u' : W) (n : WorkflowyNode) → reads.get_node_cancellable id u ≡ (ok n, u') → P n)
        → get_subtree_with_controls reads ctx patient limit (some id) max_depth w ≡ (ok fetch, w')
        → Every fetch.nodes
    get_subtree_with_controls-Every id max_depth w w' fetch read h =
        subst IsAnswered (pair_fst h) (get_subtree-IsAnswered id max_depth w read)
