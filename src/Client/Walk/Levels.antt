-- ===== src/Client/Walk/Levels.antt =====
-- What the levels of the subtree walk (api/client.rs, fetch_descendants) cover.
use mathlib.Core.List.{Memᴰ, append_assoc, append-nil}
use mathlib.Core.List.Memᴰ
use mathlib.Core.Path.{subst}
use workflowy_mcp.Base.{
  ℕ, zero, suc, ◌-◌, ◌≤◌, ◌≡◌, ◌≢◌, ◌⊎◌, refl, sym, ap, ◌∙◌, Bool, none, List, [], ◌∷◌, ◌++◌, map,
  Text, length, leb, ltb, Memᴰ-sort_by, Bool-cases, Option-cases, inl, inr, arith, ◌||◌, ◌==◌,
}
use workflowy_mcp.Context.{WorkflowContext}
use workflowy_mcp.Types.{WorkflowyNode}
use workflowy_mcp.Client.Walk.{
  Reads, Drained, TruncationReason, TruncationOutcome, status, push_level, drain, recover_level,
  last_level, cut_level, fetch_descendants, order_level_by_parent, with_skipped, complete, stopped,
}
use workflowy_mcp.Client.Walk.Drains.{
  Within, ReadsTree, Accounted, drain-Drains, recover_level-Recovers,
}

-- So many levels below one of the nodes.
abbrev pub Below : (Text → List WorkflowyNode) → ℕ → List WorkflowyNode → WorkflowyNode → Type 0
Below kids zero level v = Memᴰ v level
Below kids (suc n) level v = (u : WorkflowyNode) × Memᴰ u level × Below kids n (kids u.id) v

Below-Within :
    (kids : Text → List WorkflowyNode) (n : ℕ) (xs ys : List WorkflowyNode) (v : WorkflowyNode)
    → Within xs ys
    → Below kids n xs v
    → Below kids n ys v
Below-Within kids zero xs ys v h b = h v b
Below-Within kids (suc n) xs ys v h (u, there, b) = (u, h u there, b)

Memᴰ-order_level :
    (v : WorkflowyNode) (level parents : List WorkflowyNode)
    → Memᴰ v level
    → Memᴰ v (order_level_by_parent level parents)
unfolding order_level_by_parent
Memᴰ-order_level v level parents h =
    elim (Bool-cases (length level == 0 || ltb (length parents) 2)) [
      | inl few ↦ rw few h
      | inr many ↦ rw many (Memᴰ-sort_by _ v level h)
    ]

skipped-append :
    (o : TruncationOutcome) (skipped : List Text)
    → (with_skipped o skipped).reason ≡ none
    → (skipped ≡ []) × (o.reason ≡ none)
unfolding with_skipped
skipped-append o [] h = (refl, h)
skipped-append o (id ∷ ids) h = elim (Option-cases o.reason) [
  | inl e ↦ cc (rw (e, with_skipped) at h)
  | inr (r, e) ↦ cc (sym e ∙ rw (e, with_skipped) at h)
]

append_nil {ℓ} : {A : Type ℓ} (xs ys : List A) → xs ++ ys ≡ [] → (xs ≡ []) × (ys ≡ [])
append_nil [] ys h = (refl, h)
append_nil (x ∷ xs) ys h = cc h

module _ {W : Type 0} (reads : Reads W) (ctx : WorkflowContext W) (patient : Bool) (limit : ℕ)
    (kids : Text → List WorkflowyNode) (reads_tree : ReadsTree reads kids) where
  push_level-all :
      (level out : List WorkflowyNode)
      → (push_level reads ctx patient limit level out).1 ≡ none
      → (push_level reads ctx patient limit level out).0 ≡ out ++ level
  unfolding push_level
  push_level-all [] out h = sym (append-nil out)
  push_level-all (n ∷ ns) out h = elim (Bool-cases (leb limit (length out))) [
    | inl full ↦ cc (rw (full, push_level) at h)
    | inr room ↦
        rw (room, push_level)
          (push_level-all ns (out ++ n ∷ []) (rw (room, push_level) at h)
            ∙ append_assoc out (n ∷ []) ns)
  ]

  -- What a walk that is not reported as stopped has found: it dropped nothing before, it keeps what it
  -- had, and it has every node down to the depth that is left.
  pub record Covered (left : ℕ) (level out : List WorkflowyNode) (skipped : List Text)
      (done : List WorkflowyNode) : Type 0 where
    pub nothing_skipped : skipped ≡ []
    pub kept : Within out done
    pub reached : (n : ℕ) (v : WorkflowyNode) → n ≤ left → Below kids n level v → Memᴰ v done

  last_level-Covered :
      (level out : List WorkflowyNode) (skipped : List Text)
      → (last_level reads ctx patient limit level out skipped).outcome.reason ≡ none
      → Covered 0 level out skipped (last_level reads ctx patient limit level out skipped).out
  unfolding last_level
  last_level-Covered level out skipped h =
      elim (Bool-cases (ltb (limit - length out) (length level))) [
        | inl over ↦ cc ((skipped-append _ skipped (rw (over, last_level) at h)).1)
        | inr fits ↦
            rw (fits, last_level)
              record {
                nothing_skipped = (skipped-append complete skipped (rw (fits, last_level) at h)).0;
                kept = λ a m. Memᴰ.append_left level m;
                reached = λ n v few b. at_top n v few b;
              }
      ]
    where
      at_top : (n : ℕ) (v : WorkflowyNode) → n ≤ 0 → Below kids n level v → Memᴰ v (out ++ level)
      at_top zero v few b = Memᴰ.append_right out b
      at_top (suc n) v few b = absurd (omega arith)

  Covered-nil :
      (left : ℕ) (out : List WorkflowyNode) (skipped : List Text) (done : List WorkflowyNode)
      → Covered 0 [] out skipped done
      → Covered left [] out skipped done
  Covered-nil left out skipped done c = record {
    nothing_skipped = c.nothing_skipped;
    kept = c.kept;
    reached = λ n v few b. nowhere n v b;
  }
    where
      nowhere : (n : ℕ) (v : WorkflowyNode) → Below kids n [] v → Memᴰ v done
      nowhere zero v b = absurd (Memᴰ.not-nil b)
      nowhere (suc n) v (u, there, b) = absurd (Memᴰ.not-nil there)

  -- One level down.
  Covered-level :
      (left : ℕ) (level next out pushed : List WorkflowyNode) (skipped still : List Text)
      (done : List WorkflowyNode)
      → ((u : WorkflowyNode) → Memᴰ u level → Within (kids u.id) next ⊎ Memᴰ u.id still)
      → pushed ≡ out ++ level
      → Covered left next pushed (skipped ++ still) done
      → Covered (suc left) level out skipped done
  Covered-level left level next out pushed skipped still done fetched_all same c =
      let (before, now) = append_nil skipped still c.nothing_skipped in
      record {
        nothing_skipped = before;
        kept = λ a m. c.kept a (subst (Memᴰ a) (sym same) (Memᴰ.append_left level m));
        reached = λ n v few b.
            elim n as (λ k. k ≤ suc left → Below kids k level v → Memᴰ v done) [
              | zero ↦ λ _ here. c.kept v (subst (Memᴰ v) (sym same) (Memᴰ.append_right out here))
              | suc m ↦ λ fewer (u, there, lower). elim (fetched_all u there) [
                | inl all_kids ↦
                    c.reached m v (omega arith)
                      (Below-Within kids m (kids u.id) next v all_kids lower)
                | inr lost ↦ absurd (Memᴰ.not-nil (subst (Memᴰ u.id) now lost))
              ]
            ]
              few b;
      }

  Memᴰ-ids :
      (u : WorkflowyNode) (level : List WorkflowyNode)
      → Memᴰ u level
      → Memᴰ u.id (map (λ v. v.id) level)
  Memᴰ-ids u [] m = absurd (Memᴰ.not-nil m)
  Memᴰ-ids u (v ∷ level) m = elim (Memᴰ.cases_cons m) [
    | inl here ↦ Memᴰ.head (ap (λ x. x.id) here)
    | inr there ↦ Memᴰ.tail (Memᴰ-ids u level there)
  ]

  level_accounts :
      (id : Text) (next more parents : List WorkflowyNode) (failed still : List Text)
      → Accounted reads ctx patient limit kids reads_tree next failed id
      → (Memᴰ id failed → Accounted reads ctx patient limit kids reads_tree more still id)
      → Accounted reads ctx patient limit kids reads_tree
          (order_level_by_parent (next ++ more) parents)
          still
          id
  level_accounts id next more parents failed still first second = elim first [
    | inl found ↦
        inl (λ a k. Memᴰ-order_level a (next ++ more) parents (Memᴰ.append_left more (found a k)))
    | inr dropped ↦ elim (second dropped) [
      | inl found ↦
          inl
            (λ a k. Memᴰ-order_level a (next ++ more) parents (Memᴰ.append_right next (found a k)))
      | inr lost ↦ inr lost
    ]
  ]

  cut_level-reason :
      (r : TruncationReason) (d : Drained) (level out : List WorkflowyNode) (skipped : List Text)
      → (cut_level reads ctx patient limit r d level out skipped).outcome.reason ≢ none
  unfolding cut_level
  cut_level-reason r d level out skipped h =
      cc ((skipped-append (stopped r _) (skipped ++ d.level_skipped) h).1)

  pub fetch_descendants-Covered :
      (left : ℕ) (level out : List WorkflowyNode) (skipped : List Text) (w : W)
      → (let done = (fetch_descendants reads ctx patient limit left level out skipped w).0 in
          done.outcome.reason ≡ none → Covered left level out skipped done.out)
  unfolding fetch_descendants
  fetch_descendants-Covered zero level out skipped w h = last_level-Covered level out skipped h
  fetch_descendants-Covered (suc left) [] out skipped w h =
      Covered-nil (suc left) out skipped _ (last_level-Covered [] out skipped h)
  fetch_descendants-Covered (suc left) (n ∷ ns) out skipped w h =
      let level = n ∷ ns in
      let pushed = push_level reads ctx patient limit level out in
      elim (Option-cases pushed.1) [
        | inr (anchor, over) ↦ cc (rw (over, fetch_descendants) at h)
        | inl fits ↦
            let signal = status reads ctx patient limit w in
            elim (Option-cases signal.0) [
              | inr (r, on) ↦ cc (rw (fits, fetch_descendants, on) at h)
              | inl off ↦
                  let order = reads.completion_order (map (λ v. v.id) level) signal.1 in
                  let d = drain reads ctx patient limit (length pushed.0) order.0 [] [] order.1 in
                  elim (Option-cases d.0.stop) [
                    | inr (r, halted) ↦ absurd (
                        cut_level-reason r d.0 level pushed.0 skipped
                          (rw (fits, fetch_descendants, off, halted) at h))
                    | inl drained ↦
                        let more = recover_level reads ctx patient limit d.0.level_skipped d.1 in
                        let next = order_level_by_parent (d.0.next_level ++ more.0.0) level in
                        let drains =
                          drain-Drains reads ctx patient limit kids reads_tree (length pushed.0)
                            order.0 [] [] order.1 drained in
                        let lower =
                          fetch_descendants-Covered left next pushed.0 (skipped ++ more.0.1) more.1
                            (rw (fits, fetch_descendants, off, drained) at h) in
                        rw (fits, fetch_descendants, off, drained)
                          (Covered-level left level next out pushed.0 skipped more.0.1 _
                            (λ u m.
                              level_accounts u.id d.0.next_level more.0.0 level d.0.level_skipped
                                more.0.1
                                (drains.accounts u.id (
                                  reads_tree.all_end (map (λ v. v.id) level) signal.1 u.id
                                    (Memᴰ-ids u level m)))
                                (recover_level-Recovers reads ctx patient limit kids reads_tree
                                  d.0.level_skipped d.1 u.id))
                            (push_level-all level out fits) lower)
                  ]
            ]
      ]
