-- ===== src/Client/Walk/Drains.antt =====
-- The fan-outs of the subtree walk (api/client.rs): each branch that is asked for is fetched or reported
-- as dropped, by the first requests and by the waves of retries.
use mathlib.Core.List.{Memᴰ}
use mathlib.Core.List.Memᴰ
use mathlib.Core.Path.{subst}
use workflowy_mcp.Base.{
  ℕ, zero, suc, ◌+◌, ◌≡◌, ◌⊎◌, sym, ap, ◌∙◌, Bool, none, List, [], ◌∷◌, ◌++◌, Text, length, leb,
  Bool-cases, Option-cases, inl, inr,
}
use workflowy_mcp.Context.{WorkflowContext}
use workflowy_mcp.Error.{ok, Result-cases}
use workflowy_mcp.Retry.{is_signal}
use workflowy_mcp.Types.{WorkflowyNode}
use workflowy_mcp.Client.Walk.{
  Reads, Drained, status, drain, drain_on, retry_fetches, retry_now, retry_skipped_branches,
  recover_waves, recover_skipped_branches, recover_level,
}

-- Every node of the first list is one of the second.
abbrev pub Within {ℓ} : {A : Type ℓ} → List A → List A → Type ℓ
Within {A = A} xs ys = (a : A) → Memᴰ a xs → Memᴰ a ys

-- What the client's answers have to do with the tree: every listing that is answered is the one of the
-- tree, and the requests of a fan-out all end.
pub record ReadsTree {W : Type 0} (reads : Reads W) (kids : Text → List WorkflowyNode)
    : Type 0 where
  pub listed :
      (id : Text) (w w' : W) (children : List WorkflowyNode)
      → reads.get_children_cancellable id w ≡ (ok children, w')
      → children ≡ kids id
  pub all_end :
      (ids : List Text) (w : W) (id : Text) → Memᴰ id ids → Memᴰ id (reads.completion_order ids w).0

module _ {W : Type 0} (reads : Reads W) (ctx : WorkflowContext W) (patient : Bool) (limit : ℕ)
    (kids : Text → List WorkflowyNode) (reads_tree : ReadsTree reads kids) where
  -- The branch is fetched or reported.
  abbrev pub Accounted : List WorkflowyNode → List Text → Text → Type 0
  Accounted nodes failed id = Within (kids id) nodes ⊎ Memᴰ id failed

  -- Nothing is lost, and what is asked for is accounted for.
  pub record Drains (order : List Text) (next : List WorkflowyNode) (skipped : List Text)
      (next' : List WorkflowyNode) (skipped' : List Text) : Type 0 where
    pub kept_nodes : Within next next'
    pub kept_failed : Within skipped skipped'
    pub accounts : (id : Text) → Memᴰ id order → Accounted next' skipped' id

  Drains-nil :
      (next : List WorkflowyNode) (skipped : List Text) → Drains [] next skipped next skipped
  Drains-nil next skipped = record {
    kept_nodes = λ a m. m;
    kept_failed = λ a m. m;
    accounts = λ id m. absurd (Memᴰ.not-nil m);
  }

  Drains-ok :
      (id : Text) (rest : List Text) (next children : List WorkflowyNode) (skipped : List Text)
      (next' : List WorkflowyNode) (skipped' : List Text)
      → children ≡ kids id
      → Drains rest (next ++ children) skipped next' skipped'
      → Drains (id ∷ rest) next skipped next' skipped'
  Drains-ok id rest next children skipped next' skipped' same d = record {
    kept_nodes = λ a m. d.kept_nodes a (Memᴰ.append_left children m);
    kept_failed = d.kept_failed;
    accounts = λ j m. elim (Memᴰ.cases_cons m) [
      | inr later ↦ d.accounts j later
      | inl here ↦ inl (λ a k.
          d.kept_nodes a (Memᴰ.append_right next (subst (Memᴰ a) (ap kids here ∙ sym same) k)))
    ];
  }

  Drains-err :
      (id : Text) (rest : List Text) (next : List WorkflowyNode) (skipped : List Text)
      (next' : List WorkflowyNode) (skipped' : List Text)
      → Drains rest next (skipped ++ id ∷ []) next' skipped'
      → Drains (id ∷ rest) next skipped next' skipped'
  Drains-err id rest next skipped next' skipped' d = record {
    kept_nodes = d.kept_nodes;
    kept_failed = λ a m. d.kept_failed a (Memᴰ.append_left (id ∷ []) m);
    accounts = λ j m. elim (Memᴰ.cases_cons m) [
      | inr later ↦ d.accounts j later
      | inl here ↦ inr (d.kept_failed j (Memᴰ.append_right skipped (Memᴰ.head here)))
    ];
  }

  drain_on-continues :
      (again : List WorkflowyNode → List Text → W → Drained × W) (have : ℕ) (rest : List Text)
      (next : List WorkflowyNode) (skipped : List Text) (w : W)
      → (drain_on reads ctx patient limit again have rest next skipped w).0.stop ≡ none
      → (w' : W) × (drain_on reads ctx patient limit again have rest next skipped w
          ≡ again next skipped w')
  unfolding drain_on
  drain_on-continues again have rest next skipped w h =
      elim (Bool-cases (leb limit (have + length next))) [
        | inl full ↦ cc (rw (full, drain_on) at h)
        | inr room ↦
            let signal = status reads ctx patient limit w in
            elim (Option-cases signal.0) [
              | inr (r, on) ↦ cc (rw (room, drain_on, on) at h)
              | inl off ↦ (signal.1, rw (room, drain_on, off))
            ]
      ]

  pub drain-Drains :
      (have : ℕ) (order : List Text) (next : List WorkflowyNode) (skipped : List Text) (w : W)
      → (drain reads ctx patient limit have order next skipped w).0.stop ≡ none
      → (let d = (drain reads ctx patient limit have order next skipped w).0 in
          Drains order next skipped d.next_level d.level_skipped)
  unfolding drain
  drain-Drains have [] next skipped w h = Drains-nil next skipped
  drain-Drains have (id ∷ rest) next skipped w h =
      let asked = reads.get_children_cancellable id w in
      let again = drain reads ctx patient limit have rest in
      elim (Result-cases asked.0) [
        | inl (children, e) ↦
            let h' = rw (e, drain) at h in
            let (w', same) =
              drain_on-continues again have rest (next ++ children) skipped asked.1 h' in
            let answer : reads.get_children_cancellable id w ≡ (ok children, asked.1) = cc e in
            rw (e, drain)
              (rw same (
                Drains-ok id rest next children skipped _ _
                  (reads_tree.listed id w asked.1 children answer)
                  (drain-Drains have rest (next ++ children) skipped w' (rw same at h'))))
        | inr (x, e) ↦ elim (Bool-cases (is_signal x)) [
          | inl halt ↦ cc (rw (e, drain, halt) at h)
          | inr other ↦
              let h' = rw (e, drain, other) at h in
              let (w', same) =
                drain_on-continues again have rest next (skipped ++ id ∷ []) asked.1 h' in
              rw (e, drain, other)
                (rw same (
                  Drains-err id rest next skipped _ _
                    (drain-Drains have rest next (skipped ++ id ∷ []) w' (rw same at h'))))
        ]
      ]

  retry_fetches-Drains :
      (order : List Text) (recovered : List WorkflowyNode) (failed : List Text) (w : W)
      → (let r = (retry_fetches reads ctx patient limit order recovered failed w).0 in
          Drains order recovered failed r.0 r.1)
  unfolding retry_fetches
  retry_fetches-Drains [] recovered failed w = Drains-nil recovered failed
  retry_fetches-Drains (id ∷ rest) recovered failed w =
      let asked = reads.get_children_cancellable id w in
      elim (Result-cases asked.0) [
        | inl (children, e) ↦
            let answer : reads.get_children_cancellable id w ≡ (ok children, asked.1) = cc e in
            rw (e, retry_fetches)
              (Drains-ok id rest recovered children failed _ _
                (reads_tree.listed id w asked.1 children answer)
                (retry_fetches-Drains rest (recovered ++ children) failed asked.1))
        | inr (x, e) ↦
            rw (e, retry_fetches)
              (Drains-err id rest recovered failed _ _
                (retry_fetches-Drains rest recovered (failed ++ id ∷ []) asked.1))
      ]

  -- What a recovery of these branches returns.
  abbrev pub Recovers : List Text → List WorkflowyNode × List Text → Type 0
  Recovers ids r = (id : Text) → Memᴰ id ids → Accounted r.0 r.1 id

  retry_now-Recovers :
      (ids : List Text) (w : W) → Recovers ids (retry_now reads ctx patient limit ids w).0
  unfolding retry_now
  retry_now-Recovers ids w id m =
      let order = reads.completion_order ids w in
      let d = retry_fetches-Drains order.0 [] [] order.1 in
      d.accounts id (reads_tree.all_end ids w id m)

  retry_skipped-Recovers :
      (ids : List Text) (w : W)
      → Recovers ids (retry_skipped_branches reads ctx patient limit ids w).0
  unfolding retry_skipped_branches
  retry_skipped-Recovers ids w =
      let signal = status reads ctx patient limit w in
      elim (Option-cases signal.0) [
        | inr (r, on) ↦ rw (on, retry_skipped_branches) (λ id m. inr m)
        | inl off ↦
            let remaining = reads.retry_after_remaining_ms signal.1 in
            elim (Option-cases remaining.0) [
              | inl free ↦
                  rw (off, retry_skipped_branches, free) (retry_now-Recovers ids remaining.1)
              | inr (ms, wait) ↦
                  let fits = reads.fits_budget (ms + 500) remaining.1 in
                  elim (Bool-cases fits.0) [
                    | inr late ↦ rw (off, retry_skipped_branches, wait, late) (λ id m. inr m)
                    | inl soon ↦
                        let again =
                          status reads ctx patient limit (reads.sleep (ms + 500) fits.1) in
                        elim (Option-cases again.0) [
                          | inr (r, on) ↦
                              rw (off, retry_skipped_branches, wait, soon, on) (λ id m. inr m)
                          | inl still_off ↦
                              rw (off, retry_skipped_branches, wait, soon, still_off)
                                (retry_now-Recovers ids again.1)
                        ]
                  ]
            ]
      ]

  recover_waves-Recovers :
      (fuel : ℕ) (recovered : List WorkflowyNode) (ids : List Text) (w : W)
      → (let r = (recover_waves reads ctx patient limit fuel recovered ids w).0 in
          Within recovered r.0 × Recovers ids r)
  unfolding recover_waves
  recover_waves-Recovers zero recovered [] w = (λ a m. m, λ id m. inr m)
  recover_waves-Recovers (suc fuel) recovered [] w = (λ a m. m, λ id m. inr m)
  recover_waves-Recovers zero recovered (id ∷ ids) w = (λ a m. m, λ id m. inr m)
  recover_waves-Recovers (suc fuel) recovered (id ∷ ids) w =
      let signal = status reads ctx patient limit w in
      elim (Option-cases signal.0) [
        | inr (r, on) ↦ rw (on, recover_waves) (λ a m. m, λ id m. inr m)
        | inl off ↦
            let wave = retry_skipped_branches reads ctx patient limit (id ∷ ids) signal.1 in
            let done = retry_skipped-Recovers (id ∷ ids) signal.1 in
            let more = wave.0.0 in
            let still = wave.0.1 in
            elim (Bool-cases (leb (length (id ∷ ids)) (length still))) [
              | inl stuck ↦
                  rw (off, recover_waves, stuck)
                    (
                      λ a m. Memᴰ.append_left more m,
                      λ j m. elim (done j m) [
                        | inl found ↦ inl (λ a k. Memᴰ.append_right recovered (found a k))
                        | inr failed ↦ inr failed
                      ],
                    )
              | inr fewer ↦
                  let (kept, rest) = recover_waves-Recovers fuel (recovered ++ more) still wave.1 in
                  rw (off, recover_waves, fewer)
                    (
                      λ a m. kept a (Memᴰ.append_left more m),
                      λ j m. elim (done j m) [
                        | inl found ↦ inl (λ a k. kept a (Memᴰ.append_right recovered (found a k)))
                        | inr failed ↦ rest j failed
                      ],
                    )
            ]
      ]

  recover_skipped-Recovers :
      (ids : List Text) (w : W)
      → Recovers ids (recover_skipped_branches reads ctx patient limit ids w).0
  unfolding recover_skipped_branches
  recover_skipped-Recovers ids w =
      let first = retry_skipped_branches reads ctx patient limit ids w in
      let done = retry_skipped-Recovers ids w in
      elim (Bool-cases patient) [
        | inr hasty ↦ rw (hasty, recover_skipped_branches) (rw hasty at done)
        | inl waits ↦
            let (kept, rest) =
              recover_waves-Recovers (length first.0.1) first.0.0 first.0.1 first.1 in
            let made : Recovers ids
                (recover_waves reads ctx patient limit (length first.0.1) first.0.0 first.0.1
                  first.1).0 =
              λ j m. elim (done j m) [
                | inl found ↦ inl (λ a k. kept a (found a k))
                | inr failed ↦ rest j failed
              ] in
            rw (waits, recover_skipped_branches) (rw waits at made)
      ]

  pub recover_level-Recovers :
      (ids : List Text) (w : W) → Recovers ids (recover_level reads ctx patient limit ids w).0
  unfolding recover_level
  recover_level-Recovers [] w = λ id m. absurd (Memᴰ.not-nil m)
  recover_level-Recovers (id ∷ ids) w = recover_skipped-Recovers (id ∷ ids) w
