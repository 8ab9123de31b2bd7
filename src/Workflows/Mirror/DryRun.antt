-- ===== src/Workflows/Mirror/DryRun.antt =====
-- The dry run of a mirror (workflows.rs) says what the real run does.
use mathlib.Core.Path.{subst}
use workflowy_mcp.Base.{
  sym, ◌≡◌, Bool, refl, ap, ◌∙◌, true, false, ◌||◌, not, Option, none, some, [], ◌∷◌, ◌++◌, Text,
  ascii, Bool-cases, Option-cases, inl, inr, pair_fst, pair_snd, if◌then◌else◌,
}
use workflowy_mcp.Base.Int.{ℤ}
use workflowy_mcp.Error.{WorkflowyError, ok, err, Result-cases}
use workflowy_mcp.Types.{WorkflowyNode, CreatedNode, default_node}
use workflowy_mcp.Client.{Client}
use workflowy_mcp.Workflows.{
  MutationFootprint, new_footprint, invalidate_node, invalidate_parent, invalidate_cache_only,
  record_created,
}
use workflowy_mcp.Workflows.Mirror.{
  CreateMirrorResult, CreateMirrorDryRun, create_mirror_dry_run, create_mirror_via_convention,
  annotate, is_marked, audit_status_of, normalise_pillar, refuse_self_mirror, marked_description,
  text_of,
}

-- The description with a line for the marker at its end.
abbrev pub with_marker : Text → Text → Text
unfolding ascii
with_marker [] pillar = ascii "canonical_of: " ++ pillar
with_marker (c ∷ s) pillar = (c ∷ s) ++ 10 ∷ (ascii "canonical_of: " ++ pillar)

-- The note of a mirror.
abbrev pub mirror_note : Text → Text
unfolding ascii
mirror_note canonical_id = ascii "mirror_of: " ++ canonical_id

module _ {W : Type 0} (client : Client W) (extract_marker : Text → Text → Option Text) where
  -- The annotation of a canonical with this description: whether it is due, for which pillar, and whether it
  -- is made. One that is due is one edit of the description, which may fail.
  pub data Annotation (canonical_id description : Text)
      : Bool → Option Text → W → Bool → W → Type 0 where
    not_due :
        (pillar : Option Text) (w : W) → Annotation canonical_id description false pillar w false w
    edited :
        (pillar : Text) (w w' : W)
        → client.edit_node canonical_id none (some (with_marker description pillar)) w ≡ (ok tt, w')
        → Annotation canonical_id description true (some pillar) w true w'
    refused :
        (pillar : Text) (e : WorkflowyError) (w w' : W)
        → client.edit_node canonical_id none (some (with_marker description pillar)) w ≡ (err e, w')
        → Annotation canonical_id description true (some pillar) w false w'

  -- The real run, from its first world to its last, makes the calls that the dry run says: it reads the
  -- canonical, creates the mirror with its note under the target, and annotates exactly when that was said;
  -- and it reports what it did.
  pub record IsForetold (priority : Option ℤ) (plan : CreateMirrorDryRun) (w : W)
      (made : CreateMirrorResult) (fp : MutationFootprint) (end : W) : Type 0 where
    pub canonical : WorkflowyNode
    pub created : CreatedNode
    pub w₁ : W
    pub w₂ : W
    pub read : client.get_node plan.canonical_id w ≡ (ok canonical, w₁)
    pub mirrored :
        client.create_node plan.mirror_name
          (some (mirror_note plan.canonical_id))
          plan.target_parent_id
          priority
          w₁
        ≡ (ok created, w₂)
    pub annotation :
        Annotation plan.canonical_id
          (text_of canonical.description)
          plan.would_annotate_canonical
          plan.pillar
          w₂
          made.annotated_canonical
          end
    pub named : plan.mirror_name ≡ canonical.name
    pub marked :
        plan.canonical_already_marked
        ≡ (elim (extract_marker (text_of canonical.description) (ascii "canonical_of:")) [
          | none ↦ false
          | some _ ↦ true
        ])
    pub due :
        plan.would_annotate_canonical
        ≡ (elim plan.pillar [ none ↦ false | some _ ↦ not plan.canonical_already_marked ])
    pub mirror_id : made.mirror_id ≡ created.id
    pub name : made.name ≡ plan.mirror_name
    pub canonical_id : made.canonical_id ≡ plan.canonical_id
    pub target_parent_id : made.target_parent_id ≡ plan.target_parent_id
    pub audit_status : made.audit_status ≡ (
        if plan.canonical_already_marked || made.annotated_canonical
        then ascii "OK"
        else ascii "ORPHAN_canonical_lacks_marker")
    pub created_nodes :
        fp.created_nodes
        ≡ record default_node {
          id = made.mirror_id;
          name = plan.mirror_name;
          description = some (mirror_note plan.canonical_id);
          parent_id = plan.target_parent_id;
        }
          ∷ []

  marked_description_is :
      (description pillar : Text)
      → marked_description description pillar ≡ with_marker description pillar
  unfolding marked_description
  marked_description_is [] pillar = refl
  marked_description_is (c ∷ s) pillar = refl

  annotate-Annotation :
      (id : Text) (canonical : WorkflowyNode) (pillar : Option Text) (fp : MutationFootprint)
      (w : W)
      → (let ((annotated, f), end) = annotate client extract_marker id canonical pillar fp w in
          (f.created_nodes ≡ fp.created_nodes)
          × Annotation id
              (text_of canonical.description)
              (elim (normalise_pillar pillar) [
                | none ↦ false
                | some _ ↦ not (is_marked client extract_marker canonical)
              ])
              (normalise_pillar pillar)
              w
              annotated
              end)
  unfolding annotate invalidate_node
  annotate-Annotation id canonical pillar fp w = elim (Option-cases (normalise_pillar pillar)) [
    | inl e ↦ rw (e, annotate) (refl, not_due none w)
    | inr (p, e) ↦ elim (Bool-cases (is_marked client extract_marker canonical)) [
      | inl there ↦ rw (e, annotate, there) (refl, not_due (some p) w)
      | inr free ↦
          let text = text_of canonical.description in
          let edit = client.edit_node id none (some (marked_description text p)) w in
          let asked : client.edit_node id none (some (with_marker text p)) w ≡ edit =
            ap (λ d. client.edit_node id none (some d) w) (sym (marked_description_is text p)) in
          elim (Result-cases edit.0) [
            | inl (done, success) ↦
                rw (e, annotate, free, success) (refl, edited p w edit.1 (asked ∙ cc success))
            | inr (x, failure) ↦
                rw (e, annotate, free, failure) (refl, refused p x w edit.1 (asked ∙ cc failure))
          ]
    ]
  ]

  nodes-before :
      (id : Text) (parent : Option Text)
      → (invalidate_parent parent (invalidate_node id new_footprint)).created_nodes ≡ []
  unfolding invalidate_parent invalidate_cache_only invalidate_node
  nodes-before id none = refl
  nodes-before id (some p) = refl

  -- Where a dry run and a real run from the same state are not refused, the real run makes the calls that the
  -- dry run said, and no other: it creates the mirror with its note, and it annotates the canonical
  -- exactly when that was said. That edit may fail; the result says whether it did.
  pub create_mirror_dry_run-IsForetold :
      (canonical_id : Text) (target_parent_id : Option Text) (priority : Option ℤ)
      (pillar : Option Text) (w w₁ w₂ : W) (plan : CreateMirrorDryRun) (made : CreateMirrorResult)
      (fp : MutationFootprint)
      → create_mirror_dry_run client extract_marker canonical_id target_parent_id pillar w
        ≡ (ok plan, w₁)
      → create_mirror_via_convention client extract_marker canonical_id target_parent_id priority
          pillar w
        ≡ (ok (made, fp), w₂)
      → IsForetold priority plan w made fp w₂
  unfolding create_mirror_dry_run create_mirror_via_convention record_created audit_status_of
      is_marked
  create_mirror_dry_run-IsForetold canonical_id target_parent_id priority pillar w w₁ w₂ plan made
        fp h k =
      elim (Bool-cases (refuse_self_mirror canonical_id target_parent_id)) [
        | inl itself ↦ cc (pair_fst (rw (itself, create_mirror_dry_run) at h))
        | inr apart ↦
            let got = client.get_node canonical_id w in
            elim (Result-cases got.0) [
              | inr (e, failed) ↦ cc (pair_fst (rw (apart, create_mirror_dry_run, failed) at h))
              | inl (canonical, found) ↦
                  let note = mirror_note canonical_id in
                  let create =
                    client.create_node canonical.name (some note) target_parent_id priority got.1 in
                  elim (Result-cases create.0) [
                    | inr (e, failed) ↦
                        cc (pair_fst (rw (apart, create_mirror_via_convention, found, failed) at k))
                    | inl (created, success) ↦
                        let fp' =
                          record_created created.id canonical.name (some note) target_parent_id (
                            invalidate_parent target_parent_id
                              (invalidate_node canonical_id new_footprint)) in
                        let noted =
                          annotate client extract_marker canonical_id canonical pillar fp'
                            create.1 in
                        let (nodes, annotation) =
                          annotate-Annotation canonical_id canonical pillar fp' create.1 in
                        let plan' : CreateMirrorDryRun = record {
                          canonical_id = canonical_id;
                          target_parent_id = target_parent_id;
                          mirror_name = canonical.name;
                          canonical_already_marked = is_marked client extract_marker canonical;
                          would_annotate_canonical = elim (normalise_pillar pillar) [
                            | none ↦ false
                            | some _ ↦ not (is_marked client extract_marker canonical)
                          ];
                          pillar = normalise_pillar pillar;
                        } in
                        let made' : CreateMirrorResult = record {
                          mirror_id = created.id;
                          canonical_id = canonical_id;
                          target_parent_id = target_parent_id;
                          name = canonical.name;
                          audit_status =
                              audit_status_of
                                (is_marked client extract_marker canonical || noted.0.0);
                          annotated_canonical = noted.0.0;
                        } in
                        let mirror : WorkflowyNode = record default_node {
                          id = created.id;
                          name = canonical.name;
                          description = some note;
                          parent_id = target_parent_id;
                        } in
                        let back = rw (apart, create_mirror_via_convention, found, success) at k in
                        let planned : plan' ≡ plan =
                          cc (pair_fst (rw (apart, create_mirror_dry_run, found) at h)) in
                        let done : ◌≡◌ {A = CreateMirrorResult × MutationFootprint}
                            (made', noted.0.1) (made, fp) =
                          cc (pair_fst back) in
                        let foretold : IsForetold priority plan' w made' noted.0.1 noted.1 =
                          record {
                            canonical = canonical;
                            created = created;
                            w₁ = got.1;
                            w₂ = create.1;
                            read = cc found;
                            mirrored = cc success;
                            annotation = annotation;
                            named = refl;
                            marked = refl;
                            due = refl;
                            mirror_id = refl;
                            name = refl;
                            canonical_id = refl;
                            target_parent_id = refl;
                            audit_status = refl;
                            created_nodes =
                                nodes
                                ∙ ap (λ l. l ++ mirror ∷ [])
                                    (nodes-before canonical_id target_parent_id);
                          } in
                        subst (λ p. IsForetold priority p w made fp w₂) planned
                          (subst (λ r. IsForetold priority plan' w r.0 r.1 w₂) done
                            (subst (λ u. IsForetold priority plan' w made' noted.0.1 u)
                              (pair_snd back) foretold))
                  ]
            ]
      ]
