-- ===== src/Workflows/Mirror.antt =====
-- create_mirror_via_convention and create_mirror_dry_run (workflows.rs). extract_marker (audit.rs), which
-- rests on a regular-expression library, is a parameter.
pub mod DryRun
use workflowy_mcp.Base.{
  Bool, true, false, ◌||◌, ◌&&◌, not, Option, none, some, List, [], ◌∷◌, ◌++◌, Text, ascii, text_eq,
  trim, if◌then◌else◌,
}
use workflowy_mcp.Base.Int.{ℤ}
use workflowy_mcp.Error.{WorkflowyError, invalid_input, Result, ok, err, Io}
use workflowy_mcp.Types.{WorkflowyNode, CreatedNode}
use workflowy_mcp.Client.{Client}
use workflowy_mcp.Workflows.{
  MutationFootprint, new_footprint, invalidate_node, invalidate_parent, record_created,
}

pub record CreateMirrorResult : Type 0 where
  pub mirror_id : Text
  pub canonical_id : Text
  pub target_parent_id : Option Text
  pub name : Text
  pub audit_status : Text
  pub annotated_canonical : Bool

pub record CreateMirrorDryRun : Type 0 where
  pub canonical_id : Text
  pub target_parent_id : Option Text
  pub mirror_name : Text
  pub canonical_already_marked : Bool
  pub would_annotate_canonical : Bool
  pub pillar : Option Text

-- The refusal of a mirror of a node in itself.
unfoldable pub refuse_self_mirror : Text → Option Text → Bool
unfolding text_eq
refuse_self_mirror canonical_id none = false
refuse_self_mirror canonical_id (some target) = text_eq target canonical_id

unfoldable pub self_mirror_error : WorkflowyError
unfolding ascii
self_mirror_error = invalid_input (
    ascii "target_parent_id cannot equal canonical_node_id "
    ++ (226 ∷ 128 ∷ 148 ∷ ascii " a node cannot mirror itself into its own subtree"))

unfoldable pub normalise_pillar : Option Text → Option Text
unfolding trim
normalise_pillar none = none
normalise_pillar (some p) = elim (trim p) [ [] ↦ none | c ∷ s ↦ some (c ∷ s) ]

-- `unwrap_or_default()`
abbrev pub text_of : Option Text → Text
text_of none = []
text_of (some t) = t

unfoldable pub audit_status_of : Bool → Text
unfolding ascii
audit_status_of is_marked = if is_marked then ascii "OK" else ascii "ORPHAN_canonical_lacks_marker"

-- The description with the marker line at its end.
unfoldable pub marked_description : Text → Text → Text
unfolding ascii
marked_description description pillar =
    let marker_line = ascii "canonical_of: " ++ pillar in
    elim description [ [] ↦ marker_line | c ∷ s ↦ (c ∷ s) ++ (10 ∷ marker_line) ]

module _ {W : Type 0} (client : Client W) (extract_marker : Text → Text → Option Text) where
  unfoldable pub is_marked : WorkflowyNode → Bool
  unfolding ascii
  is_marked canonical =
      elim (extract_marker (text_of canonical.description) (ascii "canonical_of:")) [
        | none ↦ false
        | some _ ↦ true
      ]

  unfoldable pub create_mirror_dry_run : Text → Option Text → Option Text → Io W CreateMirrorDryRun
  unfolding refuse_self_mirror self_mirror_error normalise_pillar is_marked
  create_mirror_dry_run canonical_id target_parent_id pillar w =
      elim (refuse_self_mirror canonical_id target_parent_id) [
        | true ↦ (err self_mirror_error, w)
        | false ↦
            let (r, w') = client.get_node canonical_id w in
            elim r [
              | err e ↦ (err e, w')
              | ok canonical ↦
                  let pillar_norm = normalise_pillar pillar in
                  let already = is_marked canonical in
                  (
                    ok record {
                      canonical_id = canonical_id;
                      target_parent_id = target_parent_id;
                      mirror_name = canonical.name;
                      canonical_already_marked = already;
                      would_annotate_canonical = elim pillar_norm [
                        | none ↦ false
                        | some _ ↦ not already
                      ];
                      pillar = pillar_norm;
                    },
                    w',
                  )
            ]
      ]

  -- The best-effort edit: whether the canonical was annotated, and the footprint.
  unfoldable pub annotate :
      Text → WorkflowyNode → Option Text → MutationFootprint → W → (Bool × MutationFootprint) × W
  unfolding normalise_pillar is_marked marked_description invalidate_node
  annotate canonical_id canonical pillar fp w = elim (normalise_pillar pillar) [
    | none ↦ ((false, fp), w)
    | some p ↦ elim (is_marked canonical) [
      | true ↦ ((false, fp), w)
      | false ↦
          let new_desc = marked_description (text_of canonical.description) p in
          let (r, w') = client.edit_node canonical_id none (some new_desc) w in
          elim r [
            | ok _ ↦ ((true, invalidate_node canonical_id fp), w')
            | err _ ↦ ((false, fp), w')
          ]
    ]
  ]

  unfoldable pub create_mirror_via_convention :
      Text → Option Text → Option ℤ → Option Text → Io W (CreateMirrorResult × MutationFootprint)
  unfolding refuse_self_mirror self_mirror_error ascii invalidate_node invalidate_parent
      record_created annotate is_marked audit_status_of
  create_mirror_via_convention canonical_id target_parent_id priority pillar w =
      elim (refuse_self_mirror canonical_id target_parent_id) [
        | true ↦ (err self_mirror_error, w)
        | false ↦
            let (r, w₁) = client.get_node canonical_id w in
            elim r [
              | err e ↦ (err e, w₁)
              | ok canonical ↦
                  let mirror_note = ascii "mirror_of: " ++ canonical_id in
                  let (made, w₂) =
                    client.create_node canonical.name (some mirror_note) target_parent_id priority
                      w₁ in
                  elim made [
                    | err e ↦ (err e, w₂)
                    | ok created ↦
                        let fp =
                          record_created created.id canonical.name (some mirror_note)
                            target_parent_id
                            (invalidate_parent target_parent_id
                              (invalidate_node canonical_id new_footprint)) in
                        let ((annotated, footprint), w₃) =
                          annotate canonical_id canonical pillar fp w₂ in
                        (
                          ok (
                            record {
                              mirror_id = created.id;
                              canonical_id = canonical_id;
                              target_parent_id = target_parent_id;
                              name = canonical.name;
                              audit_status = audit_status_of (is_marked canonical || annotated);
                              annotated_canonical = annotated;
                            },
                            footprint,
                          ),
                          w₃,
                        )
                  ]
            ]
      ]
