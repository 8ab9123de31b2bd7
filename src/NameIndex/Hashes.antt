-- ===== src/NameIndex/Hashes.antt =====
-- The short hashes of the name index (utils/name_index.rs): what the two hash maps say of the ids that
-- are indexed, and that an insertion and a removal keep it.
use workflowy_mcp.Base.{
  ◌≤◌, ◌≡◌, ◌⊎◌, refl, sym, ap, ◌∙◌, true, false, ◌&&◌, none, some, Text, text_eq, text_eq_iff,
  text_eq_refl, Dict, lookup, erase, insert, contains_key, lookup-erase, lookup-insert, Bool-cases,
  Option-cases, ◌==◌, if◌then◌else◌, inl, inr, arith,
}
use workflowy_mcp.NameIndex.{
  PrefixEntry, short_hash_of, prefix_hash_of, remove_short, remove_prefix, insert_short,
  insert_prefix, bump,
}

-- Every short hash leads to an indexed id that has it.
abbrev pub ShortsOk : Dict Text → Dict Text → Type 0
ShortsOk by_id by_short =
    (short id : Text)
    → lookup short by_short ≡ some id
    → (contains_key id by_id ≡ true) × (short_hash_of id ≡ some short)

-- A prefix that is no collision leads to an indexed id that has it, and every indexed id with a
-- prefix is the one of its entry or the entry is a collision.
pub record PrefixesOk (by_id : Dict Text) (by_prefix : Dict PrefixEntry) : Type 0 where
  pub positive : (prefix : Text) (e : PrefixEntry) → lookup prefix by_prefix ≡ some e → 1 ≤ e.count
  pub sound :
      (prefix : Text) (e : PrefixEntry)
      → lookup prefix by_prefix ≡ some e
      → e.count ≡ 1
      → (contains_key e.full_uuid by_id ≡ true) × (prefix_hash_of e.full_uuid ≡ some prefix)
  pub covered :
      (id prefix : Text)
      → contains_key id by_id ≡ true
      → prefix_hash_of id ≡ some prefix
      → (e : PrefixEntry) × (lookup prefix by_prefix ≡ some e) × (e.count ≡ 1 → e.full_uuid ≡ id)

contains_key-insert :
    {V : Type 0} (k j : Text) (v : V) (m : Dict V)
    → contains_key j (insert k v m) ≡ (if text_eq k j then true else contains_key j m)
unfolding contains_key
contains_key-insert k j v m = ground (arith, lookup-insert k j v m)

contains_key-erase :
    {V : Type 0} (k j : Text) (m : Dict V)
    → contains_key j (erase k m) ≡ (if text_eq k j then false else contains_key j m)
unfolding contains_key
contains_key-erase k j m = ground (arith, lookup-erase k j m)

pub ShortsOk-insert :
    (id key : Text) (by_id by_short : Dict Text)
    → ShortsOk by_id by_short
    → ShortsOk (insert id key by_id) (insert_short id by_short)
unfolding insert_short
ShortsOk-insert id key by_id by_short ok s u h = elim (Option-cases (short_hash_of id)) [
  | inl e ↦
      let known = ok s u (rw (e, insert_short) at h) in
      (ground (arith, known.0, contains_key-insert id u key by_id), known.1)
  | inr (short, e) ↦
      let found = rw (e, insert_short) at h in
      ground (
        arith,
        e,
        found,
        lookup-insert short s id by_short,
        text_eq_iff short s,
        text_eq_iff id u,
        contains_key-insert id u key by_id,
        ok s u,
      )
]

pub ShortsOk-remove :
    (id : Text) (by_id by_short : Dict Text)
    → ShortsOk by_id by_short
    → ShortsOk (erase id by_id) (remove_short id by_short)
unfolding remove_short
ShortsOk-remove id by_id by_short ok s u h = elim (Option-cases (short_hash_of id)) [
  | inl e ↦ ground (arith, e, h, ok s u, contains_key-erase id u by_id, text_eq_iff id u)
  | inr (short, e) ↦ ground (
    arith,
    e,
    h,
    ok s u,
    contains_key-erase id u by_id,
    text_eq_iff id u,
    lookup-erase short s by_short,
    text_eq_iff short s,
    text_eq_refl id,
    Option-cases (lookup short by_short),
  )
]

module _ (id key : Text) (by_id : Dict Text) (by_prefix : Dict PrefixEntry) where
  -- What an insertion puts under the id's prefix.
  insert_prefix_lem :
      (prefix : Text)
      → prefix_hash_of id ≡ some prefix
      → (e : PrefixEntry) × (insert_prefix id by_prefix ≡ insert prefix e by_prefix)
        × (((lookup prefix by_prefix ≡ none) × (e.count ≡ 1) × (e.full_uuid ≡ id))
            ⊎ ((old : PrefixEntry) × (lookup prefix by_prefix ≡ some old) × (e ≡ bump id old)))
  unfolding insert_prefix
  insert_prefix_lem prefix h = elim (Option-cases (lookup prefix by_prefix)) [
    | inl e ↦ (record { full_uuid = id; count = 1 }, rw (h, e, insert_prefix), inl (e, refl, refl))
    | inr (old, e) ↦ (bump id old, rw (h, e, insert_prefix), inr (old, e, refl))
  ]

  bump_positive : (e : PrefixEntry) → 1 ≤ e.count → 1 ≤ (bump id e).count
  unfolding bump
  bump_positive e h = ground arith

  bump_single :
      (e : PrefixEntry) → 1 ≤ e.count → (bump id e).count ≡ 1 → (e.full_uuid ≡ id) × (bump id e ≡ e)
  unfolding bump
  bump_single e h single = elim (Bool-cases (text_eq e.full_uuid id)) [
    | inl same ↦ (ground (arith, same, text_eq_iff e.full_uuid id), rw (same, bump))
    | inr other ↦ let two = rw (other, bump) at single in ground (arith, two, h)
  ]

  -- What the entry that an insertion makes is, in the terms of the entries before it.
  record IsEntryFor (prefix : Text) (new : PrefixEntry) : Type 0 where
    positive : 1 ≤ new.count
    mine : new.count ≡ 1 → new.full_uuid ≡ id
    alone :
        (j : Text)
        → contains_key j by_id ≡ true
        → prefix_hash_of j ≡ some prefix
        → new.count ≡ 1
        → new.full_uuid ≡ j

  entry_for :
      (prefix : Text) (new : PrefixEntry)
      → PrefixesOk by_id by_prefix
      → ((lookup prefix by_prefix ≡ none) × (new.count ≡ 1) × (new.full_uuid ≡ id))
        ⊎ ((old : PrefixEntry) × (lookup prefix by_prefix ≡ some old) × (new ≡ bump id old))
      → IsEntryFor prefix new
  entry_for prefix new ok (inl (absent, single, same)) = record {
    positive = omega (arith, single);
    mine = λ h. same;
    alone = λ j at_j hash h.
        let (e, found, only) = ok.covered j prefix at_j hash in cc (sym absent ∙ found);
  }
  entry_for prefix new ok (inr (old, found, made)) = record {
    positive = rw made (bump_positive old (ok.positive prefix old found));
    mine = λ h.
        let (mine, kept) = bump_single old (ok.positive prefix old found) (rw made at h) in
        ap (λ e. e.full_uuid) (made ∙ kept) ∙ mine;
    alone = λ j at_j hash h.
        let (mine, kept) = bump_single old (ok.positive prefix old found) (rw made at h) in
        let (e, same, only) = ok.covered j prefix at_j hash in
        let equal : e ≡ old = cc (sym same ∙ found) in
        ap (λ x. x.full_uuid) (made ∙ kept ∙ sym equal)
        ∙ only (ap (λ x. x.count) (equal ∙ sym (made ∙ kept)) ∙ h);
  }

  PrefixesOk-insert_at :
      (prefix : Text) (new : PrefixEntry)
      → prefix_hash_of id ≡ some prefix
      → IsEntryFor prefix new
      → PrefixesOk by_id by_prefix
      → PrefixesOk (insert id key by_id) (insert prefix new by_prefix)
  PrefixesOk-insert_at prefix new hash is_for ok = record {
    positive = λ q x h.
        ground (arith, h, lookup-insert prefix q new by_prefix, ok.positive q x, is_for.positive);
    sound = λ q x h single. ground (
      arith,
      h,
      single,
      hash,
      lookup-insert prefix q new by_prefix,
      ok.sound q x,
      is_for.mine,
      text_eq_iff prefix q,
      contains_key-insert id x.full_uuid key by_id,
      text_eq_refl id,
    );
    covered = λ j q h at_j.
        let kept = contains_key-insert id j key by_id in
        let read = lookup-insert prefix q new by_prefix in
        elim (Bool-cases (text_eq prefix q)) [
          | inl same ↦ (
            new,
            ground (arith, read, same),
            λ single. elim (Bool-cases (text_eq id j)) [
              | inl mine ↦ is_for.mine single ∙ ground (arith, mine, text_eq_iff id j)
              | inr other ↦
                  is_for.alone j (ground (arith, kept, other, h))
                    (ground (arith, at_j, same, text_eq_iff prefix q)) single
            ],
          )
          | inr apart ↦
              let before : contains_key j by_id ≡ true =
                ground
                  (arith, kept, h, hash, at_j, apart, text_eq_iff id j, text_eq_iff prefix q) in
              let (e, found, only) = ok.covered j q before at_j in
              (e, ground (arith, read, apart, found), only)
        ];
  }

  pub PrefixesOk-insert :
      PrefixesOk by_id by_prefix → PrefixesOk (insert id key by_id) (insert_prefix id by_prefix)
  unfolding insert_prefix
  PrefixesOk-insert ok = elim (Option-cases (prefix_hash_of id)) [
    | inl e ↦
        rw (e, insert_prefix)
          record {
            positive = ok.positive;
            sound = λ q x h single.
                let (there, hash) = ok.sound q x h single in
                (ground (arith, there, contains_key-insert id x.full_uuid key by_id), hash);
            covered = λ j q h at_j.
                ok.covered j q
                  (ground (arith, h, contains_key-insert id j key by_id, e, at_j, text_eq_iff id j))
                  at_j;
          }
    | inr (prefix, e) ↦
        let (new, made, origin) = insert_prefix_lem prefix e in
        rw made (PrefixesOk-insert_at prefix new e (entry_for prefix new ok origin) ok)
  ]

  remove_prefix_cases :
      (q : Text)
      → (lookup q (remove_prefix id by_prefix) ≡ lookup q by_prefix)
        ⊎ ((e : PrefixEntry) × (lookup q by_prefix ≡ some e)
            × (e.count ≡ 1)
            × (e.full_uuid ≡ id)
            × (lookup q (remove_prefix id by_prefix) ≡ none))
  unfolding remove_prefix
  remove_prefix_cases q = elim (Option-cases (prefix_hash_of id)) [
    | inl e ↦ inl (rw (e, remove_prefix))
    | inr (prefix, e) ↦ elim (Option-cases (lookup prefix by_prefix)) [
      | inl absent ↦ inl (rw (e, absent, remove_prefix))
      | inr (x, found) ↦ elim (Bool-cases (x.count == 1 && text_eq x.full_uuid id)) [
        | inr held ↦ inl (rw (e, found, held, remove_prefix))
        | inl gone ↦ elim (Bool-cases (text_eq prefix q)) [
          | inr apart ↦ inl (
              rw (e, found, gone, remove_prefix)
                (ground (arith, apart, lookup-erase prefix q by_prefix)))
          | inl here ↦ inr (
            x,
            ground (arith, found, here, text_eq_iff prefix q),
            ground (arith, gone),
            ground (arith, gone, text_eq_iff x.full_uuid id),
            rw (e, found, gone, remove_prefix)
                (ground (arith, here, lookup-erase prefix q by_prefix)),
          )
        ]
      ]
    ]
  ]

  remove_prefix_gone :
      (q : Text) (e : PrefixEntry)
      → prefix_hash_of id ≡ some q
      → lookup q by_prefix ≡ some e
      → e.count ≡ 1
      → e.full_uuid ≡ id
      → lookup q (remove_prefix id by_prefix) ≡ none
  unfolding remove_prefix
  remove_prefix_gone q e hash found single mine = ground (
    arith,
    hash,
    found,
    single,
    mine,
    lookup-erase q q by_prefix,
    text_eq_refl q,
    text_eq_refl id,
    text_eq_iff e.full_uuid id,
  )

  remove_prefix_found :
      (q : Text) (x : PrefixEntry)
      → lookup q (remove_prefix id by_prefix) ≡ some x
      → lookup q by_prefix ≡ some x
  remove_prefix_found q x h = elim (remove_prefix_cases q) [
    | inl same ↦ sym same ∙ h
    | inr (e, found, single, mine, gone) ↦ cc (sym gone ∙ h)
  ]

  pub PrefixesOk-remove :
      PrefixesOk by_id by_prefix → PrefixesOk (erase id by_id) (remove_prefix id by_prefix)
  PrefixesOk-remove ok = record {
    positive = λ q x h. ok.positive q x (remove_prefix_found q x h);
    sound = λ q x h single.
        let found = remove_prefix_found q x h in
        let (there, hash) = ok.sound q x found single in
        elim (Bool-cases (text_eq id x.full_uuid)) [
          | inl mine ↦
              let same : id ≡ x.full_uuid = ground (arith, mine, text_eq_iff id x.full_uuid) in
              cc (
                sym (remove_prefix_gone q x (ap prefix_hash_of same ∙ hash) found single (sym same))
                ∙ h)
          | inr other ↦
              (ground (arith, there, other, contains_key-erase id x.full_uuid by_id), hash)
        ];
    covered = λ j q h at_j.
        let kept = contains_key-erase id j by_id in
        let (e, found, only) = ok.covered j q (ground (arith, kept, h)) at_j in
        elim (remove_prefix_cases q) [
          | inl same ↦ (e, same ∙ found, only)
          | inr (x, was, single, mine, gone) ↦
              let equal : e ≡ x = cc (sym found ∙ was) in
              let back : id ≡ j =
                sym mine
                ∙ sym (ap (λ y. y.full_uuid) equal)
                ∙ only (ap (λ y. y.count) equal ∙ single) in
              ground (arith, kept, h, back, text_eq_iff id j)
        ];
  }
