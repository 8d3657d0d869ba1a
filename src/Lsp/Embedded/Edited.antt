-- ===== src/Lsp/Embedded/Edited.antt =====
-- An edit of embedded_edits.go changes nothing in the YAML document but the mapping.
use bloblang_lsp.Common.{
  Text, Bool, true, false, ◌&&◌, ◌||◌, Option, none, some, text_eq_iff, nat_beq_iff, ◌≡◌, refl, sym,
  subst, Bool-cases, ◌⊎◌, inl, inr, arith, ltb, leb, length,
}
use bloblang_lsp.Lsp.Embedded.{
  EmbeddedRegion, YamlInfo, YamlNode, node, YamlNodes, no_nodes, and_nodes, TextLibrary, TextEdit,
  is_target, same_info, same_value, equivalent, all_equivalent, has_target, valid_trees,
  edited_host, valid_replacement, replacement_of, edit_of, quoted_text, checked_edit,
  replace_source,
}

-- All but the value; lines and columns may differ.
abbrev pub SameProperties : YamlInfo → YamlInfo → Type 0
SameProperties a b =
    (a.kind ≡ b.kind)
    × (a.tag ≡ b.tag)
    × (a.anchor ≡ b.anchor)
    × (a.head_comment ≡ b.head_comment)
    × (a.line_comment ≡ b.line_comment)
    × (a.foot_comment ≡ b.foot_comment)

and_parts : (a b : Bool) → a && b ≡ true → (a ≡ true) × (b ≡ true)
and_parts a b h = (ground (arith, h), ground (arith, h))

same_info-Same : (a b : YamlInfo) → same_info a b ≡ true → SameProperties a b
same_info-Same a b h =
    let (kind, h₁) = and_parts _ _ h in
    let (tag, h₂) = and_parts _ _ h₁ in
    let (anchor, h₃) = and_parts _ _ h₂ in
    let (head, h₄) = and_parts _ _ h₃ in
    let (line, foot) = and_parts _ _ h₄ in
    (
      (nat_beq_iff a.kind b.kind).0 kind,
      (text_eq_iff a.tag b.tag).0 tag,
      (text_eq_iff a.anchor b.anchor).0 anchor,
      (text_eq_iff a.head_comment b.head_comment).0 head,
      (text_eq_iff a.line_comment b.line_comment).0 line,
      (text_eq_iff a.foot_comment b.foot_comment).0 foot,
    )

module _ (target : YamlInfo → Bool) (source : Text) where
  -- The new value at the target, and everywhere else the old one.
  abbrev pub IsEdited : YamlInfo → YamlInfo → Type 0
  IsEdited a b =
      SameProperties a b
      × (((target a ≡ true) × (b.value ≡ source)) ⊎ ((target a ≡ false) × (b.value ≡ a.value)))

  abbrev mutual
    pub Edited : YamlNode → YamlNode → Type 0
    Edited (node a xs) (node b ys) = IsEdited a b × AllEdited xs ys

    pub AllEdited : YamlNodes → YamlNodes → Type 0
    AllEdited no_nodes no_nodes = Unit
    AllEdited no_nodes (and_nodes _ _) = ⊥
    AllEdited (and_nodes _ _) no_nodes = ⊥
    AllEdited (and_nodes a xs) (and_nodes b ys) = Edited a b × AllEdited xs ys

  same_value-Edited :
      (a b : YamlInfo)
      → same_value target source a b ≡ true
      → ((target a ≡ true) × (b.value ≡ source)) ⊎ ((target a ≡ false) × (b.value ≡ a.value))
  same_value-Edited a b = elim (Bool-cases (target a)) [
    | inl e ↦ rw e (λ h. inl (refl, (text_eq_iff b.value source).0 h))
    | inr e ↦ rw e (λ h. inr (refl, sym ((text_eq_iff a.value b.value).0 h)))
  ]

  mutual
    unfolding equivalent

    equivalent-Edited : (a b : YamlNode) → equivalent target source a b ≡ true → Edited a b
    equivalent-Edited (node a xs) (node b ys) h =
        let (info, h₁) = and_parts (same_info a b) _ h in
        let (value, rest) = and_parts (same_value target source a b) _ h₁ in
        ((same_info-Same a b info, same_value-Edited a b value), all_equivalent-Edited xs ys rest)

    all_equivalent-Edited :
        (xs ys : YamlNodes) → all_equivalent target source xs ys ≡ true → AllEdited xs ys
    all_equivalent-Edited no_nodes no_nodes h = tt
    all_equivalent-Edited no_nodes (and_nodes _ _) h = absurd cc
    all_equivalent-Edited (and_nodes _ _) no_nodes h = absurd cc
    all_equivalent-Edited (and_nodes a xs) (and_nodes b ys) h =
        let (first, rest) = and_parts (equivalent target source a b) _ h in
        (equivalent-Edited a b first, all_equivalent-Edited xs ys rest)

-- What a replacement for a region does: the host is a document before and after it, with the source as
-- the value of the region's scalar, which is there, and with everything else as it was.
abbrev pub Replaces : TextLibrary → EmbeddedRegion → Text → Text → Text → Type 0
Replaces library r host source text =
    (before : YamlNode) × (after : YamlNode) × (library.unmarshal host ≡ some before)
    × (library.unmarshal (edited_host library r host text) ≡ some after)
    × Edited (is_target host r.start) source before after
    × (has_target (is_target host r.start) source before ≡ true)

module _ (library : TextLibrary) (r : EmbeddedRegion) (host source : Text) where
  valid_trees-Replaces :
      (text : Text) (before after : Option YamlNode)
      → library.unmarshal host ≡ before
      → library.unmarshal (edited_host library r host text) ≡ after
      → valid_trees library r host source before after ≡ true
      → Replaces library r host source text
  valid_trees-Replaces text none after e f h = absurd cc
  valid_trees-Replaces text (some before) none e f h = absurd cc
  valid_trees-Replaces text (some before) (some after) e f h =
      let (same, found) = and_parts (equivalent (is_target host r.start) source before after) _ h in
      (
        before,
        after,
        e,
        f,
        equivalent-Edited (is_target host r.start) source before after same,
        found,
      )

  valid-Replaces :
      (text : Text)
      → valid_replacement library r host text source ≡ true
      → Replaces library r host source text
  unfolding valid_replacement
  valid-Replaces text h =
      valid_trees-Replaces text (library.unmarshal host)
        (library.unmarshal (edited_host library r host text)) refl refl h

  -- An edit replaces the region by a text that does so.
  abbrev pub IsReplacement : TextEdit → Type 0
  IsReplacement e = (e.from ≡ r.start) × (e.to ≡ r.end) × Replaces library r host source e.new_text

  checked_edit-IsReplacement :
      (o : Option Text) (e : TextEdit)
      → checked_edit library r host source o ≡ some e
      → IsReplacement e
  checked_edit-IsReplacement none e = λ h. absurd cc
  checked_edit-IsReplacement (some text) e =
      elim (Bool-cases (valid_replacement library r host text source)) [
        | inl v ↦ rw v (λ h. made text v h)
        | inr n ↦
            elim (Bool-cases
              (valid_replacement library r host (quoted_text library r host source) source)) [
                | inl v ↦ rw (n, v) (λ h. made (quoted_text library r host source) v h)
                | inr v ↦ rw (n, v) (λ h. absurd cc)
              ]
      ]
    where
      made :
          (t : Text)
          → valid_replacement library r host t source ≡ true
          → some (edit_of library r t) ≡ some e
          → IsReplacement e
      made t v h = subst IsReplacement (cc h) (refl, refl, valid-Replaces t v)

-- An edit that is made for a region replaces just the region; the host is a document before and after
-- it, and the two differ in the value of the region's scalar alone, which is the new mapping.
pub replace_source-IsReplacement :
    (library : TextLibrary) (r : EmbeddedRegion) (host source : Text) (e : TextEdit)
    → replace_source library r host source ≡ some e
    → IsReplacement library r host source e
unfolding replace_source
replace_source-IsReplacement library r host source e =
    elim (Bool-cases (
      r.interpolation
      || (ltb (length host) r.end || (ltb r.scalar_start r.start || leb r.end r.scalar_start)))) [
        | inl h ↦ rw h (λ k. absurd cc)
        | inr h ↦ rw h (
            checked_edit-IsReplacement library r host source (replacement_of library r host source)
              e)
      ]
