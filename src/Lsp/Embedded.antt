-- ===== src/Lsp/Embedded.antt =====
-- Edits of mappings inside YAML in internal/lsp/embedded_edits.go. Texts are lists of bytes, and
-- offsets count bytes; an edit has offsets in place of positions.
pub mod Edited
pub mod Regions
use bloblang_lsp.Common.{
  ℕ, zero, suc, ◌+◌, ◌-◌, max, Text, Bool, true, false, not, ◌&&◌, ◌||◌, Option, none, some, List,
  [], ◌∷◌, ◌++◌, ◌==◌, ltb, leb, if◌then◌else◌, codes, length, map, take, drop, text_eq, get_elem?,
  contains, nat_eq,
}
use bloblang_lsp.Common.Strings.{
  is_nil, split, join, trim_suffix, has_suffix, after_byte, before, trim_right, replace_from,
}
use bloblang_lsp.Lsp.Positions.{last_line}

pub record EmbeddedRegion : Type 0 where
  pub text : Text
  pub offsets : List ℕ
  pub start : ℕ
  pub end : ℕ
  pub scalar_start : ℕ
  pub is_block : Bool
  pub is_single_quoted : Bool
  pub is_double_quoted : Bool
  pub interpolation : Bool
  pub key_indent : ℕ

-- What a YAML node carries beside its children.
pub record YamlInfo : Type 0 where
  pub kind : ℕ
  pub is_scalar : Bool
  pub tag : Text
  pub anchor : Text
  pub head_comment : Text
  pub line_comment : Text
  pub foot_comment : Text
  pub value : Text
  pub line : ℕ
  pub column : ℕ

mutual
  pub data YamlNode : Type 0 where
    node : YamlInfo → YamlNodes → YamlNode

  pub data YamlNodes : Type 0 where
    no_nodes : YamlNodes
    and_nodes : YamlNode → YamlNodes → YamlNodes

-- Whether strings.TrimSpace leaves nothing, yaml.Unmarshal, and the JSON of a string.
pub record TextLibrary : Type 0 where
  pub is_blank : Text → Bool
  pub unmarshal : Text → Option YamlNode
  pub to_json : Text → Text

pub record TextEdit : Type 0 where
  pub from : ℕ
  pub to : ℕ
  pub new_text : Text

-- The line ending of the first line; `previous` is the byte in front.
abbrev first_ending : ℕ → Text → Text
first_ending previous [] = codes "\n"
first_ending previous (c ∷ s) =
    if c == 10 then (if previous == 13 then codes "\r\n" else codes "\n") else first_ending c s

abbrev source_line_ending : Text → Text
source_line_ending text = first_ending 0 text

-- `text[a:b]`
abbrev pub slice : ℕ → ℕ → Text → Text
slice a b text = take (b - a) (drop a text)

abbrev reversed_onto : List Text → List Text → List Text
reversed_onto [] ls = ls
reversed_onto (l ∷ rest) ls = reversed_onto rest (l ∷ ls)

abbrev pub spaces : ℕ → Text
spaces zero = []
spaces (suc n) = 32 ∷ spaces n

module _ (library : TextLibrary) where
  -- The lines of a body from the last one upwards, and the text behind the first of them.
  unfoldable pub suffix_from : Text → List Text → Text → Text
  unfolding trim_suffix has_suffix
  suffix_from line [] tail = if library.is_blank line then line ++ tail else tail
  suffix_from line (above ∷ lines) tail =
      let ending = if has_suffix (codes "\r") above then codes "\r\n" else codes "\n" in
      let further = suffix_from (trim_suffix (codes "\r") above) lines (ending ++ (line ++ tail)) in
      if library.is_blank line then further else tail

  abbrev suffix_of : List Text → Text
  suffix_of [] = []
  suffix_of (line ∷ lines) = suffix_from line lines []

  unfoldable pub scalar_body_suffix : Text → Text
  unfolding suffix_from split
  scalar_body_suffix body = suffix_of (reversed_onto (split 10 body) [])

  unfoldable pub preserve_scalar_ending : Text → Text → Text
  unfolding scalar_body_suffix trim_right
  preserve_scalar_ending formatted original =
      trim_right (λ c. c == 13 || c == 10) formatted ++ scalar_body_suffix original

  unfoldable pub indent_scalar : Text → ℕ → Text → Text
  unfolding scalar_body_suffix split join trim_suffix
  indent_scalar source indent eol = join eol (
      map (λ l. spaces indent ++ trim_suffix (codes "\r") l)
        (split 10 (trim_suffix (scalar_body_suffix source) source)))

-- The loop of `contentIndent`, at a column of the mapping. A negative difference is cut to nothing by
-- its reader.
abbrev content_from : Text → ℕ → ℕ → List ℕ → Text → ℕ
content_from host key_indent column offsets [] = key_indent + 2
content_from host key_indent column [] (c ∷ s) = key_indent + 2
content_from host key_indent column (offset ∷ offsets) (c ∷ s) =
    let further = content_from host key_indent (if c == 10 then 0 else column + 1) offsets s in
    if c == 10 || c == 13 then further else length (last_line (take offset host)) - column

abbrev content_indent : EmbeddedRegion → Text → ℕ
content_indent r host = content_from host r.key_indent 0 r.offsets r.text

-- `runeColumnByte`: a byte that does not continue a code point starts one.
abbrev rune_from : ℕ → ℕ → ℕ → Text → ℕ
rune_from column n i [] = i
rune_from column n i (c ∷ s) =
    if leb 128 c && ltb c 192
    then rune_from column n (i + 1) s
    else if n == column
    then i
    else rune_from column (n + 1) (i + 1) s

abbrev rune_column_byte : Text → ℕ → ℕ
rune_column_byte s column = rune_from column 0 0 s

-- `lineOffsets`
abbrev offsets_from : ℕ → Text → List ℕ
offsets_from i [] = []
offsets_from i (c ∷ s) =
    let rest = offsets_from (i + 1) s in if c == 10 then (i + 1) ∷ rest else rest

abbrev line_offsets : Text → List ℕ
line_offsets text = 0 ∷ offsets_from 0 text

abbrev offset_at : Option ℕ → Option Text → ℕ → Option ℕ
offset_at none line column = none
offset_at (some start) none column = none
offset_at (some start) (some line) column = some (start + rune_column_byte line column)

abbrev is_offset : ℕ → Option ℕ → Bool
is_offset start none = false
is_offset start (some n) = n == start

-- Whether a node is the scalar at an offset of the host.
unfoldable pub is_target : Text → ℕ → YamlInfo → Bool
unfolding split
is_target host start a =
    a.is_scalar
    && (ltb 0 a.line
        && is_offset start (
            offset_at (get_elem? (line_offsets host) (a.line - 1))
              (get_elem? (split 10 host) (a.line - 1)) (a.column - 1)))

abbrev pub same_info : YamlInfo → YamlInfo → Bool
same_info a b =
    a.kind == b.kind
    && (text_eq a.tag b.tag
        && (text_eq a.anchor b.anchor
            && (text_eq a.head_comment b.head_comment
                && (text_eq a.line_comment b.line_comment
                    && text_eq a.foot_comment b.foot_comment))))

module _ (target : YamlInfo → Bool) (source : Text) where
  abbrev pub same_value : YamlInfo → YamlInfo → Bool
  same_value a b = if target a then text_eq b.value source else text_eq a.value b.value

  -- The two trees, with as many children everywhere.
  unfoldable mutual
    pub equivalent : YamlNode → YamlNode → Bool
    equivalent (node a xs) (node b ys) = same_info a b && (same_value a b && all_equivalent xs ys)

    pub all_equivalent : YamlNodes → YamlNodes → Bool
    all_equivalent no_nodes no_nodes = true
    all_equivalent no_nodes (and_nodes _ _) = false
    all_equivalent (and_nodes _ _) no_nodes = false
    all_equivalent (and_nodes a xs) (and_nodes b ys) = equivalent a b && all_equivalent xs ys

  -- `found`: where the trees are equivalent, every node was visited.
  unfoldable mutual
    pub has_target : YamlNode → Bool
    has_target (node a xs) = target a || any_target xs

    any_target : YamlNodes → Bool
    any_target no_nodes = false
    any_target (and_nodes a xs) = has_target a || any_target xs

module _ (library : TextLibrary) where
  abbrev pub valid_trees : EmbeddedRegion → Text → Text → Option YamlNode → Option YamlNode → Bool
  valid_trees r host source none after = false
  valid_trees r host source (some before) none = false
  valid_trees r host source (some before) (some after) =
      equivalent (is_target host r.start) source before after
      && has_target (is_target host r.start) source before

  abbrev pub edited_host : EmbeddedRegion → Text → Text → Text
  edited_host r host replacement = take r.start host ++ (replacement ++ drop r.end host)

  unfoldable pub valid_replacement : EmbeddedRegion → Text → Text → Text → Bool
  unfolding is_target equivalent has_target
  valid_replacement r host replacement source =
      valid_trees r host source (library.unmarshal host)
        (library.unmarshal (edited_host r host replacement))

  abbrev has_line_feed : Text → Bool
  has_line_feed s = contains s 10

  -- A block scalar keeps its header, with the indicator of a literal one.
  abbrev block_text : EmbeddedRegion → Text → Text → Text
  block_text r host source =
      let scalar = slice r.scalar_start r.end host in
      let eol = source_line_ending host in
      slice r.start r.scalar_start host
      ++ (codes "|"
          ++ (drop 1 (trim_suffix (codes "\r") (before (codes "\n") scalar))
              ++ (eol
                  ++ (indent_scalar library source (content_indent r host) eol
                      ++ scalar_body_suffix library (after_byte 10 scalar)))))

  abbrev new_block_indent : EmbeddedRegion → Text → ℕ
  new_block_indent r host =
      let line = last_line (take r.scalar_start host) in
      if library.is_blank line then max (r.key_indent + 2) (length line + 2) else r.key_indent + 2

  abbrev flow_text : EmbeddedRegion → Text → Text → Text
  flow_text r host source =
      let properties = slice r.start r.scalar_start host in
      let eol = source_line_ending host in
      if has_line_feed (trim_right (λ c. c == 13 || c == 10) source)
      then properties
        ++ (codes "|-" ++ (eol ++ indent_scalar library source (new_block_indent r host) eol))
      else if r.is_single_quoted
      then properties
        ++ (codes "'" ++ (replace_from (codes "'") (codes "''") 0 source ++ codes "'"))
      else if r.is_double_quoted
      then properties ++ library.to_json source
      else properties ++ source

  -- The first attempt; a block scalar has a line feed behind its header.
  unfoldable pub replacement_of : EmbeddedRegion → Text → Text → Option Text
  unfolding indent_scalar scalar_body_suffix trim_right trim_suffix before after_byte replace_from
  replacement_of r host source =
      if r.is_block
      then (if has_line_feed (slice r.scalar_start r.end host)
          then some (block_text r host source)
          else none)
      else some (flow_text r host source)

  abbrev pub edit_of : EmbeddedRegion → Text → TextEdit
  edit_of r text = record { from = r.start; to = r.end; new_text = text }

  abbrev pub quoted_text : EmbeddedRegion → Text → Text → Text
  quoted_text r host source = slice r.start r.scalar_start host ++ library.to_json source

  -- Where the first attempt is not valid, a quoted text is tried.
  abbrev pub checked_edit : EmbeddedRegion → Text → Text → Option Text → Option TextEdit
  checked_edit r host source none = none
  checked_edit r host source (some text) =
      let quoted = quoted_text r host source in
      if valid_replacement r host text source
      then some (edit_of r text)
      else if valid_replacement r host quoted source
      then some (edit_of r quoted)
      else none

  unfoldable pub replace_source : EmbeddedRegion → Text → Text → Option TextEdit
  unfolding replacement_of valid_replacement
  replace_source r host source =
      let edit = checked_edit r host source (replacement_of r host source) in
      if r.interpolation
        || (ltb (length host) r.end || (ltb r.scalar_start r.start || leb r.end r.scalar_start))
      then none
      else edit

  -- `sourceEdit`, of the offsets in the mapping.
  abbrev source_edit : EmbeddedRegion → Text → ℕ → ℕ → Text → Option TextEdit
  source_edit r host from to replacement =
      if ltb to from
      then none
      else replace_source r host (take from r.text ++ (replacement ++ drop to r.text))
