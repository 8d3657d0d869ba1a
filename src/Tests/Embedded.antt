-- ===== src/Tests/Embedded.antt =====
-- The edit of a mapping "a" in a YAML text "m: a", which the library takes for a scalar after a key.
use bloblang_lsp.Common.{Text, true, false, none, some, [], ◌∷◌, codes, ◌≡◌, refl, if◌then◌else◌}
use bloblang_lsp.Common.Strings.{
  has_prefix, all_space, after_byte, trim_right, trim_suffix, has_suffix, split, join,
}
use bloblang_lsp.Lsp.Embedded.{
  EmbeddedRegion, YamlInfo, node, no_nodes, TextLibrary, TextEdit, is_target, equivalent,
  has_target, valid_replacement, replacement_of, replace_source, scalar_body_suffix, suffix_from,
  indent_scalar, preserve_scalar_ending,
}
use bloblang_lsp.Lsp.Embedded.Regions.{
  interpolation_spans, spans_from, close_at, scalar_content_start, content_start, align_scalar,
  align_from,
}
use bloblang_lsp.Lsp.Embedded.Edited.{IsReplacement, replace_source-IsReplacement}

abbrev scalar : Text → YamlInfo
scalar value = record {
  kind = 8;
  is_scalar = true;
  tag = codes "!!str";
  anchor = [];
  head_comment = [];
  line_comment = [];
  foot_comment = [];
  value = value;
  line = 1;
  column = 4;
}

abbrev library : TextLibrary
library = record {
  is_blank = all_space;
  unmarshal = λ s.
      if has_prefix (codes "m: ") s then some (node (scalar (after_byte 32 s)) no_nodes) else none;
  to_json = λ s. s;
}

abbrev region : EmbeddedRegion
region = record {
  text = codes "a";
  offsets = 3 ∷ [];
  start = 3;
  end = 4;
  scalar_start = 3;
  is_block = false;
  is_single_quoted = false;
  is_double_quoted = false;
  interpolation = false;
  key_indent = 0;
}

abbrev edit : TextEdit
edit = record { from = 3; to = 4; new_text = codes "bc" }

edits : replace_source library region (codes "m: a") (codes "bc") ≡ some edit
unfolding replace_source replacement_of valid_replacement is_target equivalent has_target after_byte
    trim_right split
edits = refl

replace_source-IsReplacement_example : IsReplacement library region (codes "m: a") (codes "bc") edit
replace_source-IsReplacement_example =
    replace_source-IsReplacement library region (codes "m: a") (codes "bc") edit edits

-- Blank lines behind the last line with content are kept, with their line endings.
suffix : scalar_body_suffix library (codes "a\r\n \n\n") ≡ codes "\r\n \n\n"
unfolding scalar_body_suffix suffix_from split trim_suffix has_suffix
suffix = refl

ending : preserve_scalar_ending library (codes "b\n\n") (codes "a\n") ≡ codes "b\n"
unfolding preserve_scalar_ending scalar_body_suffix suffix_from split trim_suffix has_suffix
    trim_right
ending = refl

indented : indent_scalar library (codes "a\nb\n") 2 (codes "\n") ≡ codes "  a\n  b"
unfolding indent_scalar scalar_body_suffix suffix_from split trim_suffix has_suffix join
indented = refl

-- A brace in a string does not close an interpolation, and one that is never closed is none.
spans : interpolation_spans (codes "a ${! \"}\" } ${! {}") ≡ (5, 10) ∷ []
unfolding interpolation_spans spans_from close_at
spans = refl

starts : scalar_content_start (codes "a: !<x y> &n # c\n b") 3 ≡ 18
unfolding scalar_content_start content_start
starts = refl

aligned : align_scalar (codes "a  b") (codes "a b") (3 ∷ 4 ∷ 5 ∷ 6 ∷ []) ≡ some (3 ∷ 4 ∷ 6 ∷ 6 ∷ [])
unfolding align_scalar align_from
aligned = refl
