-- ===== src/Tests/Sample.antt =====
-- Directives and sample files of internal/benthos/sample.go over a file system with one sample.
use bloblang_lsp.Common.{
  ℕ, ◌≤◌, Text, true, false, none, some, List, [], ◌∷◌, ◌++◌, ◌≡◌, ◌≢◌, refl, codes, text_eq,
  if◌then◌else◌, length,
}
use bloblang_lsp.Common.Result.{Result, ok, err}
use bloblang_lsp.Common.Dict.{insert}
use bloblang_lsp.Common.Strings.{
  has_suffix, trim_suffix, trim_left, trim_right, trim_space, before, after_byte, split, join,
  has_prefix,
}
use bloblang_lsp.Benthos.Sample.{
  Value, text, object, no_entries, entry, Sample, SampleContext, Decoded, decoded, at_end, FileInfo,
  System, duplicate_directive,
}
use bloblang_lsp.Benthos.Sample.Decoding.{
  decode_sample_value, normalize_numbers, env_of, apply_sample, whole, set_root,
}
use bloblang_lsp.Benthos.Sample.Decoding.Whole.{SameValues, apply_sample-SameValues}
use bloblang_lsp.Benthos.Sample.Files.{
  read_sample_file, load_sample, max_sample_file_bytes, read_sample_file_bounds,
}
use bloblang_lsp.Benthos.Sample.Directives.{
  block, load_directive, apply_directive, directive_step, line_step, read_directives, is_explicit,
  extract_from_lines, extract_sample_with_source, siblings, empty_context,
}
use bloblang_lsp.Benthos.Sample.Directives.Header.{IsCode, extract_from_lines-append}
use bloblang_lsp.Benthos.Sample.Directives.Traces.{IsTraced, extract_from_lines-IsTraced}

abbrev path : Text
path = codes "/d/m.sample.json"

abbrev envelope : Value ℕ
envelope = object (entry (codes "input") (text (codes "x")) no_entries)

-- Every text decodes to itself, but for the file's.
abbrev decode : Text → Decoded ℕ
decode bytes =
    if text_eq bytes (codes "{}")
    then decoded (object (entry (codes "$bloblang") envelope no_entries)) at_end
    else decoded (text bytes) at_end

abbrev info_of : Text → Result Text FileInfo
info_of p =
    if text_eq p path then ok (record { regular = true; size = 2 }) else err (codes "no file")

abbrev system : System ℕ
system = record {
  json = decode;
  yaml = decode;
  parse_int = λ s. none;
  stat = info_of;
  open_stat = info_of;
  contents = λ p. ok (codes "{}");
  is_abs = λ p. has_prefix (codes "/") p;
  join_path = λ base p. base ++ (codes "/" ++ p);
}

abbrev base_dir : Text
base_dir = codes "/d"

abbrev header : List Text
header =
    codes "# a mapping"
    ∷ codes "#!sample_from m.sample.json"
    ∷ codes "#!root |"
    ∷ codes "#| a"
    ∷ codes "#| b"
    ∷ []

abbrev code : Text
code = codes "root = this"

reads : read_sample_file system path ≡ ok (codes "{}")
unfolding read_sample_file
reads = refl

read_sample_file_bounds_example :
    (length (codes "{}") ≤ max_sample_file_bytes)
    × (system.contents path ≡ ok (codes "{}"))
    × ((before : FileInfo) × (opened : FileInfo) × (system.stat path ≡ ok before)
        × (system.open_stat path ≡ ok opened)
        × (before.regular ≡ true)
        × (before.size ≤ max_sample_file_bytes)
        × (opened.regular ≡ true)
        × (opened.size ≤ max_sample_file_bytes))
read_sample_file_bounds_example = read_sample_file_bounds system path (codes "{}") reads

is_code : IsCode code
unfolding trim_space trim_left trim_right
is_code = (refl, refl)

extract_from_lines-append_example :
    extract_from_lines system base_dir [] (header ++ code ∷ codes "#!input y" ∷ [])
    ≡ extract_from_lines system base_dir [] header
extract_from_lines-append_example =
    extract_from_lines-append code is_code (codes "#!input y" ∷ []) system base_dir [] header

abbrev found : Sample ℕ
found = record {
  root = some (text (codes "a\nb"));
  has_root = true;
  input = some (text (codes "x"));
  meta = none;
  env = none;
  source = path;
  line = 2;
  dependencies = path ∷ [];
  dependency_lines = (path, 1) ∷ [];
}

finds : extract_from_lines system base_dir [] header ≡ ok (some found)
unfolding extract_from_lines is_explicit read_directives line_step directive_step apply_directive
    load_directive load_sample read_sample_file decode_sample_value normalize_numbers apply_sample
    env_of block trim_space trim_left trim_right trim_suffix has_suffix before after_byte join
    insert
finds = refl

extract_from_lines-IsTraced_example : IsTraced system found × (found.input ≢ none)
extract_from_lines-IsTraced_example =
    extract_from_lines-IsTraced system base_dir [] header found finds

abbrev given : SampleContext ℕ
given = record {
  sample = record (empty_context.sample) { input = some (text (codes "x")) };
  has_input = true;
}

apply_sample-SameValues_example :
    (d' : SampleContext ℕ) × (apply_sample (set_root empty_context (text [])) envelope whole
      ≡ ok d')
    × SameValues d' given
unfolding apply_sample env_of
apply_sample-SameValues_example =
    apply_sample-SameValues empty_context (set_root empty_context (text [])) envelope refl

-- The two orders of a repeated directive.
repeats :
    extract_from_lines system base_dir [] (codes "#!input a" ∷ codes "#!input b" ∷ [])
    ≡ err (record { line = 1; problem = duplicate_directive (codes "input") })
unfolding extract_from_lines is_explicit read_directives line_step directive_step apply_directive
    decode_sample_value normalize_numbers trim_space trim_left trim_right trim_suffix has_suffix
    before after_byte
repeats = refl

finds_sibling :
    extract_sample_with_source system (codes "m") (codes "root = 1\n") base_dir [] []
    ≡ ok (some (record found { root = none; has_root = false; line = 0; dependency_lines = [] }))
unfolding extract_sample_with_source siblings split extract_from_lines is_explicit read_directives
    line_step load_sample read_sample_file decode_sample_value normalize_numbers apply_sample env_of
    trim_space trim_left trim_right
finds_sibling = refl
