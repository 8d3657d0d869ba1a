-- ===== src/Benthos/Sample/Directives.antt =====
-- The directives at the head of a mapping and the search for its sample, in
-- internal/benthos/sample.go.
pub mod Header
pub mod Traces
use bloblang_lsp.Common.{
  ℕ, zero, suc, ◌+◌, Text, Bool, true, false, not, ◌&&◌, ◌||◌, Option, none, some, List, [], ◌∷◌,
  ◌++◌, ◌==◌, ltb, if◌then◌else◌, codes, text_eq, text_is_eq, length, contains,
}
use bloblang_lsp.Common.Dict.{Dict, insert}
use bloblang_lsp.Common.Strings.{
  has_prefix, has_suffix, trim_prefix, trim_suffix, trim_left, trim_right, trim_space, before,
  after_byte, split, join, is_nil,
}
use bloblang_lsp.Common.Result.{Result, ok, err, ◌>>=◌, with_error}
use bloblang_lsp.Benthos.Sample.{
  Value, Entries, Sample, SampleContext, SampleError, bad_meta, missing_path, ambiguous,
  unknown_directive, duplicate_directive, missing_value, LineError, System, object_of,
}
use bloblang_lsp.Benthos.Sample.Decoding.{
  decode_sample_value, Part, whole, root, input, meta, set_root, set_input, set_meta, meta_object,
  apply_sample,
}
use bloblang_lsp.Benthos.Sample.Files.{load_sample}

-- `directiveHandlers`, by the name of a directive.
abbrev pub part_named : Text → Option Part
part_named name =
    if text_eq name (codes "root")
    then some root
    else if text_eq name (codes "input")
    then some input
    else if text_eq name (codes "meta")
    then some meta
    else if text_eq name (codes "sample")
    then some whole
    else none

abbrev is_blank : ℕ → Bool
is_blank c = c == b' ' || c == b'\t'

abbrev pub is_quote : ℕ → Bool
is_quote c = c == b'"' || c == b'\''

abbrev pub drop_space : Text → Text
drop_space [] = []
drop_space (c ∷ s) = if c == b' ' then s else c ∷ s

-- A line without anything for the directives.
abbrev pub is_comment : Text → Bool
is_comment line = is_nil line || (has_prefix (codes "#") line && not (has_prefix (codes "#!") line))

-- The lines of a block value: those behind the directive that start with "#|".
unfoldable pub block : List Text → List Text
block [] = []
block (l ∷ ls) =
    let next = trim_left is_blank l in
    let rest = block ls in
    if has_prefix (codes "#|") next then drop_space (trim_prefix (codes "#|") next) ∷ rest else []

-- The sample under construction, and the directives that it has had.
pub record Reading (S : Type 0) : Type 0 where
  pub context : SampleContext S
  pub seen : List Text

-- What one line of the head makes of the reading: it is no directive, it ends the head, it fails,
-- or it is a directive, with the count of the block lines that it took.
pub data LineStep (S : Type 0) : Type 0 where
  skipped ended : LineStep S
  failed : SampleError → LineStep S
  applied : Reading S → ℕ → LineStep S

module _ {S : Type 0} (system : System S) (base_dir : Text) where
  -- The handlers of the four directives with a value in the mapping.
  abbrev pub handle_directive : SampleContext S → Part → Text → Result SampleError (SampleContext S)
  handle_directive c root raw = do v ← decode_sample_value system raw; ok (set_root c v)
  handle_directive c input raw = do v ← decode_sample_value system raw; ok (set_input c v)
  handle_directive c meta raw = do
    v ← decode_sample_value system raw
    m ← meta_object (object_of v)
    ok (set_meta c m)
  handle_directive c whole raw = do v ← decode_sample_value system raw; apply_sample c v whole

  abbrev pub absolute : Text → Text
  absolute p = if system.is_abs p then p else system.join_path base_dir p

  abbrev pub with_dependency_line : Text → ℕ → SampleContext S → SampleContext S
  with_dependency_line p start c = record c {
    sample = record (c.sample) { dependency_lines = insert p start c.sample.dependency_lines };
  }

  -- A directive that names a file.
  unfoldable pub load_directive :
      SampleContext S → Part → Text → ℕ → Result SampleError (SampleContext S)
  load_directive c part p start = if is_nil p then err missing_path else do
    c' ← load_sample system c (absolute p) part
    ok (with_dependency_line (absolute p) start c')

  unfoldable pub apply_directive :
      SampleContext S → Part → Text → Text → ℕ → Result SampleError (SampleContext S)
  apply_directive c part name raw start =
      if has_suffix (codes "_from") name
      then load_directive c part (trim_right is_quote (trim_left is_quote raw)) start
      else handle_directive c part raw

  abbrev pub at_line : ℕ → SampleContext S → SampleContext S
  at_line start c = record c { sample = record (c.sample) { line = start } }

  abbrev pub step_of : Reading S → Text → ℕ → ℕ → Result SampleError (SampleContext S) → LineStep S
  step_of r name start taken (err e) = failed e
  step_of r name start taken (ok c) =
      applied (record { context = at_line start c; seen = name ∷ r.seen }) taken

  -- A directive by its name and value: the tests before it is applied.
  abbrev pub run_directive : Reading S → Option Part → Text → Text → ℕ → ℕ → LineStep S
  run_directive r none name raw start taken = failed (unknown_directive name)
  run_directive r (some part) name raw start taken =
      if contains r.seen name
      then failed (duplicate_directive name)
      else if is_nil (trim_space raw)
      then failed (missing_value name)
      else step_of r name start taken (apply_directive r.context part name raw start)

  -- The text behind "#!", with the lines that follow.
  unfoldable pub directive_step : Reading S → ℕ → Text → List Text → LineStep S
  directive_step r start body ls =
      let name = before (codes " ") body in
      let raw = trim_space (after_byte b' ' body) in
      let part = part_named (trim_suffix (codes "_from") name) in
      if text_eq raw (codes "|")
      then run_directive r part name (join (codes "\n") (block ls)) start (length (block ls))
      else run_directive r part name raw start 0

  unfoldable pub line_step : Reading S → ℕ → Text → List Text → LineStep S
  line_step r start l ls =
      let line = trim_space l in
      if is_comment line
      then skipped
      else if not (has_prefix (codes "#!") line)
      then ended
      else directive_step r start (trim_space (trim_prefix (codes "#!") line)) ls

  -- What follows a line: the rest of the loop, if it goes on.
  abbrev pub after_line :
      Reading S
      → ℕ
      → (Reading S → ℕ → Result LineError (Reading S))
      → LineStep S
      → Result LineError (Reading S)
  after_line r i continue skipped = continue r 0
  after_line r i continue ended = ok r
  after_line r i continue (failed e) = err (record { line = i; problem = e })
  after_line r i continue (applied r' taken) = continue r' taken

  -- The loop over the lines, with the count of block lines that are still to be passed over.
  unfoldable pub read_directives : Reading S → ℕ → ℕ → List Text → Result LineError (Reading S)
  read_directives r i skip [] = ok r
  read_directives r i (suc skip) (l ∷ ls) = read_directives r (i + 1) skip ls
  read_directives r i zero (l ∷ ls) =
      after_line r i (λ r' taken. read_directives r' (i + 1) taken ls) (line_step r i l ls)

-- Whether the head names a whole sample, which decides between siblings.
unfoldable pub is_explicit : List Text → Bool
is_explicit [] = false
is_explicit (l ∷ ls) =
    let t = trim_space l in
    let rest = is_explicit ls in
    if not (is_nil t) && not (has_prefix (codes "#") t)
    then false
    else if has_prefix (codes "#!sample_from ") t || has_prefix (codes "#!sample ") t
    then true
    else rest

abbrev pub sample_extensions : List Text
sample_extensions = codes "json" ∷ codes "yaml" ∷ codes "yml" ∷ []

-- The files that exist among a stem's candidates.
abbrev pub existing : (Text → Bool) → (Text → Text) → List Text → List Text
existing exists path [] = []
existing exists path (ext ∷ exts) =
    let rest = existing exists path exts in if exists (path ext) then path ext ∷ rest else rest

abbrev pub readable {ℓ κ} : {E : Type ℓ} {A : Type κ} → Result E A → Bool
readable (ok _) = true
readable (err _) = false

abbrev pub or_if_any : List Text → List Text → List Text
or_if_any [] others = others
or_if_any (p ∷ ps) others = p ∷ ps

module _ {S : Type 0} where
  abbrev pub empty_context : SampleContext S
  empty_context = record {
    sample = record {
      root = none;
      has_root = false;
      input = none;
      meta = none;
      env = none;
      source = codes "inline";
      line = 0;
      dependencies = [];
      dependency_lines = [];
    };
    has_input = false;
  }

  -- A sample exists only with an input.
  abbrev pub sample_of : SampleContext S → Option (Sample S)
  sample_of c = if c.has_input then some c.sample else none

module _ {S : Type 0} (system : System S) where
  -- The sibling samples, of the document's `stem`.
  unfoldable pub siblings : Text → Text → Text → Text → List Text
  siblings base_dir stem explicit_path numbered_stem =
      let exists = λ (p : Text). readable (system.stat p) in
      let shared =
        existing exists (λ e. system.join_path base_dir (stem ++ (codes ".sample." ++ e)))
          sample_extensions in
      let numbered =
        existing exists (λ e. system.join_path base_dir (numbered_stem ++ (codes "." ++ e)))
          sample_extensions in
      if not (is_nil explicit_path)
      then absolute system base_dir explicit_path ∷ []
      else if is_nil numbered_stem
      then shared
      else or_if_any numbered shared

  -- The choice between siblings, and what the chosen one gives.
  abbrev pub load_sibling : List Text → Bool → Result SampleError (SampleContext S)
  load_sibling paths true = ok empty_context
  load_sibling [] false = ok empty_context
  load_sibling (p ∷ []) false = load_sample system empty_context p whole
  load_sibling (p ∷ q ∷ ps) false = err ambiguous

  abbrev pub without_line : SampleError → LineError
  without_line e = record { line = 0; problem = e }

  unfoldable pub extract_from_lines :
      Text → List Text → List Text → Result LineError (Option (Sample S))
  extract_from_lines base_dir paths lines = do
    c ← with_error without_line (load_sibling paths (is_explicit lines))
    r ← read_directives system base_dir (record { context = c; seen = [] }) 0 0 lines
    ok (sample_of r.context)

  -- `ExtractSampleWithSource`, with the stem that the document's URI gives.
  unfoldable pub extract_sample_with_source :
      Text → Text → Text → Text → Text → Result LineError (Option (Sample S))
  extract_sample_with_source stem contents base_dir explicit_path numbered_stem =
      extract_from_lines base_dir (siblings base_dir stem explicit_path numbered_stem)
        (split 10 contents)
