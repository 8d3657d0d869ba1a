-- ===== src/Tests/Resolve.antt =====
-- The resolution of a request in internal/mapping/resolve.go whose mapping imports another file.
use bloblang_lsp.Common.{
  ℕ, Text, true, none, some, [], ◌∷◌, ◌++◌, ◌≡◌, refl, codes, text_eq, text_is_eq, if◌then◌else◌,
}
use bloblang_lsp.Common.Dict.{lookup, insert}
use bloblang_lsp.Common.Strings.{
  has_prefix, has_suffix, trim_left, trim_right, trim_space, before, after_byte, split,
}
use bloblang_lsp.Common.Result.{ok, err}
use bloblang_lsp.Benthos.Sample.{invalid, FileInfo, System}
use bloblang_lsp.Mapping.Resolve.{
  Request, Host, two_sources, relative_directive, request_size, read_request_file,
}
use bloblang_lsp.Mapping.Resolve.Inputs.{check_inline_lines, check_inline_sample_paths}
use bloblang_lsp.Mapping.Resolve.Imports.{Parser, supplied, walk, snapshot_imports}
use bloblang_lsp.Mapping.Resolve.Requests.{resolve}
use bloblang_lsp.Mapping.Resolve.Requests.Resolved.{IsResolved, resolve-IsResolved}

abbrev text_of : Text → Text
text_of p = if text_eq p (codes "/d/m") then codes "import" else codes "lib"

abbrev info : FileInfo
info = record { regular = true; size = 6 }

abbrev system : System ℕ
system = record {
  json = λ b. invalid [];
  yaml = λ b. invalid [];
  parse_int = λ s. none;
  stat = λ p. ok info;
  open_stat = λ p. ok info;
  contents = λ p. ok (text_of p);
  is_abs = λ p. has_prefix (codes "/") p;
  join_path = λ base p. base ++ (codes "/" ++ p);
}

abbrev host : Host ℕ
host = record {
  abs = λ p. some p;
  working_dir = none;
  dir_of = λ p. codes "/d";
  ext_of = λ p. [];
  to_slash = λ p. p;
  equal_fold = text_eq;
  stem_of = λ p. p;
  inline_stem = codes ".";
  dev_null = codes "/dev/null";
  json_valid = λ b. true;
  marshal = λ v. none;
  request_bytes = λ r. some 100;
}

-- The source "import" asks for one file.
abbrev parser : Parser
parser source [] = if text_eq source (codes "import") then some (codes "l") else none
parser source (_ ∷ _) = none

abbrev request : Request ℕ
request = record {
  source = [];
  input = codes "1";
  metadata = none;
  env = none;
  imports = [];
  root = [];
  mapping_path = codes "/d/m";
  input_path = [];
  sample_path = [];
  origin = [];
}

abbrev resolved : Request ℕ
resolved = record request {
  source = codes "import";
  imports = (codes "l", codes "lib") ∷ [];
  mapping_path = [];
  origin = codes "/d/m";
}

resolves : resolve host system parser request ≡ ok resolved
unfolding resolve request_size read_request_file snapshot_imports walk supplied lookup insert
resolves = refl

resolve-IsResolved_example : IsResolved host system (λ name. refl) parser request resolved
resolve-IsResolved_example =
    resolve-IsResolved host system (λ name. refl) parser request resolved resolves

-- A source besides a mapping, and inline source that names a relative sample.
refuses : resolve host system parser (record request { source = codes "import" }) ≡ err two_sources
unfolding resolve
refuses = refl

finds_relative :
    check_inline_sample_paths system (codes "# a\n#!input_from 'x.json'\nroot = this")
    ≡ err (relative_directive (codes "input_from"))
unfolding check_inline_sample_paths check_inline_lines split trim_space trim_left trim_right before
    after_byte has_suffix
finds_relative = refl
