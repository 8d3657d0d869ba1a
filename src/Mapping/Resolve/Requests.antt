-- ===== src/Mapping/Resolve/Requests.antt =====
-- `Resolve` of internal/mapping/resolve.go, by its stages.
pub mod Resolved
use bloblang_lsp.Common.{
  ℕ, ◌+◌, Text, Bool, true, false, not, ◌&&◌, ◌||◌, Option, none, some, List, [], ◌∷◌, ltb,
  if◌then◌else◌,
}
use bloblang_lsp.Common.Dict.{Dict}
use bloblang_lsp.Common.Strings.{is_nil}
use bloblang_lsp.Common.Result.{Result, ok, err, ◌>>=◌, with_error}
use bloblang_lsp.Benthos.Sample.{Sample, LineError, System}
use bloblang_lsp.Benthos.Sample.Directives.{extract_sample_with_source}
use bloblang_lsp.Mapping.Resolve.{
  Request, Host, ResolveError, two_sources, no_source, two_inputs, no_sample, bad_sample_input,
  bad_sample_root, no_path, unread, bad_input, bad_sample, in_mapping_path, in_input_path,
  in_sample_path, or_error, request_size, read_request_file,
}
use bloblang_lsp.Mapping.Resolve.Inputs.{decode_input_file, check_inline_sample_paths}
use bloblang_lsp.Mapping.Resolve.Imports.{Parser, or_else, snapshot_imports}

-- A request whose source is there, with what the discovery of samples goes by.
pub record Located (S : Type 0) : Type 0 where
  pub request : Request S
  pub stem : Text
  pub base_dir : Text

abbrev one_if : Bool → ℕ
one_if true = 1
one_if false = 0

module _ {S : Type 0} where
  -- The count of the inputs that are given.
  abbrev pub given_inputs : Request S → ℕ
  given_inputs r =
      one_if (not (is_nil r.input))
      + one_if (not (is_nil r.input_path))
      + one_if (not (is_nil r.sample_path))

  abbrev pub check_request : Request S → Result ResolveError (Unit {0})
  check_request r =
      if not (is_nil r.source) && not (is_nil r.mapping_path)
      then err two_sources
      else if is_nil r.source && is_nil r.mapping_path
      then err no_source
      else if ltb 1 (given_inputs r)
      then err two_inputs
      else ok tt

  abbrev pub without_paths : Request S → Request S
  without_paths r = record r { mapping_path = []; input_path = []; sample_path = [] }

module _ {S : Type 0} (host : Host S) (system : System S) where
  abbrev pub locate : Request S → Result ResolveError (Located S)
  locate r =
      if not (is_nil r.mapping_path)
      then (do
        path ← or_error (no_path in_mapping_path) (host.abs r.mapping_path)
        bytes ← with_error (unread in_mapping_path) (read_request_file system path)
        ok (record {
          request = record r { source = bytes; origin = path };
          stem = host.stem_of path;
          base_dir = host.dir_of path;
        }))
      else if not (is_nil r.sample_path)
      then (do
        dir ← or_error (no_path in_sample_path) host.working_dir
        ok (record { request = r; stem = host.inline_stem; base_dir = dir }))
      else ok (record { request = r; stem = host.inline_stem; base_dir = host.dev_null })

  -- The input from a file.
  abbrev pub input_from_file : Request S → Result ResolveError (Request S)
  input_from_file r = do
    path ← or_error (no_path in_input_path) (host.abs r.input_path)
    bytes ← with_error (unread in_input_path) (read_request_file system path)
    input ← with_error bad_input (decode_input_file host system bytes (host.ext_of path))
    ok (record r { input = input })

  abbrev pub check_inline : Request S → Result ResolveError (Unit {0})
  check_inline r =
      if is_nil r.mapping_path && is_nil r.sample_path
      then check_inline_sample_paths system r.source
      else ok tt

  abbrev pub find_sample : Located S → Result LineError (Option (Sample S))
  find_sample l =
      if not (is_nil l.request.sample_path)
      then extract_sample_with_source system l.stem [] l.base_dir l.request.sample_path []
      else extract_sample_with_source system l.stem l.request.source l.base_dir [] []

  abbrev pub root_from_sample : Request S → Sample S → Result ResolveError Text
  root_from_sample r sample =
      if is_nil r.root && sample.has_root
      then or_error bad_sample_root (host.marshal sample.root)
      else ok r.root

  -- What a request takes from a sample.
  abbrev pub with_sample : Request S → Sample S → Result ResolveError (Request S)
  with_sample r sample = do
    input ← or_error bad_sample_input (host.marshal sample.input)
    root ← root_from_sample r sample
    ok (record r {
      input = input;
      metadata = or_else r.metadata sample.meta;
      env = or_else r.env sample.env;
      root = root;
    })

  abbrev pub input_from_sample : Located S → Result ResolveError (Request S)
  input_from_sample l = do
    _ ← check_inline l.request
    found ← with_error bad_sample (find_sample l)
    sample ← or_error no_sample found
    with_sample l.request sample

  abbrev pub with_input : Located S → Result ResolveError (Request S)
  with_input l =
      if not (is_nil l.request.input_path)
      then input_from_file l.request
      else if is_nil l.request.input
      then input_from_sample l
      else ok l.request

  abbrev pub with_imports : Parser → Text → Request S → Result ResolveError (Request S)
  with_imports parser base_dir r =
      if not (is_nil r.mapping_path) then snapshot_imports host system base_dir parser r else ok r

  unfoldable pub resolve : Parser → Request S → Result ResolveError (Request S)
  unfolding decode_input_file check_inline_sample_paths extract_sample_with_source snapshot_imports
      request_size read_request_file
  resolve parser r = do
    _ ← check_request r
    located ← locate r
    filled ← with_input located
    complete ← with_imports parser located.base_dir filled
    _ ← request_size host (without_paths complete)
    ok (without_paths complete)

  -- `SnapshotImports`, for a source that the caller has loaded.
  abbrev pub static_request : Text → Dict Text Text → Request S
  static_request source imports = record {
    source = source;
    input = [];
    metadata = none;
    env = none;
    imports = imports;
    root = [];
    mapping_path = [];
    input_path = [];
    sample_path = [];
    origin = [];
  }

  abbrev pub with_static_imports : Parser → Text → Request S → Result ResolveError (Request S)
  with_static_imports parser mapping_path r =
      if not (is_nil mapping_path)
      then (do
        path ← or_error (no_path in_mapping_path) (host.abs mapping_path)
        snapshot_imports host system (host.dir_of path) parser r)
      else ok r

  unfoldable pub snapshot_static_imports :
      Parser → Text → Text → Dict Text Text → Result ResolveError (Dict Text Text)
  unfolding snapshot_imports request_size
  snapshot_static_imports parser source mapping_path imports = do
    r ← with_static_imports parser mapping_path (static_request source imports)
    _ ← request_size host r
    ok r.imports
