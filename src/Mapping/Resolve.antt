-- ===== src/Mapping/Resolve.antt =====
-- The resolution of requests in internal/mapping/resolve.go: their types, the reading of files and
-- the size of a request, with what the file takes from its libraries.
pub mod Inputs
pub mod Imports
pub mod Requests
use bloblang_lsp.Common.{
  ℕ, ◌+◌, ◌*◌, ◌^◌, Text, Bool, true, false, not, Option, none, some, List, [], ◌∷◌, ◌≡◌, ltb,
  if◌then◌else◌, length, take,
}
use bloblang_lsp.Common.Dict.{Dict}
use bloblang_lsp.Common.Result.{Result, ok, err, ◌>>=◌, with_error}
use bloblang_lsp.Benthos.Sample.{Value, Entries, LineError, System, FileInfo}

-- `metadata` and `env` are nil maps where they are `none`; `input` and `root` are texts of JSON.
pub record Request (S : Type 0) : Type 0 where
  pub source : Text
  pub input : Text
  pub metadata : Option (Entries S)
  pub env : Option (Dict Text Text)
  pub imports : Dict Text Text
  pub root : Text
  pub mapping_path : Text
  pub input_path : Text
  pub sample_path : Text
  pub origin : Text

-- The errors, with the values that their messages print.
pub data PathField : Type 0 where
  in_mapping_path in_input_path in_sample_path : PathField

pub data FileError : Type 0 where
  failed : Text → FileError
  irregular too_large : FileError

pub data InputError : Type 0 where
  invalid_json two_documents incompatible : InputError
  invalid_yaml : Text → InputError

pub data ResolveError : Type 0 where
  two_sources no_source two_inputs no_sample bad_sample_input bad_sample_root : ResolveError
  unencodable request_too_large too_many_reads imports_too_large : ResolveError
  no_path : PathField → ResolveError
  unread : PathField → FileError → ResolveError
  bad_input : InputError → ResolveError
  relative_directive : Text → ResolveError
  bad_sample : LineError → ResolveError
  bad_import : Text → FileError → ResolveError

-- filepath.Abs, os.Getwd, filepath.Dir, Ext and ToSlash; strings.EqualFold; the stem that a
-- document's URI has for the samples beside it, for the URI of a path and for the one of inline
-- source; os.DevNull; json.Valid, and json.Marshal of a value and of a request, whose length counts.
pub record Host (S : Type 0) : Type 0 where
  pub abs : Text → Option Text
  pub working_dir : Option Text
  pub dir_of : Text → Text
  pub ext_of : Text → Text
  pub to_slash : Text → Text
  pub equal_fold : Text → Text → Bool
  pub stem_of : Text → Text
  pub inline_stem : Text
  pub dev_null : Text
  pub json_valid : Text → Bool
  pub marshal : Option (Value S) → Option Text
  pub request_bytes : Request S → Option ℕ

abbrev pub max_request_bytes : ℕ
max_request_bytes = 4 * 2 ^ 20

-- An operation that may give an error, as a result.
abbrev pub or_error {ℓ κ} : {E : Type ℓ} {A : Type κ} → E → Option A → Result E A
or_error e none = err e
or_error e (some a) = ok a

abbrev pub check_size : ℕ → Result ResolveError ℕ
check_size n = if ltb max_request_bytes n then err request_too_large else ok n

abbrev pub check_regular : FileInfo → Result FileError (Unit {0})
check_regular info = if not info.regular then err irregular else ok tt

-- The check of the opened file.
abbrev pub check_opened : FileInfo → Result FileError (Unit {0})
check_opened info =
    if not info.regular
    then err irregular
    else if ltb max_request_bytes info.size
    then err too_large
    else ok tt

abbrev pub check_read : Text → Result FileError Text
check_read bytes = if ltb max_request_bytes (length bytes) then err too_large else ok bytes

module _ {S : Type 0} where
  unfoldable pub request_size : Host S → Request S → Result ResolveError ℕ
  request_size host r = or_error unencodable (host.request_bytes r) >>= check_size

  unfoldable pub read_request_file : System S → Text → Result FileError Text
  read_request_file system path = do
    info ← with_error failed (system.stat path)
    _ ← check_regular info
    opened ← with_error failed (system.open_stat path)
    _ ← check_opened opened
    bytes ← with_error failed (system.contents path)
    check_read (take (max_request_bytes + 1) bytes)
