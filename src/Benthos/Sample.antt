-- ===== src/Benthos/Sample.antt =====
-- Samples and their directives: internal/benthos/sample.go. Decoded values, samples and errors are
-- here, with what the file takes from the file system and from the decoders.
pub mod Decoding
pub mod Files
pub mod Directives
use bloblang_lsp.Common.{
  ℕ, Text, Bool, true, false, Option, none, some, List, [], ◌∷◌, ◌++◌, if◌then◌else◌, text_eq,
  text_is_eq,
}
use bloblang_lsp.Common.Dict.{Dict}
use bloblang_lsp.Common.Result.{Result, ok, err, ◌>>=◌, with_error}

-- Go's `any` after a decoding. `S` is the type of the scalars that are neither texts nor numbers
-- kept as they are written; the keys of a map are distinct.
mutual
  pub data Value (S : Type 0) : Type 0 where
    scalar : S → Value S
    lexeme : Text → Value S
    text : Text → Value S
    list : Values S → Value S
    object : Entries S → Value S

  pub data Values (S : Type 0) : Type 0 where
    no_values : Values S
    value : Value S → Values S → Values S

  pub data Entries (S : Type 0) : Type 0 where
    no_entries : Entries S
    entry : Text → Value S → Entries S → Entries S

-- `root` is nil unless `has_root`; `meta` and `env` are nil maps where they are `none`.
pub record Sample (S : Type 0) : Type 0 where
  pub root : Option (Value S)
  pub has_root : Bool
  pub input : Option (Value S)
  pub meta : Option (Entries S)
  pub env : Option (Dict Text Text)
  pub source : Text
  pub line : ℕ
  pub dependencies : List Text
  pub dependency_lines : Dict Text ℕ

pub record SampleContext (S : Type 0) : Type 0 where
  pub sample : Sample S
  pub has_input : Bool

-- The errors, with the values that the messages print.
pub data SampleError : Type 0 where
  undecodable missing_envelope not_an_object missing_root missing_input missing_meta : SampleError
  not_one_document bad_env bad_meta not_regular oversized missing_path ambiguous : SampleError
  trailing_content env_not_text : Text → SampleError
  unreadable : Text → SampleError
  unknown_directive duplicate_directive missing_value : Text → SampleError
  in_file : Text → SampleError → SampleError

-- A `SampleError`, with its line; an error of the file's discovery has line 0.
pub record LineError : Type 0 where
  pub line : ℕ
  pub problem : SampleError

-- What a decoder reads at the front of some bytes, and what it meets behind.
pub data Rest : Type 0 where
  at_end more : Rest
  broken : Text → Rest

pub data Decoded (S : Type 0) : Type 0 where
  empty : Decoded S
  invalid : Text → Decoded S
  decoded : Value S → Rest → Decoded S

pub record FileInfo : Type 0 where
  pub regular : Bool
  pub size : ℕ

-- encoding/json with UseNumber, the YAML library, and strconv.ParseInt to 64 bits; os.Stat, the
-- opened file's Stat, and the bytes that reading it to its end gives, each with a message on an
-- error; filepath.IsAbs and filepath.Join.
pub record System (S : Type 0) : Type 0 where
  pub json : Text → Decoded S
  pub yaml : Text → Decoded S
  pub parse_int : Text → Option S
  pub stat : Text → Result Text FileInfo
  pub open_stat : Text → Result Text FileInfo
  pub contents : Text → Result Text Text
  pub is_abs : Text → Bool
  pub join_path : Text → Text → Text

module _ {S : Type 0} where
  abbrev pub lookup_entry : Text → Entries S → Option (Value S)
  lookup_entry k no_entries = none
  lookup_entry k (entry j v es) = if text_eq j k then some v else lookup_entry k es

  abbrev pub object_of : Value S → Option (Entries S)
  object_of (object es) = some es
  object_of (scalar _) = none
  object_of (lexeme _) = none
  object_of (text _) = none
  object_of (list _) = none

  abbrev pub text_of : Value S → Option Text
  text_of (text s) = some s
  text_of (scalar _) = none
  text_of (lexeme _) = none
  text_of (object _) = none
  text_of (list _) = none
