-- ===== src/Benthos/Sample/Decoding.antt =====
-- The decoding of a sample's bytes and its use, in internal/benthos/sample.go.
pub mod Whole
use bloblang_lsp.Common.{
  ℕ, Text, Bool, true, false, ◌||◌, Option, none, some, List, [], ◌∷◌, if◌then◌else◌, codes,
  text_eq, text_is_eq,
}
use bloblang_lsp.Common.Dict.{Dict, insert}
use bloblang_lsp.Common.Result.{Result, ok, err, ◌>>=◌}
use bloblang_lsp.Benthos.Sample.{
  Value, scalar, lexeme, text, list, object, Values, no_values, value, Entries, no_entries, entry,
  Sample, SampleContext, SampleError, undecodable, not_an_object, missing_root, missing_input,
  missing_meta, not_one_document, bad_env, bad_meta, trailing_content, env_not_text, unreadable,
  Rest, at_end, more, broken, Decoded, empty, invalid, decoded, System, lookup_entry, object_of,
  text_of,
}

module _ {S : Type 0} (system : System S) where
  abbrev pub int_or_lexeme : Text → Option S → Value S
  int_or_lexeme s (some i) = scalar i
  int_or_lexeme s none = lexeme s

  unfoldable mutual
    pub normalize_numbers : Value S → Value S
    normalize_numbers (lexeme s) = int_or_lexeme s (system.parse_int s)
    normalize_numbers (object es) = object (normalize_entries es)
    normalize_numbers (list vs) = list (normalize_values vs)
    normalize_numbers (scalar x) = scalar x
    normalize_numbers (text s) = text s

    pub normalize_values : Values S → Values S
    normalize_values no_values = no_values
    normalize_values (value v vs) = value (normalize_numbers v) (normalize_values vs)

    pub normalize_entries : Entries S → Entries S
    normalize_entries no_entries = no_entries
    normalize_entries (entry k v es) = entry k (normalize_numbers v) (normalize_entries es)

  -- The second decoder, on all of the bytes again.
  abbrev pub decode_yaml : Decoded S → Result SampleError (Value S)
  decode_yaml empty = err not_one_document
  decode_yaml (invalid message) = err (unreadable message)
  decode_yaml (decoded v at_end) = ok v
  decode_yaml (decoded v more) = err not_one_document
  decode_yaml (decoded v (broken message)) = err (trailing_content message)

  abbrev pub decode_json : Text → Decoded S → Result SampleError (Value S)
  decode_json bytes (decoded v at_end) = ok (normalize_numbers v)
  decode_json bytes (decoded v more) = decode_yaml (system.yaml bytes)
  decode_json bytes (decoded v (broken _)) = decode_yaml (system.yaml bytes)
  decode_json bytes empty = decode_yaml (system.yaml bytes)
  decode_json bytes (invalid _) = decode_yaml (system.yaml bytes)

  unfoldable pub decode_sample_value : Text → Result SampleError (Value S)
  unfolding normalize_numbers normalize_values normalize_entries
  decode_sample_value bytes = decode_json bytes (system.json bytes)

-- The part of a sample that a directive takes; the program passes its name.
pub data Part : Type 0 where
  whole root input meta : Part

-- The loop over the environment's entries.
abbrev pub env_value :
    Text → Option Text → Result SampleError (Dict Text Text) → Result SampleError (Dict Text Text)
env_value name none later = err (env_not_text name)
env_value name (some s) (ok m) = ok (insert name s m)
env_value name (some s) (err e) = err e

module _ {S : Type 0} where
  abbrev pub set_root : SampleContext S → Value S → SampleContext S
  set_root c v = record c { sample = record (c.sample) { root = some v; has_root = true } }

  abbrev pub set_input : SampleContext S → Value S → SampleContext S
  set_input c v = record c { sample = record (c.sample) { input = some v }; has_input = true }

  abbrev pub set_meta : SampleContext S → Option (Entries S) → SampleContext S
  set_meta c m = record c { sample = record (c.sample) { meta = m } }

  abbrev pub set_env : SampleContext S → Option (Dict Text Text) → SampleContext S
  set_env c m = record c { sample = record (c.sample) { env = m } }

  abbrev pub required_root :
      SampleContext S → Option (Value S) → Result SampleError (SampleContext S)
  required_root c none = err missing_root
  required_root c (some v) = ok (set_root c v)

  abbrev pub optional_root : SampleContext S → Option (Value S) → SampleContext S
  optional_root c none = c
  optional_root c (some v) = set_root c v

  abbrev pub required_input :
      SampleContext S → Option (Value S) → Result SampleError (SampleContext S)
  required_input c none = err missing_input
  required_input c (some v) = ok (set_input c v)

  unfoldable pub env_of : Entries S → Result SampleError (Dict Text Text)
  unfolding insert
  env_of no_entries = ok []
  env_of (entry k v es) = env_value k (text_of v) (env_of es)

  abbrev pub env_object : Option (Entries S) → Result SampleError (Option (Dict Text Text))
  env_object none = err bad_env
  env_object (some es) = do m ← env_of es; ok (some m)

  abbrev pub apply_env : Option (Value S) → Result SampleError (Option (Dict Text Text))
  apply_env none = ok none
  apply_env (some v) = env_object (object_of v)

  abbrev pub meta_object : Option (Entries S) → Result SampleError (Option (Entries S))
  meta_object none = err bad_meta
  meta_object (some es) = ok (some es)

  abbrev pub required_meta : Option (Value S) → Result SampleError (Option (Entries S))
  required_meta none = err missing_meta
  required_meta (some v) = meta_object (object_of v)

  abbrev pub optional_meta : Option (Value S) → Result SampleError (Option (Entries S))
  optional_meta none = ok none
  optional_meta (some v) = meta_object (object_of v)

  -- By the part: the tests on `field` of the program, each in its order.
  abbrev pub apply_object :
      SampleContext S → Entries S → Part → Result SampleError (SampleContext S)
  apply_object c es whole = do
    c₁ ←
        required_input (optional_root c (lookup_entry (codes "root") es))
          (lookup_entry (codes "input") es)
    env ← apply_env (lookup_entry (codes "env") es)
    m ← optional_meta (lookup_entry (codes "meta") es)
    ok (set_meta (set_env c₁ env) m)
  apply_object c es root = required_root c (lookup_entry (codes "root") es)
  apply_object c es input = required_input c (lookup_entry (codes "input") es)
  apply_object c es meta = do m ← required_meta (lookup_entry (codes "meta") es); ok (set_meta c m)

  abbrev pub apply_entries :
      SampleContext S → Option (Entries S) → Part → Result SampleError (SampleContext S)
  apply_entries c none part = err not_an_object
  apply_entries c (some es) part = apply_object c es part

  unfoldable pub apply_sample :
      SampleContext S → Value S → Part → Result SampleError (SampleContext S)
  unfolding env_of
  apply_sample c v part = apply_entries c (object_of v) part
