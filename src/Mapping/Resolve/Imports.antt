-- ===== src/Mapping/Resolve/Imports.antt =====
-- The snapshot of imports in internal/mapping/resolve.go. The parser asks the importer for names,
-- one after the other, each depending on the answers so far, and stops when it gives an error.
pub mod Replay
use bloblang_lsp.Common.{
  ℕ, zero, suc, ◌+◌, ◌-◌, Text, Bool, true, false, Option, none, some, List, [], ◌∷◌, ◌++◌, ltb,
  if◌then◌else◌, length, text_is_eq,
}
use bloblang_lsp.Common.Dict.{Dict, lookup, insert}
use bloblang_lsp.Common.Result.{Result, ok, err, ◌>>=◌, with_error}
use bloblang_lsp.Benthos.Sample.{System}
use bloblang_lsp.Mapping.Resolve.{
  Request, Host, ResolveError, too_many_reads, imports_too_large, bad_import, max_request_bytes,
  request_size, read_request_file,
}

-- `maxImportReads`
abbrev pub max_import_reads : ℕ
max_import_reads = 256

-- The parser of a source: the next name that it imports after some answers, or that it is done.
abbrev pub Parser : Type 0
Parser = Text → List (Text × Text) → Option Text

-- What the callback keeps: the imports and the bytes that are left.
pub record Snapshot : Type 0 where
  pub imports : Dict Text Text
  pub remaining : ℕ

abbrev pub or_else {ℓ} : {A : Type ℓ} → Option A → Option A → Option A
or_else (some a) other = some a
or_else none other = other

-- The importer over a map of imports alone, which evaluations have.
unfoldable pub supplied : (Text → Text) → Dict Text Text → Text → Option Text
supplied to_slash imports name = or_else (lookup name imports) (lookup (to_slash name) imports)

module _ {S : Type 0} (host : Host S) (system : System S) (base_dir : Text) where
  -- A file that was read.
  abbrev pub keep : Snapshot → Text → Text → Result ResolveError (Snapshot × Text)
  keep s name bytes =
      if ltb s.remaining (length name + length bytes)
      then err imports_too_large
      else ok (
        record {
          imports = insert (host.to_slash name) bytes s.imports;
          remaining = s.remaining - (length name + length bytes);
        },
        bytes,
      )

  abbrev pub import_file : Text → Text
  import_file name = if system.is_abs name then name else system.join_path base_dir name

  -- The callback behind its count of reads, with what the imports have.
  abbrev pub read_import : Snapshot → Text → Option Text → Result ResolveError (Snapshot × Text)
  read_import s name (some bytes) = ok (s, bytes)
  read_import s name none =
      with_error (bad_import name) (read_request_file system (import_file name)) >>= keep s name

  -- No read is left.
  abbrev pub out_of_reads :
      List (Text × Text)
      → Snapshot
      → Option Text
      → Result ResolveError (Snapshot × List (Text × Text))
  out_of_reads answers s none = ok (s, answers)
  out_of_reads answers s (some name) = err too_many_reads

  -- A read, and the rest of the parser's run.
  abbrev pub answer :
      List (Text × Text)
      → Snapshot
      → (List (Text × Text) → Snapshot → Result ResolveError (Snapshot × List (Text × Text)))
      → Option Text
      → Result ResolveError (Snapshot × List (Text × Text))
  answer answers s continue none = ok (s, answers)
  answer answers s continue (some name) =
      read_import s name (supplied host.to_slash s.imports name) >>= λ (s', bytes).
      continue (answers ++ (name, bytes) ∷ []) s'

  module _ (next : List (Text × Text) → Option Text) where
    -- The parser's run, with the number of reads that are left, from the answers so far.
    unfoldable pub walk :
        ℕ → List (Text × Text) → Snapshot → Result ResolveError (Snapshot × List (Text × Text))
    walk zero answers s = out_of_reads answers s (next answers)
    walk (suc left) answers s = answer answers s (walk left) (next answers)

  unfoldable pub snapshot_imports : Parser → Request S → Result ResolveError (Request S)
  unfolding walk
  snapshot_imports parser r = do
    size ← request_size host r
    (s, _) ←
        walk (parser r.source) max_import_reads []
          (record { imports = r.imports; remaining = max_request_bytes - size })
    ok (record r { imports = s.imports })
