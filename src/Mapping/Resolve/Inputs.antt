-- ===== src/Mapping/Resolve/Inputs.antt =====
-- Inputs from files in internal/mapping/resolve.go, and the check of inline source's directives.
use bloblang_lsp.Common.{Text, Bool, not, ◌&&◌, some, List, [], ◌∷◌, if◌then◌else◌, codes}
use bloblang_lsp.Common.Strings.{
  has_prefix, has_suffix, trim_prefix, trim_left, trim_right, trim_space, before, after_byte, split,
}
use bloblang_lsp.Common.Result.{Result, ok, err, ◌>>=◌}
use bloblang_lsp.Benthos.Sample.{
  Decoded, empty, invalid, decoded, at_end, more, broken, Value, System,
}
use bloblang_lsp.Benthos.Sample.Directives.{is_quote, is_comment}
use bloblang_lsp.Mapping.Resolve.{
  Host, InputError, invalid_json, two_documents, incompatible, invalid_yaml, ResolveError,
  relative_directive, or_error,
}

-- The text behind "#!".
abbrev pub directive_body : Text → Text
directive_body line = trim_space (trim_prefix (codes "#!") line)

module _ {S : Type 0} where
  -- The one YAML document.
  abbrev pub only_document : Decoded S → Result InputError (Value S)
  only_document empty = err (invalid_yaml (codes "EOF"))
  only_document (invalid message) = err (invalid_yaml message)
  only_document (decoded v at_end) = ok v
  only_document (decoded v more) = err two_documents
  only_document (decoded v (broken message)) = err (invalid_yaml message)

  unfoldable pub decode_input_file : Host S → System S → Text → Text → Result InputError Text
  decode_input_file host system bytes ext =
      if host.json_valid bytes
      then ok bytes
      else if host.equal_fold ext (codes ".json")
      then err invalid_json
      else only_document (system.yaml bytes) >>= λ v. or_error incompatible (host.marshal (some v))

  -- The directive on one line of inline source, if it names a relative file.
  abbrev pub relative_path : System S → Text → Bool
  relative_path system body =
      has_suffix (codes "_from") (before (codes " ") body)
      && not (
          system.is_abs
            (trim_right is_quote (trim_left is_quote (trim_space (after_byte b' ' body)))))

  unfoldable pub check_inline_lines : System S → List Text → Result ResolveError (Unit {0})
  unfolding trim_space trim_left trim_right before after_byte has_suffix
  check_inline_lines system [] = ok tt
  check_inline_lines system (l ∷ ls) =
      let line = trim_space l in
      let rest = check_inline_lines system ls in
      if is_comment line
      then rest
      else if not (has_prefix (codes "#!") line)
      then ok tt
      else if relative_path system (directive_body line)
      then err (relative_directive (before (codes " ") (directive_body line)))
      else rest

  unfoldable pub check_inline_sample_paths : System S → Text → Result ResolveError (Unit {0})
  unfolding check_inline_lines split
  check_inline_sample_paths system source = check_inline_lines system (split 10 source)
