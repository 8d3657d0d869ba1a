-- ===== src/Mapping/Fixtures/Rules.antt =====
-- The validation of a suite in internal/mapping/fixtures.go.
use bloblang_lsp.Common.{
  ℕ, ◌+◌, Text, Bool, true, false, not, ◌&&◌, ◌||◌, Option, none, some, List, [], ◌∷◌,
  if◌then◌else◌, contains, text_is_eq,
}
use bloblang_lsp.Common.Strings.{all_space}
use bloblang_lsp.Mapping.Fixtures.{
  ExpectedError, FixtureCase, JsonLibrary, Suite, SuiteError, bad_input, bad_output, bad_root,
  duplicate, empty_error, is_empty, is_nil, no_cases, no_expectation, no_input, no_source,
  path_used, unnamed,
}

abbrev pub is_none {ℓ} : {A : Type ℓ} → Option A → Bool
is_none none = true
is_none (some _) = false

abbrev pub says_nothing : Option ExpectedError → Bool
says_nothing none = false
says_nothing (some e) = is_empty e.kind && is_empty e.contains

abbrev pub or_else : Option SuiteError → Option SuiteError → Option SuiteError
or_else (some e) later = some e
or_else none later = later

module _ {V : Type 0} (library : JsonLibrary V) where
  -- The tests of one case, but for its name's.
  unfoldable pub validate_case : Text → FixtureCase V → Option SuiteError
  validate_case source test =
      if not (is_empty test.request.mapping_path)
        || not (is_empty test.request.input_path)
        || not (is_empty test.request.sample_path)
      then some (path_used test.name)
      else if is_empty test.request.source && is_empty source
      then some (no_source test.name)
      else if is_empty test.request.input
      then some (no_input test.name)
      else if not (library.json_valid test.request.input)
      then some (bad_input test.name)
      else if not (is_empty test.request.root) && not (library.json_valid test.request.root)
      then some (bad_root test.name)
      else if is_empty test.expect.output
          && is_none test.expect.metadata
          && is_none test.expect.deleted
          && is_none test.expect.error
      then some (no_expectation test.name)
      else if not (is_empty test.expect.output) && not (library.json_valid test.expect.output)
      then some (bad_output test.name)
      else if says_nothing test.expect.error
      then some (empty_error test.name)
      else none

  -- The loop of `validate`, with the names that it has seen.
  unfoldable pub validate_cases : Text → ℕ → List Text → List (FixtureCase V) → Option SuiteError
  validate_cases source i names [] = none
  validate_cases source i names (test ∷ tests) =
      let rest = validate_cases source (i + 1) (test.name ∷ names) tests in
      if all_space test.name
      then some (unnamed (i + 1))
      else if contains names test.name
      then some (duplicate test.name)
      else or_else (validate_case source test) rest

  unfoldable pub validate : Suite V → Option SuiteError
  unfolding validate_cases
  validate s = if is_nil s.cases then some no_cases else validate_cases s.source 0 [] s.cases
