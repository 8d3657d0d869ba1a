-- ===== src/Mapping/Fixtures/Runner.antt =====
-- The runner of a suite in internal/mapping/fixtures.go, and the merge of its maps.
use bloblang_lsp.Common.{
  ℕ, ◌+◌, Text, Bool, Option, none, some, List, [], ◌∷◌, ◌++◌, if◌then◌else◌, text_is_eq,
}
use bloblang_lsp.Common.Dict.{Dict, insert}
use bloblang_lsp.Mapping.Fixtures.{
  FixtureCase, FixtureCaseResult, JsonLibrary, Request, Result, Suite, SuiteError, SuiteResult,
  cancelled, is_nil, no_runner,
}
use bloblang_lsp.Mapping.Fixtures.Rules.{validate}
use bloblang_lsp.Mapping.Fixtures.Checks.{check}

abbrev pub insert_all : Dict Text Text → Dict Text Text → Dict Text Text
insert_all [] merged = merged
insert_all ((k, v) ∷ m) merged = insert_all m (insert k v merged)

unfoldable pub merge_fixture_maps : Dict Text Text → Dict Text Text → Dict Text Text
unfolding insert
merge_fixture_maps defaults overrides = insert_all overrides (insert_all defaults [])

abbrev pub source_or : Text → Text → Text
source_or [] default = default
source_or (c ∷ s) default = c ∷ s

module _ {V : Type 0} where
  unfoldable pub with_defaults : Suite V → Request → Request
  unfolding merge_fixture_maps
  with_defaults s r = record r {
    source = source_or r.source s.source;
    env = merge_fixture_maps s.env r.env;
    imports = merge_fixture_maps s.imports r.imports;
  }

  abbrev pub add_case : SuiteResult V → FixtureCaseResult V → SuiteResult V
  add_case r c = record {
    passed = if c.passed then r.passed + 1 else r.passed;
    failed = if c.passed then r.failed else r.failed + 1;
    cases = r.cases ++ c ∷ [];
  }

  abbrev pub no_results : SuiteResult V
  no_results = record { passed = 0; failed = 0; cases = [] }

-- `done i` is the i-th answer of ctx.Err() being an error; a missing runner is Go's nil.
module _ {V : Type 0} (library : JsonLibrary V) where
  -- What the loop appends for one case.
  unfoldable pub case_result : Suite V → (Request → Result V) → FixtureCase V → FixtureCaseResult V
  unfolding check with_defaults
  case_result s run test =
      let result = run (with_defaults s test.request) in
      let failures = check library test.expect result in
      record { name = test.name; passed = is_nil failures; result = result; failures = failures }

  -- The loop of `RunSuite`, which asks the context before and after each case.
  unfoldable pub run_cases :
      (ℕ → Bool)
      → Suite V
      → (Request → Result V)
      → ℕ
      → List (FixtureCase V)
      → SuiteResult V
      → SuiteResult V × Option SuiteError
  unfolding case_result
  run_cases done s run i [] r = (r, none)
  run_cases done s run i (test ∷ tests) r =
      let rest = run_cases done s run (i + 2) tests (add_case r (case_result s run test)) in
      if done i then (r, some cancelled) else if done (i + 1) then (r, some cancelled) else rest

  abbrev pub run_valid :
      (ℕ → Bool)
      → Suite V
      → Option (Request → Result V)
      → Option SuiteError
      → SuiteResult V × Option SuiteError
  run_valid done s run (some e) = (no_results, some e)
  run_valid done s none none = (no_results, some no_runner)
  run_valid done s (some run) none = run_cases done s run 0 s.cases no_results

  unfoldable pub run_suite :
      (ℕ → Bool) → Suite V → Option (Request → Result V) → SuiteResult V × Option SuiteError
  unfolding validate run_cases
  run_suite done s run = run_valid done s run (validate library s)
