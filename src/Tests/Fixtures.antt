-- ===== src/Tests/Fixtures.antt =====
-- A fixture suite of internal/mapping/fixtures.go with two cases, over values that are JSON.
use bloblang_lsp.Common.{
  ℕ, Text, Bool, true, false, none, some, [], ◌∷◌, ◌≡◌, ◌≢◌, ◌↔◌, refl, codes, text_eq, text_is_eq,
  Distinct, All, map,
}
use bloblang_lsp.Common.Dict.{Dict}
use bloblang_lsp.Mapping.Fixtures.{
  Expectation, Json, JsonLibrary, Request, Result, Suite, no_fields, object, string,
}
use bloblang_lsp.Mapping.Fixtures.Rules.{validate, validate_case}
use bloblang_lsp.Mapping.Fixtures.Checks.{check, fixture_equal}
use bloblang_lsp.Mapping.Fixtures.Runner.{case_result, run_suite}
use bloblang_lsp.Mapping.Fixtures.Validation.{IsNamedCase, name_of, validate_iff}
use bloblang_lsp.Mapping.Fixtures.Suites.{
  IsRunOf, IsCounted, run_suite-IsRunOf, run_suite-completes,
}
use bloblang_lsp.Mapping.Fixtures.Expectations.{Meets, check_iff}

-- A library that knows the JSON texts of strings by themselves.
abbrev library : JsonLibrary Json
library = record {
  json_valid = λ s. true;
  same_number = text_eq;
  encode = some;
  raw = string;
  no_metadata = object no_fields;
}

abbrev mode : Dict Text Text
mode = (codes "MODE", codes "dev") ∷ (codes "USER", codes "x") ∷ []

abbrev overrides : Dict Text Text
overrides = (codes "MODE", codes "prod") ∷ []

abbrev request : Request
request = record {
  source = [];
  input = codes "a";
  env = overrides;
  imports = [];
  root = [];
  mapping_path = [];
  input_path = [];
  sample_path = [];
}

abbrev expects : Text → Expectation Json
expects s = record { output = s; metadata = none; deleted = none; error = none }

abbrev suite : Suite Json
suite = record {
  source = codes "root = this";
  env = mode;
  imports = [];
  cases =
      record { name = codes "same"; request = request; expect = expects (codes "a") }
      ∷ record { name = codes "other"; request = request; expect = expects (codes "b") }
      ∷ [];
}

-- The mapping that returns its input.
abbrev identity : Request → Result Json
identity r = record {
  output = string r.input;
  metadata = none;
  deleted = false;
  error = none;
  lint_error = none;
}

abbrev never : ℕ → Bool
never i = false

accepted : validate library suite ≡ none
unfolding validate validate_case
accepted = refl

one_of_two : (run_suite library never suite (some identity)).0.passed ≡ 1
unfolding run_suite validate_case fixture_equal
one_of_two = refl

run_suite-IsRunOf_example :
    IsRunOf
      (case_result library suite identity)
      suite.cases
      []
      (run_suite library never suite (some identity))
    × IsCounted (run_suite library never suite (some identity)).0
run_suite-IsRunOf_example = run_suite-IsRunOf library never suite identity

run_suite-completes_example :
    let (r, e) = run_suite library never suite (some identity) in
    (e ≡ none) × (r.cases ≡ map (case_result library suite identity) suite.cases) × IsCounted r
run_suite-completes_example = run_suite-completes library never suite identity accepted (λ j. refl)

validate_iff_example : (validate library suite ≡ none) ↔ (
    (suite.cases ≢ [])
    × All (IsNamedCase library suite.source) suite.cases
    × Distinct (map name_of suite.cases))
validate_iff_example = validate_iff library suite

check_iff_example :
    (check library (expects (codes "a")) (identity request) ≡ [])
    ↔ Meets library (expects (codes "a")) (identity request)
check_iff_example = check_iff library (expects (codes "a")) (identity request)
