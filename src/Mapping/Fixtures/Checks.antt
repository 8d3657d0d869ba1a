-- ===== src/Mapping/Fixtures/Checks.antt =====
-- The check of a result in internal/mapping/fixtures.go, and its equality of JSON values.
use bloblang_lsp.Common.{
  ℕ, suc, Text, Bool, true, false, not, ◌&&◌, Option, none, some, List, [], ◌∷◌, ◌++◌, ◌==◌,
  if◌then◌else◌, text_eq, text_is_eq,
}
use bloblang_lsp.Common.Strings.{has_part}
use bloblang_lsp.Mapping.Fixtures.{
  Error, Expectation, ExpectedError, Failure, Field, Fields, Items, Json, JsonLibrary, Result,
  array, boolean, cannot_compare, differs, expected_error, field, is_empty, item, lint_failed,
  metadata, no_fields, no_items, null, number, object, output, string, unexpected_error,
  wrong_deleted, wrong_kind, wrong_message,
}

abbrev pub count_items : Items → ℕ
count_items no_items = 0
count_items (item _ vs) = suc (count_items vs)

abbrev pub count_fields : Fields → ℕ
count_fields no_fields = 0
count_fields (field _ _ fs) = suc (count_fields fs)

abbrev pub find_field : Text → Fields → Option Json
find_field k no_fields = none
find_field k (field j v fs) = if text_eq j k then some v else find_field k fs

module _ (same_number : Text → Text → Bool) where
  unfoldable mutual
    pub fixture_equal : Json → Json → Bool
    fixture_equal null null = true
    fixture_equal (boolean a) (boolean b) = if a then b else not b
    fixture_equal (number a) (number b) = same_number a b
    fixture_equal (string a) (string b) = text_eq a b
    fixture_equal (array vs) (array ws) = (count_items vs == count_items ws) && equal_items vs ws
    fixture_equal (object fs) (object gs) =
        (count_fields fs == count_fields gs) && equal_fields fs gs
    fixture_equal _ _ = false

    pub equal_items : Items → Items → Bool
    equal_items no_items _ = true
    equal_items (item v vs) no_items = false
    equal_items (item v vs) (item w ws) = fixture_equal v w && equal_items vs ws

    pub equal_fields : Fields → Fields → Bool
    equal_fields no_fields gs = true
    equal_fields (field k v fs) gs =
        let later = equal_fields fs gs in
        elim (find_field k gs) [ none ↦ false | some w ↦ fixture_equal v w && later ]

abbrev pub lint_failures : Option Error → List Failure
lint_failures none = []
lint_failures (some e) = lint_failed e ∷ []

abbrev pub error_failures : Option ExpectedError → Option Error → List Failure
error_failures none none = []
error_failures none (some e) = unexpected_error e ∷ []
error_failures (some x) none = expected_error ∷ []
error_failures (some x) (some e) =
    (if not (is_empty x.kind) && not (text_eq x.kind e.kind)
      then wrong_kind x.kind e.kind ∷ []
      else [])
    ++ (if not (is_empty x.contains) && not (has_part x.contains e.message)
        then wrong_message x.contains e.message ∷ []
        else [])

abbrev pub deleted_failures : Option Bool → Bool → List Failure
deleted_failures none actual = []
deleted_failures (some true) true = []
deleted_failures (some false) false = []
deleted_failures (some true) false = wrong_deleted true false ∷ []
deleted_failures (some false) true = wrong_deleted false true ∷ []

module _ {V : Type 0} (library : JsonLibrary V) where
  abbrev pub compare_json : Field → Option Json → Option Json → List Failure
  compare_json f (some want) (some got) =
      if fixture_equal library.same_number want got then [] else differs f ∷ []
  compare_json f none got = cannot_compare f ∷ []
  compare_json f (some want) none = cannot_compare f ∷ []

  abbrev pub fixture_compare : Field → V → V → List Failure
  fixture_compare f expected actual =
      compare_json f (library.encode expected) (library.encode actual)

  abbrev pub output_failures : Text → V → List Failure
  output_failures [] actual = []
  output_failures (c ∷ s) actual = fixture_compare output (library.raw (c ∷ s)) actual

  abbrev pub metadata_or_empty : Option V → V
  metadata_or_empty none = library.no_metadata
  metadata_or_empty (some v) = v

  abbrev pub metadata_failures : Option V → Option V → List Failure
  metadata_failures none actual = []
  metadata_failures (some want) actual = fixture_compare metadata want (metadata_or_empty actual)

  unfoldable pub check : Expectation V → Result V → List Failure
  unfolding has_part
  check e r =
      lint_failures r.lint_error
      ++ error_failures e.error r.error
      ++ output_failures e.output r.output
      ++ metadata_failures e.metadata r.metadata
      ++ deleted_failures e.deleted r.deleted
