-- ===== src/Mapping/Fixtures.antt =====
-- The fixture suites of internal/mapping/fixtures.go: their types, and what they take from Go's
-- libraries. Of requests and results, the fields that the file reads are here.
-- Error messages are data, with the values that the program prints.
pub mod Rules
pub mod Checks
pub mod Runner
pub mod Validation
pub mod Suites
pub mod Expectations
use bloblang_lsp.Common.{
  ℕ, zero, suc, ◌+◌, Text, Bool, true, false, not, ◌&&◌, ◌||◌, Option, none, some, List, [], ◌∷◌,
  ◌++◌, ◌==◌, leb, if◌then◌else◌, length, contains, text_eq, text_is_eq,
}
use bloblang_lsp.Common.Dict.{Dict}

-- A decoded JSON value, with a number as it is written; an object's keys are distinct.
mutual
  pub data Json : Type 0 where
    null : Json
    boolean : Bool → Json
    number : Text → Json
    string : Text → Json
    array : Items → Json
    object : Fields → Json

  pub data Items : Type 0 where
    no_items : Items
    item : Json → Items → Items

  pub data Fields : Type 0 where
    no_fields : Fields
    field : Text → Json → Fields → Fields

pub record Request : Type 0 where
  pub source : Text
  pub input : Text
  pub env : Dict Text Text
  pub imports : Dict Text Text
  pub root : Text
  pub mapping_path : Text
  pub input_path : Text
  pub sample_path : Text

pub record ExpectedError : Type 0 where
  pub kind : Text
  pub contains : Text

-- `V` is Go's `any`.
pub record Expectation (V : Type 0) : Type 0 where
  pub output : Text
  pub metadata : Option V
  pub deleted : Option Bool
  pub error : Option ExpectedError

pub record FixtureCase (V : Type 0) : Type 0 where
  pub name : Text
  pub request : Request
  pub expect : Expectation V

pub record Suite (V : Type 0) : Type 0 where
  pub source : Text
  pub env : Dict Text Text
  pub imports : Dict Text Text
  pub cases : List (FixtureCase V)

pub record Error : Type 0 where
  pub kind : Text
  pub message : Text

pub record Result (V : Type 0) : Type 0 where
  pub output : V
  pub metadata : Option V
  pub deleted : Bool
  pub error : Option Error
  pub lint_error : Option Error

pub data Field : Type 0 where
  output metadata : Field

pub data Failure : Type 0 where
  lint_failed unexpected_error : Error → Failure
  expected_error : Failure
  wrong_kind wrong_message : Text → Text → Failure
  cannot_compare differs : Field → Failure
  wrong_deleted : Bool → Bool → Failure

pub record FixtureCaseResult (V : Type 0) : Type 0 where
  pub name : Text
  pub passed : Bool
  pub result : Result V
  pub failures : List Failure

pub record SuiteResult (V : Type 0) : Type 0 where
  pub passed : ℕ
  pub failed : ℕ
  pub cases : List (FixtureCaseResult V)

-- Why a suite is refused, with the case's number or name, or why a run ended.
pub data SuiteError : Type 0 where
  no_cases no_runner cancelled : SuiteError
  unnamed : ℕ → SuiteError
  duplicate path_used no_source no_input bad_input bad_root no_expectation bad_output empty_error :
      Text → SuiteError

abbrev pub is_empty : Text → Bool
is_empty [] = true
is_empty (_ ∷ _) = false

abbrev pub is_nil {ℓ} : {A : Type ℓ} → List A → Bool
is_nil [] = true
is_nil (_ ∷ _) = false

-- What the file takes from encoding/json and math/big: json.Valid; the comparison of two written
-- numbers by big.Rat, false unless both parse; json.Marshal followed by a decoding with UseNumber;
-- a raw message as `any`; the empty map as `any`.
pub record JsonLibrary (V : Type 0) : Type 0 where
  pub json_valid : Text → Bool
  pub same_number : Text → Text → Bool
  pub encode : V → Option Json
  pub raw : Text → V
  pub no_metadata : V
