-- ===== src/Benthos/Completion.antt =====
-- The completions of internal/benthos/cache.go: the descriptions that the runtime gives of its
-- functions and methods, their statuses and parameters, and the snippets that are offered.
pub mod Documentation
pub mod Items
pub mod Snippets
use bloblang_lsp.Common.{
  ℕ, ◌+◌, Text, Bool, true, false, not, ◌&&◌, ◌||◌, Option, List, [], ◌∷◌, ◌++◌, if◌then◌else◌,
  codes, text_eq,
}
use bloblang_lsp.Common.Strings.{is_nil, join}

-- The fields that the program reads of a parameter and of a list of parameters.
pub record Param : Type 0 where
  pub name : Text
  pub value_type : Text
  pub description : Text
  pub is_optional : Bool
  pub default_marshalled : Text

pub record Params : Type 0 where
  pub definitions : List Param
  pub variadic : Bool

pub record Example : Type 0 where
  pub summary : Text
  pub mapping : Text
  pub results : List (Text × Text)
  pub skip_testing : Bool

pub record Category : Type 0 where
  pub category : Text
  pub description : Text
  pub examples : List Example

pub record FunctionData : Type 0 where
  pub name : Text
  pub status : Text
  pub category : Text
  pub description : Text
  pub params : Params
  pub examples : List Example
  pub version : Text

pub record MethodData : Type 0 where
  pub name : Text
  pub status : Text
  pub categories : List Category
  pub description : Text
  pub params : Params
  pub examples : List Example
  pub version : Text

-- strings.ToLower, the printing of a number, and a JSON text printed again with two blanks of
-- indentation, with none for a text that is not JSON.
pub record Formats : Type 0 where
  pub to_lower : Text → Text
  pub decimal : ℕ → Text
  pub pretty_json : Text → Option Text

-- Statuses.
unfoldable pub status_prefix : Text → Text
status_prefix status =
    if text_eq status (codes "beta")
    then codes "[β] "
    else if text_eq status (codes "experimental")
    then codes "[⚗] "
    else if text_eq status (codes "deprecated")
    then codes "[⚠] "
    else []

unfoldable pub status_sort_text : Text → Text → Text
status_sort_text status name =
    if text_eq status (codes "stable") || text_eq status []
    then codes "0_" ++ name
    else if text_eq status (codes "beta") || text_eq status (codes "experimental")
    then codes "1_" ++ name
    else codes "2_" ++ name

-- Parameters.
abbrev pub is_optional_param : Param → Bool
is_optional_param p = p.is_optional || not (is_nil p.default_marshalled)

abbrev pub has_optional : List Param → Bool
has_optional [] = false
has_optional (p ∷ ps) = is_optional_param p || has_optional ps

abbrev pub has_optional_params : Params → Bool
has_optional_params params = has_optional params.definitions

-- What the default branches of the two switches stand for.
pub data Kind : Type 0 where
  string_kind number_kind bool_kind array_kind object_kind query_kind other_kind : Kind

abbrev pub kind_of : Text → Kind
kind_of t =
    if text_eq t (codes "string")
    then string_kind
    else if text_eq t (codes "integer") || text_eq t (codes "number") || text_eq t (codes "float")
    then number_kind
    else if text_eq t (codes "bool")
    then bool_kind
    else if text_eq t (codes "array")
    then array_kind
    else if text_eq t (codes "object")
    then object_kind
    else if text_eq t (codes "query expression")
    then query_kind
    else other_kind

abbrev pub value_of : Text → Kind → Text
value_of name string_kind = []
value_of name number_kind = codes "0"
value_of name bool_kind = codes "true"
value_of name array_kind = codes "[]"
value_of name object_kind = codes "{}"
value_of name query_kind = name
value_of name other_kind = codes "null"

-- `${n:value}`
abbrev pub tab_stop : Formats → ℕ → Text → Text
tab_stop formats n value = codes "${" ++ (formats.decimal n ++ (codes ":" ++ (value ++ codes "}")))

abbrev pub quoted : Text → Text
quoted s = codes "\"" ++ (s ++ codes "\"")

module _ (formats : Formats) where
  abbrev pub infer_snippet_value : Param → Text
  infer_snippet_value p =
      if not (is_nil p.default_marshalled)
      then p.default_marshalled
      else value_of p.name (kind_of (formats.to_lower p.value_type))

  -- A required parameter's part of a positional snippet.
  abbrev pub positional : ℕ → Param → Kind → Text
  positional n p query_kind = p.name ++ (codes " -> " ++ tab_stop formats n p.name)
  positional n p string_kind = quoted (tab_stop formats n (infer_snippet_value p))
  positional n p number_kind = tab_stop formats n (infer_snippet_value p)
  positional n p bool_kind = tab_stop formats n (infer_snippet_value p)
  positional n p array_kind = tab_stop formats n (infer_snippet_value p)
  positional n p object_kind = tab_stop formats n (infer_snippet_value p)
  positional n p other_kind = tab_stop formats n (infer_snippet_value p)

  abbrev pub positional_part : ℕ → Param → Text
  positional_part n p = positional n p (kind_of (formats.to_lower p.value_type))

  -- The loop over the parameters, from a number of the next tab stop.
  unfoldable pub snippet_parts : ℕ → List Param → List Text
  snippet_parts n [] = []
  snippet_parts n (p ∷ ps) =
      let optional = is_optional_param p in
      let rest = snippet_parts (if optional then n else n + 1) ps in
      if optional then rest else positional_part n p ∷ rest

  abbrev pub signature_part : Param → Text
  signature_part p =
      p.name ++ ((if is_optional_param p then codes "?" else []) ++ (codes ": " ++ p.value_type))

  unfoldable pub signature_parts : List Param → List Text
  signature_parts [] = []
  signature_parts (p ∷ ps) = signature_part p ∷ signature_parts ps

  -- The snippet and the signature.
  unfoldable pub generate_positional_snippet : Params → Text × Text
  unfolding snippet_parts signature_parts join
  generate_positional_snippet params =
      let parts = snippet_parts 1 params.definitions in
      let signature = signature_parts params.definitions in
      let placeholder = is_nil parts && params.variadic in
      (
        join (codes ", ") (if placeholder then parts ++ codes "\"${1:value}\"" ∷ [] else parts),
        join (codes ", ") (if placeholder then signature ++ codes "...params" ∷ [] else signature),
      )

  abbrev pub named : ℕ → Param → Kind → Text
  named n p string_kind =
      p.name ++ (codes ": " ++ quoted (tab_stop formats n (infer_snippet_value p)))
  named n p query_kind =
      if not (is_nil p.default_marshalled)
      then p.name ++ (codes ": " ++ tab_stop formats n (infer_snippet_value p))
      else p.name ++ (codes ": " ++ (p.name ++ (codes " -> " ++ tab_stop formats n p.name)))
  named n p number_kind = p.name ++ (codes ": " ++ tab_stop formats n (infer_snippet_value p))
  named n p bool_kind = p.name ++ (codes ": " ++ tab_stop formats n (infer_snippet_value p))
  named n p array_kind = p.name ++ (codes ": " ++ tab_stop formats n (infer_snippet_value p))
  named n p object_kind = p.name ++ (codes ": " ++ tab_stop formats n (infer_snippet_value p))
  named n p other_kind = p.name ++ (codes ": " ++ tab_stop formats n (infer_snippet_value p))

  abbrev pub named_part : ℕ → Param → Text
  named_part n p = named n p (kind_of (formats.to_lower p.value_type))

  -- The loop from an index, whose tab stop is one more.
  unfoldable pub named_parts : ℕ → List Param → List Text
  named_parts i [] = []
  named_parts i (p ∷ ps) = named_part (i + 1) p ∷ named_parts (i + 1) ps

  unfoldable pub generate_named_args_snippet : Params → Text
  unfolding named_parts join
  generate_named_args_snippet params = join (codes ", ") (named_parts 0 params.definitions)
