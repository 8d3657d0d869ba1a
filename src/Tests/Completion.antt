-- ===== src/Tests/Completion.antt =====
-- The completion cache of internal/benthos/cache.go over a runtime with three functions.
use bloblang_lsp.Common.{
  ℕ, ◌+◌, Text, Bool, true, false, none, List, [], ◌∷◌, ◌≡◌, ◌↔◌, ◌⊎◌, ◌&&◌, refl, codes,
  text_is_eq, map,
}
use bloblang_lsp.Common.Members.{Memᴰ}
use bloblang_lsp.Common.Dict.{lookup}
use bloblang_lsp.Common.Strings.{is_nil, join}
use bloblang_lsp.Benthos.Completion.{
  Param, Params, Example, FunctionData, Formats, snippet_parts, signature_parts,
  generate_positional_snippet, named_parts, generate_named_args_snippet, positional_part,
  named_part, status_prefix, status_sort_text,
}
use bloblang_lsp.Benthos.Completion.Snippets.{required, IsSnippet, generate-IsSnippet}
use bloblang_lsp.Benthos.Completion.Documentation.{
  one_line, dashed, to_kebab_case, function_markup, method_markup, build_all_docs,
}
use bloblang_lsp.Benthos.Completion.Items.{
  CompletionItem, build_completion_cache, build_function_item, walk_functions, walk_methods,
  visit_function,
}
use bloblang_lsp.Benthos.Completion.Items.Offers.{
  OfFunction, OfMethod, build_completion_cache-Offers,
}
use bloblang_lsp.Benthos.Completion.Items.Documented.{shown, lookup-build_all_docs}

abbrev digit : ℕ → Text
digit n = (48 + n) ∷ []

abbrev formats : Formats
formats = record { to_lower = λ s. s; decimal = digit; pretty_json = λ s. none }

abbrev param : Text → Text → Bool → Param
param name value_type optional = record {
  name = name;
  value_type = value_type;
  description = [];
  is_optional = optional;
  default_marshalled = [];
}

abbrev params : Params
params = record {
  definitions =
      param (codes "pattern") (codes "string") false
      ∷ param (codes "limit") (codes "integer") true
      ∷ param (codes "each") (codes "query expression") false
      ∷ [];
  variadic = false;
}

snippet : generate_positional_snippet formats params ≡ (
  codes "\"${1:}\", each -> ${2:each}",
  codes "pattern: string, limit?: integer, each: query expression",
)
unfolding generate_positional_snippet snippet_parts signature_parts join
snippet = refl

named_snippet :
    generate_named_args_snippet formats params
    ≡ codes "pattern: \"${1:}\", limit: ${2:0}, each: each -> ${3:each}"
unfolding generate_named_args_snippet named_parts join
named_snippet = refl

variadic_snippet :
    generate_positional_snippet formats (record { definitions = []; variadic = true })
    ≡ (codes "\"${1:value}\"", codes "...params")
unfolding generate_positional_snippet snippet_parts signature_parts join
variadic_snippet = refl

generate-IsSnippet_example :
    (((is_nil (required params.definitions) && params.variadic ≡ true)
        × ((generate_positional_snippet formats params).0 ≡ codes "\"${1:value}\""))
      ⊎ ((is_nil (required params.definitions) && params.variadic ≡ false)
          × IsSnippet
              (positional_part formats)
              (required params.definitions)
              (generate_positional_snippet formats params).0))
    × IsSnippet (named_part formats) params.definitions (generate_named_args_snippet formats params)
generate-IsSnippet_example = generate-IsSnippet formats params

-- The two replacements by regular expressions.
flattens : one_line false (codes "{\n  \"a\": 1\n}") ≡ codes "{ \"a\": 1 }"
unfolding one_line
flattens = refl

dashes : to_kebab_case formats (codes "a & b2_c") ≡ codes "a-b2-c"
unfolding to_kebab_case dashed
dashes = refl

abbrev example : Example
example = record {
  summary = [];
  mapping = codes "root = this";
  results = (codes "1", codes "1") ∷ [];
  skip_testing = false;
}

abbrev function : Text → FunctionData
function status = record {
  name = codes "replace";
  status = status;
  category = codes "Strings";
  description = [];
  params = params;
  examples = example ∷ [];
  version = [];
}

abbrev functions : List (Text × FunctionData)
functions =
    (codes "replace", function (codes "beta"))
    ∷ (codes "old", function (codes "deprecated"))
    ∷ (codes "secret", function (codes "hidden"))
    ∷ []

-- Two items, with the second behind the first in the order of the editor.
labels :
    map {B = Text × Text}
      (λ i. (i.label, i.sort_text))
      (build_completion_cache formats functions []).items
    ≡ (codes "[β] replace", codes "1_replace")
      ∷ (codes "[β] replace (named args)", codes "1_replace_z")
      ∷ []
unfolding build_completion_cache walk_functions walk_methods visit_function build_function_item
    status_prefix status_sort_text
labels = refl

abbrev item : CompletionItem
item = build_function_item formats (function (codes "beta")) (codes "replace") [] [] false

build_completion_cache-Offers_example :
    Memᴰ item (build_completion_cache formats functions []).items
    ↔ (OfFunction formats functions item ⊎ OfMethod formats [] item)
build_completion_cache-Offers_example = build_completion_cache-Offers formats functions [] item

lookup-build_all_docs_example :
    let cache = build_completion_cache formats functions [] in
    let docs = build_all_docs formats (codes "u") cache.fn_docs cache.meth_docs in
    (lookup (codes "replace") docs.0
      ≡ shown
          (λ f. f.status)
          (function_markup formats (codes "u"))
          (lookup (codes "replace") functions))
    × (lookup (codes "replace") docs.1
        ≡ shown (λ f. f.status) (method_markup formats (codes "u")) (lookup (codes "replace") []))
lookup-build_all_docs_example =
    lookup-build_all_docs formats (codes "u") (codes "replace") functions []
      (refl, (refl, (refl, tt))) tt
