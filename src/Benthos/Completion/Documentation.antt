-- ===== src/Benthos/Completion/Documentation.antt =====
-- The Markdown of internal/benthos/docs.go.
pub mod Examples
use bloblang_lsp.Common.{
  ℕ, ◌+◌, ◌-◌, Text, Bool, true, false, not, ◌&&◌, ◌||◌, Option, none, some, List, [], ◌∷◌, ◌++◌,
  ltb, leb, ◌==◌, if◌then◌else◌, codes, text_eq, text_is_eq, length, take,
}
use bloblang_lsp.Common.Dict.{Dict}
use bloblang_lsp.Common.Strings.{is_nil, trim_space, replace_from, written}
use bloblang_lsp.Benthos.Completion.{Example, Category, FunctionData, MethodData, Formats}

pub record Markup : Type 0 where
  pub kind : Text
  pub value : Text

-- The regular expression `\n\s*` replaced by a blank; the flag tells that a match goes on.
unfoldable pub one_line : Bool → Text → Text
one_line inside [] = []
one_line inside (c ∷ s) =
    let more = inside && (c == 32 || c == 9 || c == 10 || c == 12 || c == 13) in
    let opens = not more && c == 10 in
    let rest = one_line (more || opens) s in
    if more then rest else if opens then b' ' ∷ rest else c ∷ rest

-- The regular expression `[^a-z0-9]+` replaced by a dash.
unfoldable pub dashed : Bool → Text → Text
dashed inside [] = []
dashed inside (c ∷ s) =
    let word = (leb 97 c && leb c 122) || (leb 48 c && leb c 57) in
    let rest = dashed (not word) s in
    if word then c ∷ rest else if inside then rest else b'-' ∷ rest

module _ (formats : Formats) where
  abbrev pub fenced : Text → Option Text → Text
  fenced value (some pretty) = codes "```json\n" ++ (one_line false pretty ++ codes "\n```\n")
  fenced value none = codes "```txt\n" ++ (value ++ codes "\n```\n")

  unfoldable pub render_code_block : Text → Text
  unfolding trim_space one_line
  render_code_block value =
      let trimmed = trim_space value in fenced trimmed (formats.pretty_json trimmed)

  unfoldable pub to_kebab_case : Text → Text
  unfolding dashed
  to_kebab_case s = dashed false (formats.to_lower s)

  -- The results of an example from an index, of so many results.
  unfoldable pub results_text : ℕ → ℕ → List (Text × Text) → Text
  unfolding render_code_block
  results_text count j [] = []
  results_text count j ((input, output) ∷ rs) =
      let suffix = if ltb 1 count then codes " – #" ++ formats.decimal (j + 1) else [] in
      written (
        codes "**Input"
        ∷ suffix
        ∷ codes "**\n\n"
        ∷ render_code_block input
        ∷ codes "\n"
        ∷ codes "**Output"
        ∷ suffix
        ∷ codes "**\n\n"
        ∷ render_code_block output
        ∷ codes "\n"
        ∷ [])
      ++ results_text count (j + 1) rs

  -- One example, without the separator.
  unfoldable pub example_text : Example → Text
  unfolding replace_from trim_space results_text
  example_text ex = written (
      (if is_nil ex.summary
        then []
        else replace_from (codes "#####") (codes "###") 0 (ex.summary ++ codes "\n\n"))
      ∷ codes "**Mapping**\n\n"
      ∷ codes "```bloblang\n"
      ∷ trim_space ex.mapping
      ∷ codes "\n```\n\n"
      ∷ (if not (is_nil ex.results) && not ex.skip_testing
          then results_text (length ex.results) 0 ex.results ++ codes "\n"
          else [])
      ∷ (if ex.skip_testing
          then codes "> ⚠ This example is not tested in CI — results may vary.\n\n"
          else [])
      ∷ [])

  -- The loop over the shown examples from an index, of so many.
  unfoldable pub examples_text : ℕ → ℕ → List Example → Text
  unfolding example_text
  examples_text count i [] = []
  examples_text count i (ex ∷ exs) =
      example_text ex
      ++ ((if ltb i (count - 1) then codes "---\n\n" else []) ++ examples_text count (i + 1) exs)

  unfoldable pub examples_section : List Example → Text
  unfolding examples_text
  examples_section examples =
      let max_examples = length examples in
      let over = ltb max_examples (length examples) in
      let shown = if over then take max_examples examples else examples in
      let truncated = if over then length examples - max_examples else 0 in
      if is_nil examples
      then []
      else written (
          codes "**Examples**\n\n"
          ∷ examples_text (length shown) 0 shown
          ∷ (if ltb 0 truncated
              then codes "_…and " ++ (formats.decimal truncated ++ codes " more examples_\n\n")
              else [])
          ∷ [])

  module _ (docs_url : Text) where
    unfoldable pub categories_text : List Category → Text
    unfolding to_kebab_case
    categories_text [] = []
    categories_text (c ∷ cs) =
        written (
          codes "["
          ∷ c.category
          ∷ codes "]("
          ∷ docs_url
          ∷ codes "/methods/#"
          ∷ to_kebab_case c.category
          ∷ codes ")\n\n"
          ∷ (if is_nil c.description then [] else c.description ++ codes "\n\n")
          ∷ [])
        ++ categories_text cs

    -- The status badge.
    abbrev pub badge : Text → Text
    badge status =
        if text_eq status (codes "beta")
        then codes "> **[β Beta]** This component is in beta and its behaviour may change.\n\n"
        else if text_eq status (codes "experimental")
        then codes
            "> **[⚗ Experimental]** This component is experimental and may be removed or changed.\n\n"
        else if text_eq status (codes "deprecated")
        then codes "> **[⚠ Deprecated]** Avoid using this in new mappings.\n\n"
        else []

    unfoldable pub build_documentation :
        (name kind description : Text)
        → List Example
        → List Category
        → (version status : Text) → Markup
    unfolding examples_section categories_text trim_space
    build_documentation name kind description examples categories version status = record {
      kind = codes "markdown";
      value = trim_space (
          written (
            codes "**["
            ∷ name
            ∷ codes "]("
            ∷ docs_url
            ∷ codes "/"
            ∷ kind
            ∷ codes "/#"
            ∷ name
            ∷ codes ")** · "
            ∷ kind
            ∷ codes "\n\n"
            ∷ badge status
            ∷ (if is_nil description then [] else description ++ codes "\n\n")
            ∷ examples_section examples
            ∷ (if is_nil categories
                then []
                else codes "**Categories**\n" ++ categories_text categories)
            ∷ (if is_nil version
                then []
                else codes "---\n"
                  ++ (codes "_Introduced in Benthos **" ++ (version ++ codes "**_\n")))
            ∷ []));
    }

    unfoldable pub function_markup : FunctionData → Markup
    unfolding build_documentation
    function_markup template =
        build_documentation template.name (codes "functions") template.description template.examples
          [] template.version template.status

    unfoldable pub method_markup : MethodData → Markup
    unfolding build_documentation
    method_markup template =
        build_documentation template.name (codes "methods") template.description template.examples
          template.categories template.version template.status

    -- The two loops of `BuildAllDocs`, over the entries of a map.
    unfoldable pub function_docs : Dict Text FunctionData → Dict Text Markup
    unfolding function_markup
    function_docs [] = []
    function_docs ((name, template) ∷ m) = (name, function_markup template) ∷ function_docs m

    unfoldable pub method_docs : Dict Text MethodData → Dict Text Markup
    unfolding method_markup
    method_docs [] = []
    method_docs ((name, template) ∷ m) = (name, method_markup template) ∷ method_docs m

    unfoldable pub build_all_docs :
        Dict Text FunctionData → Dict Text MethodData → Dict Text Markup × Dict Text Markup
    unfolding function_docs method_docs
    build_all_docs functions methods = (function_docs functions, method_docs methods)
