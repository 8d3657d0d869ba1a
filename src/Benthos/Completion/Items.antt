-- ===== src/Benthos/Completion/Items.antt =====
-- The items of the completion cache in internal/benthos/cache.go, which `BuildCompletionCache`
-- makes of the functions and methods in the order in which the runtime gives them.
pub mod Optional
pub mod Offers
pub mod Documented
use bloblang_lsp.Common.{
  ℕ, Text, Bool, true, false, not, ◌&&◌, ◌||◌, List, [], ◌∷◌, ◌++◌, if◌then◌else◌, codes, text_eq,
  text_is_eq,
}
use bloblang_lsp.Common.Dict.{Dict, insert}
use bloblang_lsp.Common.Strings.{is_nil}
use bloblang_lsp.Benthos.Completion.{
  FunctionData, MethodData, Params, Category, Formats, status_prefix, status_sort_text,
  has_optional_params, generate_positional_snippet, generate_named_args_snippet,
}
use bloblang_lsp.Benthos.Completion.Documentation.{Markup, function_markup, method_markup}

abbrev include_deprecated : Bool
include_deprecated = false

abbrev default_docs_url : Text
default_docs_url = codes "https://docs.redpanda.com/redpanda-connect/guides/bloblang"

pub data ItemKind : Type 0 where
  function_item method_item : ItemKind

pub record CompletionItem : Type 0 where
  pub label : Text
  pub kind : ItemKind
  pub detail : Text
  pub documentation : Markup
  pub insert_text : Text
  pub insert_text_format : ℕ
  pub sort_text : Text
  pub tags : List ℕ

-- The text that is inserted, the text to sort by and the tags, which the two builders share.
abbrev call_text : Text → Text → Text
call_text name arguments = name ++ (codes "(" ++ (arguments ++ codes ")"))

abbrev inserted : Text → Text → Text
inserted name snippet = if not (is_nil snippet) then call_text name snippet else name ++ codes "()"

abbrev sorted_by : Text → Text → Bool → Text
sorted_by status name named_args =
    let text = status_sort_text status name in if named_args then text ++ codes "_z" else text

abbrev labelled : Text → Text → Bool → Text
labelled status name named_args =
    let label = status_prefix status ++ name in
    if named_args then label ++ codes " (named args)" else label

abbrev pub tags_of : Text → List ℕ
tags_of status = if text_eq status (codes "deprecated") then 1 ∷ [] else []

abbrev primary_category : List Category → Text
primary_category [] = []
primary_category (c ∷ cs) = c.category

pub record CompletionCache : Type 0 where
  pub items : List CompletionItem
  pub fn_docs : Dict Text FunctionData
  pub meth_docs : Dict Text MethodData

-- The switch on a function's status, whose callback returns early for the others.
abbrev pub is_surfaced_function : Text → Bool
is_surfaced_function status =
    if text_eq status (codes "hidden")
    then false
    else if text_eq status (codes "deprecated")
    then include_deprecated
    else true

-- The switch on a method's status.
abbrev pub is_surfaced_method : Text → Bool
is_surfaced_method status =
    if text_eq status (codes "hidden")
    then false
    else if text_eq status (codes "deprecated")
    then include_deprecated
    else true

module _ (formats : Formats) where
  unfoldable pub build_function_item : FunctionData → Text → Text → Text → Bool → CompletionItem
  unfolding status_prefix status_sort_text
  build_function_item template name snippet signature named_args = record {
    label = labelled template.status name named_args;
    kind = function_item;
    detail =
        call_text name signature
        ++ (if not (is_nil template.category)
            then codes " — Function (" ++ (template.category ++ codes ")")
            else []);
    documentation = function_markup formats default_docs_url template;
    insert_text = inserted name snippet;
    insert_text_format = 2;
    sort_text = sorted_by template.status name named_args;
    tags = tags_of template.status;
  }

  unfoldable pub build_method_item : MethodData → Text → Text → Text → Bool → CompletionItem
  unfolding status_prefix status_sort_text
  build_method_item template name snippet signature named_args =
      let primary_cat = primary_category template.categories in
      record {
        label = labelled template.status name named_args;
        kind = method_item;
        detail =
            codes "."
            ++ (call_text name signature
                ++ (codes " — Method"
                    ++ (if not (is_nil primary_cat) then codes " · " ++ primary_cat else [])));
        documentation = method_markup formats default_docs_url template;
        insert_text = inserted name snippet;
        insert_text_format = 2;
        sort_text = sorted_by template.status name named_args;
        tags = tags_of template.status;
      }

  abbrev pub function_variants : Text → FunctionData → Text × Text → List CompletionItem
  function_variants name template (snippet, signature) =
      build_function_item template name snippet signature false
      ∷ (if has_optional_params template.params
          then build_function_item template name
              (generate_named_args_snippet formats template.params) signature true
            ∷ []
          else [])

  abbrev pub method_variants : Text → MethodData → Text × Text → List CompletionItem
  method_variants name template (snippet, signature) =
      build_method_item template name snippet signature false
      ∷ (if has_optional_params template.params
          then build_method_item template name (generate_named_args_snippet formats template.params)
              signature true
            ∷ []
          else [])

  -- The two callbacks.
  unfoldable pub visit_function : CompletionCache → Text → FunctionData → CompletionCache
  visit_function cache name template =
      if is_surfaced_function template.status
      then record cache {
        items =
            cache.items
            ++ function_variants name template
                (generate_positional_snippet formats template.params);
        fn_docs = insert name template cache.fn_docs;
      }
      else cache

  unfoldable pub visit_method : CompletionCache → Text → MethodData → CompletionCache
  visit_method cache name template =
      if is_surfaced_method template.status
      then record cache {
        items =
            cache.items
            ++ method_variants name template (generate_positional_snippet formats template.params);
        meth_docs = insert name template cache.meth_docs;
      }
      else cache

  unfoldable pub walk_functions : CompletionCache → List (Text × FunctionData) → CompletionCache
  unfolding visit_function
  walk_functions cache [] = cache
  walk_functions cache ((name, template) ∷ rest) =
      walk_functions (visit_function cache name template) rest

  unfoldable pub walk_methods : CompletionCache → List (Text × MethodData) → CompletionCache
  unfolding visit_method
  walk_methods cache [] = cache
  walk_methods cache ((name, template) ∷ rest) =
      walk_methods (visit_method cache name template) rest

  unfoldable pub build_completion_cache :
      List (Text × FunctionData) → List (Text × MethodData) → CompletionCache
  unfolding walk_functions walk_methods
  build_completion_cache functions methods =
      walk_methods (walk_functions (record { items = []; fn_docs = []; meth_docs = [] }) functions)
        methods
