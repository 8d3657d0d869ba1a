-- ===== src/Benthos/Completion/Items/Documented.antt =====
-- The hover texts of internal/benthos/docs.go over the maps of `BuildCompletionCache`.
use mathlib.Core.Option.{map}
use bloblang_lsp.Common.{
  ◌⊎◌, Text, Bool, true, false, Option, none, some, List, [], ◌∷◌, ◌≡◌, refl, ap, ◌∙◌, subst,
  if◌then◌else◌, Bool-cases, Distinct, contains, not, ◌||◌, codes, text_eq, text_eq_iff, text_is_eq,
  inl, inr,
}
use bloblang_lsp.Common.Dict.{Dict, lookup, insert, lookup-insert, lookup-absent, keys}
use bloblang_lsp.Benthos.Completion.{FunctionData, MethodData, Formats}
use bloblang_lsp.Benthos.Completion.Documentation.{
  Markup, function_markup, method_markup, function_docs, method_docs, build_all_docs,
}
use bloblang_lsp.Benthos.Completion.Items.{
  CompletionCache, is_surfaced_function, is_surfaced_method, visit_function, visit_method,
  walk_functions, walk_methods, build_completion_cache,
}
use bloblang_lsp.Benthos.Completion.Items.Offers.{is_surfaced_function_lem, is_surfaced_method_lem}

-- A described name's text, unless its status is "hidden" or "deprecated".
abbrev pub shown {ℓ} : {A : Type ℓ} → (A → Text) → (A → Markup) → Option A → Option Markup
shown status markup none = none
shown status markup (some a) =
    if text_eq (status a) (codes "hidden") || text_eq (status a) (codes "deprecated")
    then none
    else some (markup a)

module _ {ℓ} {A : Type ℓ} (keeps : A → Bool) where
  -- The entries that one of the walks keeps, over those that are there.
  abbrev kept : Dict Text A → List (Text × A) → Dict Text A
  kept m [] = m
  kept m ((name, a) ∷ rest) = kept (if keeps a then insert name a m else m) rest

  abbrev kept_or : Option A → Option A → Option A
  kept_or none old = old
  kept_or (some a) old = if keeps a then some a else old

  lookup-kept :
      (name : Text) (m : Dict Text A) (entries : List (Text × A))
      → Distinct (keys entries)
      → lookup name (kept m entries) ≡ kept_or (lookup name entries) (lookup name m)
  unfolding lookup
  lookup-kept name m [] d = refl
  lookup-kept name m ((j, a) ∷ rest) d =
      lookup-kept name (if keeps a then insert j a m else m) rest d.1
      ∙ ap (kept_or (lookup name rest)) (head (keeps a))
      ∙ place (Bool-cases (text_eq j name))
    where
      head :
          (b : Bool)
          → lookup name (if b then insert j a m else m)
            ≡ (if b then (if text_eq j name then some a else lookup name m) else lookup name m)
      head true = lookup-insert j name a m
      head false = refl

      place :
          (text_eq j name ≡ true) ⊎ (text_eq j name ≡ false)
          → kept_or (lookup name rest) (
              if keeps a then (if text_eq j name then some a else lookup name m) else lookup name m)
            ≡ kept_or (if text_eq j name then some a else lookup name rest) (lookup name m)
      place (inl e) =
          let absent : lookup name rest ≡ none =
            lookup-absent name rest
              (subst (λ z. contains (keys rest) z ≡ false) ((text_eq_iff j name).0 e) d.0) in
          rw (e, absent) refl
      place (inr e) = rw e (same (keeps a))
        where
          same :
              (b : Bool)
              → kept_or (lookup name rest) (if b then lookup name m else lookup name m)
                ≡ kept_or (lookup name rest) (lookup name m)
          same true = refl
          same false = refl

  mapped-kept_or :
      (status : A → Text) (markup : A → Markup)
      → ((a : A)
          → keeps a
            ≡ not (text_eq (status a) (codes "hidden") || text_eq (status a) (codes "deprecated")))
      → (o : Option A) → map markup (kept_or o none) ≡ shown status markup o
  mapped-kept_or status markup same none = refl
  mapped-kept_or status markup same (some a) =
      rw (same a)
        (elim (Bool-cases
          (text_eq (status a) (codes "hidden") || text_eq (status a) (codes "deprecated"))) [
            | inl e ↦ rw e refl
            | inr e ↦ rw e refl
          ])

abbrev keeps_function : FunctionData → Bool
keeps_function f = is_surfaced_function f.status

abbrev keeps_method : MethodData → Bool
keeps_method f = is_surfaced_method f.status

module _ (formats : Formats) where
  visit_function-docs :
      (cache : CompletionCache) (name : Text) (f : FunctionData)
      → ((visit_function formats cache name f).fn_docs
          ≡ (if is_surfaced_function f.status then insert name f cache.fn_docs else cache.fn_docs))
        × ((visit_function formats cache name f).meth_docs ≡ cache.meth_docs)
  unfolding visit_function
  visit_function-docs cache name f = elim (Bool-cases (is_surfaced_function f.status)) [
    | inl e ↦ rw e (refl, refl)
    | inr e ↦ rw e (refl, refl)
  ]

  walk_functions-kept :
      (cache : CompletionCache) (functions : List (Text × FunctionData))
      → ((walk_functions formats cache functions).fn_docs
          ≡ kept keeps_function cache.fn_docs functions)
        × ((walk_functions formats cache functions).meth_docs ≡ cache.meth_docs)
  unfolding walk_functions
  walk_functions-kept cache [] = (refl, refl)
  walk_functions-kept cache ((name, f) ∷ rest) =
      let (later, others) = walk_functions-kept (visit_function formats cache name f) rest in
      let (docs, same) = visit_function-docs cache name f in
      (later ∙ ap (λ m. kept keeps_function m rest) docs, others ∙ same)

  visit_method-docs :
      (cache : CompletionCache) (name : Text) (f : MethodData)
      → ((visit_method formats cache name f).meth_docs ≡ (
          if is_surfaced_method f.status then insert name f cache.meth_docs else cache.meth_docs))
        × ((visit_method formats cache name f).fn_docs ≡ cache.fn_docs)
  unfolding visit_method
  visit_method-docs cache name f = elim (Bool-cases (is_surfaced_method f.status)) [
    | inl e ↦ rw e (refl, refl)
    | inr e ↦ rw e (refl, refl)
  ]

  walk_methods-kept :
      (cache : CompletionCache) (methods : List (Text × MethodData))
      → ((walk_methods formats cache methods).meth_docs ≡ kept keeps_method cache.meth_docs methods)
        × ((walk_methods formats cache methods).fn_docs ≡ cache.fn_docs)
  unfolding walk_methods
  walk_methods-kept cache [] = (refl, refl)
  walk_methods-kept cache ((name, f) ∷ rest) =
      let (later, others) = walk_methods-kept (visit_method formats cache name f) rest in
      let (docs, same) = visit_method-docs cache name f in
      (later ∙ ap (λ m. kept keeps_method m rest) docs, others ∙ same)

  lookup-function_docs :
      (url name : Text) (m : Dict Text FunctionData)
      → lookup name (function_docs formats url m)
        ≡ map (function_markup formats url) (lookup name m)
  unfolding lookup function_docs
  lookup-function_docs url name [] = refl
  lookup-function_docs url name ((j, f) ∷ m) = elim (Bool-cases (text_eq j name)) [
    | inl e ↦ rw e refl
    | inr e ↦ rw e (lookup-function_docs url name m)
  ]

  lookup-method_docs :
      (url name : Text) (m : Dict Text MethodData)
      → lookup name (method_docs formats url m) ≡ map (method_markup formats url) (lookup name m)
  unfolding lookup method_docs
  lookup-method_docs url name [] = refl
  lookup-method_docs url name ((j, f) ∷ m) = elim (Bool-cases (text_eq j name)) [
    | inl e ↦ rw e refl
    | inr e ↦ rw e (lookup-method_docs url name m)
  ]

  -- For functions and methods with names of their own, a name has a hover text exactly if it is
  -- described with a status other than "hidden" and "deprecated", and the text is made of its own
  -- description.
  pub lookup-build_all_docs :
      (url name : Text) (functions : List (Text × FunctionData))
      (methods : List (Text × MethodData))
      → Distinct (keys functions)
      → Distinct (keys methods)
      → let cache = build_completion_cache formats functions methods in
        let docs = build_all_docs formats url cache.fn_docs cache.meth_docs in
        (lookup name docs.0
          ≡ shown (λ f. f.status) (function_markup formats url) (lookup name functions))
        × (lookup name docs.1
            ≡ shown (λ f. f.status) (method_markup formats url) (lookup name methods))
  unfolding build_completion_cache build_all_docs lookup
  lookup-build_all_docs url name functions methods d e =
      let start : CompletionCache = record { items = []; fn_docs = []; meth_docs = [] } in
      let walked = walk_functions formats start functions in
      let fn : (walk_methods formats walked methods).fn_docs ≡ kept keeps_function [] functions =
        (walk_methods-kept walked methods).1 ∙ (walk_functions-kept start functions).0 in
      let meth : (walk_methods formats walked methods).meth_docs ≡ kept keeps_method [] methods =
        (walk_methods-kept walked methods).0
        ∙ ap (λ m. kept keeps_method m methods) (walk_functions-kept start functions).1 in
      (
        lookup-function_docs url name (walk_methods formats walked methods).fn_docs
            ∙ ap (λ m. map (function_markup formats url) (lookup name m)) fn
            ∙ ap (map (function_markup formats url))
                (lookup-kept keeps_function name [] functions d)
            ∙ mapped-kept_or keeps_function (λ f. f.status) (function_markup formats url)
                (λ f. is_surfaced_function_lem f.status) (lookup name functions),
        lookup-method_docs url name (walk_methods formats walked methods).meth_docs
            ∙ ap (λ m. map (method_markup formats url) (lookup name m)) meth
            ∙ ap (map (method_markup formats url)) (lookup-kept keeps_method name [] methods e)
            ∙ mapped-kept_or keeps_method (λ f. f.status) (method_markup formats url)
                (λ f. is_surfaced_method_lem f.status) (lookup name methods),
      )
