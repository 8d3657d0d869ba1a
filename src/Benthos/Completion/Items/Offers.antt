-- ===== src/Benthos/Completion/Items/Offers.antt =====
-- What `BuildCompletionCache` of internal/benthos/cache.go offers.
use mathlib.Core.List.{flat_map}
use bloblang_lsp.Common.{
  Text, Bool, true, false, not, ◌||◌, List, [], ◌∷◌, ◌++◌, ◌≡◌, ◌≢◌, ◌↔◌, ◌⊎◌, inl, inr, refl, sym,
  ap, ◌∙◌, arith, if◌then◌else◌, Bool-cases, codes, text_eq, text_eq_iff, text_is_eq, append_assoc,
  append-nil,
}
use bloblang_lsp.Common.Members.{Memᴰ, Memᴰ-append, Memᴰ-flat_map, Memᴰ-if}
use bloblang_lsp.Benthos.Completion.{
  FunctionData, MethodData, Formats, generate_positional_snippet, generate_named_args_snippet,
}
use bloblang_lsp.Benthos.Completion.Items.{
  CompletionItem, CompletionCache, build_function_item, build_method_item, is_surfaced_function,
  is_surfaced_method, function_variants, method_variants, visit_function, visit_method,
  walk_functions, walk_methods, build_completion_cache,
}
use bloblang_lsp.Benthos.Completion.Items.Optional.{HasOptional, one_or_two}

-- A status that is shown.
abbrev pub Surfaced : Text → Type 0
Surfaced status = (status ≢ codes "hidden") × (status ≢ codes "deprecated")

-- The test that the two switches make.
abbrev pub is_public : Text → Bool
is_public status = not (text_eq status (codes "hidden") || text_eq status (codes "deprecated"))

is_public_iff : (status : Text) → (is_public status ≡ true) ↔ Surfaced status
is_public_iff status = (
  λ h. (
    λ e. ground (arith, h, (text_eq_iff status (codes "hidden")).1 e),
    λ e. ground (arith, h, (text_eq_iff status (codes "deprecated")).1 e),
  ),
  λ (a, b). elim (Bool-cases (text_eq status (codes "hidden"))) [
    | inl e ↦ absurd (a ((text_eq_iff status (codes "hidden")).0 e))
    | inr e ↦ elim (Bool-cases (text_eq status (codes "deprecated"))) [
      | inl d ↦ absurd (b ((text_eq_iff status (codes "deprecated")).0 d))
      | inr d ↦ rw (e, d) refl
    ]
  ],
)

pub is_surfaced_function_lem : (status : Text) → is_surfaced_function status ≡ is_public status
is_surfaced_function_lem status = ground arith

pub is_surfaced_method_lem : (status : Text) → is_surfaced_method status ≡ is_public status
is_surfaced_method_lem status = ground arith

is_surfaced_function_iff : (status : Text) → (is_surfaced_function status ≡ true) ↔ Surfaced status
is_surfaced_function_iff status = rw (is_surfaced_function_lem status) (is_public_iff status)

is_surfaced_method_iff : (status : Text) → (is_surfaced_method status ≡ true) ↔ Surfaced status
is_surfaced_method_iff status = rw (is_surfaced_method_lem status) (is_public_iff status)

module _ (formats : Formats) where
  -- A function's item with its snippet, and the one with named arguments if a parameter is optional.
  abbrev pub FunctionVariant : Text → FunctionData → CompletionItem → Type 0
  FunctionVariant name function item =
      let (snippet, signature) = generate_positional_snippet formats function.params in
      (item ≡ build_function_item formats function name snippet signature false)
      ⊎ (HasOptional function.params.definitions
          × (item
              ≡ build_function_item formats function name
                  (generate_named_args_snippet formats function.params) signature true))

  abbrev pub MethodVariant : Text → MethodData → CompletionItem → Type 0
  MethodVariant name method item =
      let (snippet, signature) = generate_positional_snippet formats method.params in
      (item ≡ build_method_item formats method name snippet signature false)
      ⊎ (HasOptional method.params.definitions
          × (item
              ≡ build_method_item formats method name
                  (generate_named_args_snippet formats method.params) signature true))

  abbrev pub OfFunction : List (Text × FunctionData) → CompletionItem → Type 0
  OfFunction functions item =
      (name : Text) × (function : FunctionData) × Memᴰ (name, function) functions
      × Surfaced function.status
      × FunctionVariant name function item

  abbrev pub OfMethod : List (Text × MethodData) → CompletionItem → Type 0
  OfMethod methods item =
      (name : Text) × (method : MethodData) × Memᴰ (name, method) methods
      × Surfaced method.status
      × MethodVariant name method item

  -- What one callback adds.
  abbrev function_items : Text × FunctionData → List CompletionItem
  function_items (name, function) =
      if is_surfaced_function function.status
      then function_variants formats name function
          (generate_positional_snippet formats function.params)
      else []

  abbrev method_items : Text × MethodData → List CompletionItem
  method_items (name, method) =
      if is_surfaced_method method.status
      then method_variants formats name method (generate_positional_snippet formats method.params)
      else []

  visit_function-items :
      (cache : CompletionCache) (name : Text) (function : FunctionData)
      → (visit_function formats cache name function).items
        ≡ cache.items ++ function_items (name, function)
  unfolding visit_function
  visit_function-items cache name function =
      elim (Bool-cases (is_surfaced_function function.status)) [
        | inl e ↦ rw e refl
        | inr e ↦ rw (e, append-nil cache.items) refl
      ]

  visit_method-items :
      (cache : CompletionCache) (name : Text) (method : MethodData)
      → (visit_method formats cache name method).items ≡ cache.items ++ method_items (name, method)
  unfolding visit_method
  visit_method-items cache name method = elim (Bool-cases (is_surfaced_method method.status)) [
    | inl e ↦ rw e refl
    | inr e ↦ rw (e, append-nil cache.items) refl
  ]

  walk_functions-items :
      (cache : CompletionCache) (functions : List (Text × FunctionData))
      → (walk_functions formats cache functions).items
        ≡ cache.items ++ flat_map function_items functions
  unfolding walk_functions flat_map
  walk_functions-items cache [] = sym (append-nil cache.items)
  walk_functions-items cache ((name, function) ∷ rest) =
      walk_functions-items (visit_function formats cache name function) rest
      ∙ ap (λ xs. xs ++ flat_map function_items rest) (visit_function-items cache name function)
      ∙ append_assoc cache.items (function_items (name, function)) (flat_map function_items rest)

  walk_methods-items :
      (cache : CompletionCache) (methods : List (Text × MethodData))
      → (walk_methods formats cache methods).items ≡ cache.items ++ flat_map method_items methods
  unfolding walk_methods flat_map
  walk_methods-items cache [] = sym (append-nil cache.items)
  walk_methods-items cache ((name, method) ∷ rest) =
      walk_methods-items (visit_method formats cache name method) rest
      ∙ ap (λ xs. xs ++ flat_map method_items rest) (visit_method-items cache name method)
      ∙ append_assoc cache.items (method_items (name, method)) (flat_map method_items rest)

  -- The items in their order: each function's, and then each method's.
  build_completion_cache-items :
      (functions : List (Text × FunctionData)) (methods : List (Text × MethodData))
      → (build_completion_cache formats functions methods).items
        ≡ flat_map function_items functions ++ flat_map method_items methods
  unfolding build_completion_cache
  build_completion_cache-items functions methods =
      walk_methods-items
        (walk_functions formats (record { items = []; fn_docs = []; meth_docs = [] }) functions)
        methods
      ∙ ap (λ xs. xs ++ flat_map method_items methods)
          (walk_functions-items (record { items = []; fn_docs = []; meth_docs = [] }) functions)

  offered_function :
      (functions : List (Text × FunctionData)) (item : CompletionItem)
      → Memᴰ item (flat_map function_items functions) ↔ OfFunction functions item
  offered_function functions item = (to, back)
    where
      to : Memᴰ item (flat_map function_items functions) → OfFunction functions item
      to m =
          let ((name, function), at, inside) = (Memᴰ-flat_map function_items item functions).0 m in
          let (shown, variant) = (Memᴰ-if item (is_surfaced_function function.status) _).0 inside in
          (
            name,
            function,
            at,
            (is_surfaced_function_iff function.status).0 shown,
            (one_or_two item _ _ function.params).0 variant,
          )

      back : OfFunction functions item → Memᴰ item (flat_map function_items functions)
      back (name, function, at, shown, variant) = (Memᴰ-flat_map function_items item functions).1 (
        (name, function),
        at,
        (Memᴰ-if item (is_surfaced_function function.status) _).1 (
          (is_surfaced_function_iff function.status).1 shown,
          (one_or_two item _ _ function.params).1 variant,
        ),
      )

  offered_method :
      (methods : List (Text × MethodData)) (item : CompletionItem)
      → Memᴰ item (flat_map method_items methods) ↔ OfMethod methods item
  offered_method methods item = (to, back)
    where
      to : Memᴰ item (flat_map method_items methods) → OfMethod methods item
      to m =
          let ((name, method), at, inside) = (Memᴰ-flat_map method_items item methods).0 m in
          let (shown, variant) = (Memᴰ-if item (is_surfaced_method method.status) _).0 inside in
          (
            name,
            method,
            at,
            (is_surfaced_method_iff method.status).0 shown,
            (one_or_two item _ _ method.params).0 variant,
          )

      back : OfMethod methods item → Memᴰ item (flat_map method_items methods)
      back (name, method, at, shown, variant) = (Memᴰ-flat_map method_items item methods).1 (
        (name, method),
        at,
        (Memᴰ-if item (is_surfaced_method method.status) _).1 (
          (is_surfaced_method_iff method.status).1 shown,
          (one_or_two item _ _ method.params).1 variant,
        ),
      )

-- An item is offered exactly when it is the item with the positional snippet, or the one with named
-- arguments if a parameter is optional or has a default, of a function or a method that is neither hidden nor
-- deprecated.
pub build_completion_cache-Offers :
    (formats : Formats) (functions : List (Text × FunctionData))
    (methods : List (Text × MethodData)) (item : CompletionItem)
    → Memᴰ item (build_completion_cache formats functions methods).items
      ↔ (OfFunction formats functions item ⊎ OfMethod formats methods item)
build_completion_cache-Offers formats functions methods item =
    rw (build_completion_cache-items formats functions methods) (
      both (
        Memᴰ-append item (flat_map (function_items formats) functions)
          (flat_map (method_items formats) methods)))
  where
    both :
        Memᴰ item
            (flat_map (function_items formats) functions ++ flat_map (method_items formats) methods)
          ↔ (Memᴰ item (flat_map (function_items formats) functions)
              ⊎ Memᴰ item (flat_map (method_items formats) methods))
        → Memᴰ item
            (flat_map (function_items formats) functions ++ flat_map (method_items formats) methods)
          ↔ (OfFunction formats functions item ⊎ OfMethod formats methods item)
    both (to, back) = (
      λ m. elim (to m) [
        | inl f ↦ inl ((offered_function formats functions item).0 f)
        | inr f ↦ inr ((offered_method formats methods item).0 f)
      ],
      λ o. elim o [
        | inl f ↦ back (inl ((offered_function formats functions item).1 f))
        | inr f ↦ back (inr ((offered_method formats methods item).1 f))
      ],
    )
