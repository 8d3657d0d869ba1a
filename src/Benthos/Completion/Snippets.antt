-- ===== src/Benthos/Completion/Snippets.antt =====
-- The tab stops of the snippets of internal/benthos/cache.go.
use mathlib.Core.Option.{map}
use bloblang_lsp.Common.{
  ℕ, zero, suc, ◌+◌, Text, Bool, true, false, ◌&&◌, some, List, [], ◌∷◌, ◌++◌, ◌≡◌, ◌⊎◌, inl, inr,
  refl, ap, ◌∙◌, arith, if◌then◌else◌, Bool-cases, codes, get_elem?,
}
use bloblang_lsp.Common.Strings.{is_nil, join}
use bloblang_lsp.Benthos.Completion.{
  Param, Params, Formats, is_optional_param, positional_part, snippet_parts,
  generate_positional_snippet, named_part, named_parts, generate_named_args_snippet,
}

abbrev pub required : List Param → List Param
required [] = []
required (p ∷ ps) = if is_optional_param p then required ps else p ∷ required ps

-- One part for each parameter, in order, made with the numbers from `n` on.
abbrev pub IsNumbered : (ℕ → Param → Text) → ℕ → List Param → List Text → Type 0
IsNumbered part n ps parts = (k : ℕ) → get_elem? parts k ≡ map (part (n + k)) (get_elem? ps k)

-- A snippet that joins such parts by commas.
abbrev pub IsSnippet : (ℕ → Param → Text) → List Param → Text → Type 0
IsSnippet part ps snippet =
    (parts : List Text) × (snippet ≡ join (codes ", ") parts) × IsNumbered part 1 ps parts

IsNumbered-cons :
    (part : ℕ → Param → Text) (n : ℕ) (p : Param) (ps : List Param) (parts : List Text)
    → IsNumbered part (n + 1) ps parts
    → IsNumbered part n (p ∷ ps) (part n p ∷ parts)
IsNumbered-cons part n p ps parts at zero = ap (λ k. some (part k p)) (omega arith)
IsNumbered-cons part n p ps parts at (suc k) =
    at k ∙ ap (λ i. map (part i) (get_elem? ps k)) (omega arith)

module _ (formats : Formats) where
  snippet_parts-IsNumbered :
      (n : ℕ) (ps : List Param)
      → IsNumbered (positional_part formats) n (required ps) (snippet_parts formats n ps)
  unfolding snippet_parts
  snippet_parts-IsNumbered n [] = λ k. refl
  snippet_parts-IsNumbered n (p ∷ ps) = elim (Bool-cases (is_optional_param p)) [
    | inl e ↦ rw e (snippet_parts-IsNumbered n ps)
    | inr e ↦ rw e (
        IsNumbered-cons (positional_part formats) n p (required ps)
          (snippet_parts formats (n + 1) ps) (snippet_parts-IsNumbered (n + 1) ps))
  ]

  named_parts-IsNumbered :
      (i : ℕ) (ps : List Param)
      → IsNumbered (named_part formats) (i + 1) ps (named_parts formats i ps)
  unfolding named_parts
  named_parts-IsNumbered i [] = λ k. refl
  named_parts-IsNumbered i (p ∷ ps) =
      IsNumbered-cons (named_part formats) (i + 1) p ps (named_parts formats (i + 1) ps)
        (named_parts-IsNumbered (i + 1) ps)

  -- Whether there are parts, and whether there are required parameters.
  no_parts : (n : ℕ) (ps : List Param) → is_nil (snippet_parts formats n ps) ≡ is_nil (required ps)
  unfolding snippet_parts
  no_parts n [] = refl
  no_parts n (p ∷ ps) = elim (Bool-cases (is_optional_param p)) [
    | inl e ↦ rw e (no_parts n ps)
    | inr e ↦ rw e refl
  ]

  nothing : {A : Type 0} (xs : List A) → is_nil xs ≡ true → xs ≡ []
  nothing [] h = refl
  nothing (x ∷ xs) h = cc

  -- The snippet of a call has one part for each required parameter, in their order and with the tab
  -- stops 1, 2 and so on; only where there is none and the call is variadic, it is one
  -- placeholder. The snippet with named arguments has one part for every parameter, numbered in the
  -- same way.
  pub generate-IsSnippet :
      (params : Params)
      → (((is_nil (required params.definitions) && params.variadic ≡ true)
            × ((generate_positional_snippet formats params).0 ≡ codes "\"${1:value}\""))
          ⊎ ((is_nil (required params.definitions) && params.variadic ≡ false)
              × IsSnippet
                  (positional_part formats)
                  (required params.definitions)
                  (generate_positional_snippet formats params).0))
        × IsSnippet
            (named_part formats)
            params.definitions
            (generate_named_args_snippet formats params)
  unfolding generate_positional_snippet generate_named_args_snippet join
  generate-IsSnippet params = (
    elim (Bool-cases (is_nil (required params.definitions) && params.variadic)) [
      | inl e ↦ inl (e, placeholder e)
      | inr e ↦ inr (
        e,
        (
          snippet_parts formats 1 params.definitions,
          rw (no_parts 1 params.definitions, e) refl,
          snippet_parts-IsNumbered 1 params.definitions,
        ),
      )
    ],
    (named_parts formats 0 params.definitions, refl, named_parts-IsNumbered 0 params.definitions),
  )
    where
      placeholder :
          is_nil (required params.definitions) && params.variadic ≡ true
          → join (codes ", ") (
              if is_nil (snippet_parts formats 1 params.definitions) && params.variadic
              then snippet_parts formats 1 params.definitions ++ codes "\"${1:value}\"" ∷ []
              else snippet_parts formats 1 params.definitions)
            ≡ codes "\"${1:value}\""
      placeholder e =
          let no_part : snippet_parts formats 1 params.definitions ≡ [] =
            nothing (snippet_parts formats 1 params.definitions)
              (no_parts 1 params.definitions ∙ first _ _ e) in
          rw (no_parts 1 params.definitions, e, no_part) refl
        where
          first : (a b : Bool) → (a && b) ≡ true → a ≡ true
          first true b h = refl
          first false b h = cc
