-- ===== src/Benthos/Completion/Documentation/Examples.antt =====
-- The examples in the Markdown of internal/benthos/docs.go.
use bloblang_lsp.Common.{
  ℕ, ◌+◌, ◌-◌, true, false, List, [], ◌∷◌, ◌++◌, ◌≡◌, refl, ap, ◌∙◌, arith, ltb, if◌then◌else◌,
  codes, length, map, append-nil,
}
use bloblang_lsp.Common.Strings.{is_nil, join}
use bloblang_lsp.Benthos.Completion.{Example, Formats}
use bloblang_lsp.Benthos.Completion.Documentation.{example_text, examples_text, examples_section}

not_below : (n : ℕ) → ltb n n ≡ false
not_below n = ground arith

module _ (formats : Formats) where
  examples_text-join :
      (count i : ℕ) (exs : List Example)
      → i + length exs ≡ count
      → examples_text formats count i exs ≡ join (codes "---\n\n") (map (example_text formats) exs)
  unfolding examples_text join
  examples_text-join count i [] h = refl
  examples_text-join count i (ex ∷ []) h =
      let last : ltb i (count - 1) ≡ false = ground (arith, h) in
      rw last (append-nil (example_text formats ex))
  examples_text-join count i (ex ∷ next ∷ exs) h =
      let more : ltb i (count - 1) ≡ true = ground (arith, h) in
      rw more (
        ap (λ t. example_text formats ex ++ (codes "---\n\n" ++ t))
          (examples_text-join count (i + 1) (next ∷ exs) (omega (arith, h))))

  -- A documentation shows all the examples there are, in their order, with a rule between any two
  -- of them and no note of left out ones.
  examples_section-join :
      (examples : List Example)
      → examples_section formats examples ≡ (
          if is_nil examples
          then []
          else codes "**Examples**\n\n"
            ++ join (codes "---\n\n") (map (example_text formats) examples))
  unfolding examples_section
  examples_section-join [] = refl
  examples_section-join (ex ∷ exs) = rw (not_below (length (ex ∷ exs))) (
      ap (λ t. codes "**Examples**\n\n" ++ t)
        (append-nil (examples_text formats (length (ex ∷ exs)) 0 (ex ∷ exs))
          ∙ examples_text-join (length (ex ∷ exs)) 0 (ex ∷ exs) (omega arith)))
