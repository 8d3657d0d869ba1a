-- ===== src/Lsp/Formatting/Equivalence.antt =====
-- `equivalentFormatTokens` of internal/lsp/formatting.go against what it is to mean.
use bloblang_lsp.Common.{
  true, List, [], ◌∷◌, ◌≡◌, ◌≢◌, ◌↔◌, refl, arith, codes, text_eq, text_eq_iff, All, Bool-cases,
  inl, inr,
}
use bloblang_lsp.Lsp.Formatting.{FormatToken, equivalent_format_tokens}

-- The second list is the first without some trailing commas, each left out directly before the
-- closing delimiter of a one-line collection. Texts are kept, in order.
pub data DropsCommas : List FormatToken → List FormatToken → Type 0 where
  done : DropsCommas [] []
  same :
      {t a : FormatToken} {before after : List FormatToken}
      → t.text ≡ a.text
      → DropsCommas before after
      → DropsCommas (t ∷ before) (a ∷ after)
  comma :
      {t a : FormatToken} {before after : List FormatToken}
      → t.trailing_comma ≡ true
      → a.inline_close ≡ true
      → DropsCommas before (a ∷ after)
      → DropsCommas (t ∷ before) (a ∷ after)

sound :
    (before after : List FormatToken)
    → equivalent_format_tokens before after ≡ true
    → DropsCommas before after
unfolding equivalent_format_tokens
sound [] [] h = done
sound [] (a ∷ after) h = cc
sound (t ∷ before) [] h = cc
sound (t ∷ before) (a ∷ after) h = elim (Bool-cases (text_eq t.text a.text)) [
  | inl e ↦ same ((text_eq_iff t.text a.text).0 e) (sound before after (ground arith))
  | inr e ↦ comma (ground arith) (ground arith) (sound before (a ∷ after) (ground arith))
]

-- A trailing comma is spelled ",".
abbrev pub CommaSpelled : FormatToken → Type 0
CommaSpelled t = t.trailing_comma ≡ true → t.text ≡ codes ","

-- A closing delimiter is not.
abbrev pub CloseSpelled : FormatToken → Type 0
CloseSpelled t = t.inline_close ≡ true → t.text ≢ codes ","

complete :
    {before after : List FormatToken}
    → DropsCommas before after
    → All CommaSpelled before
    → All CloseSpelled after
    → equivalent_format_tokens before after ≡ true
unfolding equivalent_format_tokens
complete done h k = refl
complete (same {t} {a} {before} {after} e d) h k =
    ground (arith, text_eq_iff t.text a.text, complete d h.1 k.1)
complete (comma {t} {a} {before} {after} c i d) h k =
    ground (arith, text_eq_iff t.text a.text, h.0 c, k.0 i, complete d h.1 k)

-- On tokens whose trailing commas are commas and whose closing delimiters are not, the one-pass
-- check accepts exactly the results in which nothing but trailing commas before one-line closing
-- delimiters disappeared.
pub equivalent_format_tokens_iff :
    (before after : List FormatToken)
    → All CommaSpelled before
    → All CloseSpelled after
    → (equivalent_format_tokens before after ≡ true) ↔ DropsCommas before after
equivalent_format_tokens_iff before after h k = (sound before after, λ d. complete d h k)
