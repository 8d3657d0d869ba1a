-- ===== src/Lsp/Layout/Flat.antt =====
-- Line breaks in the texts and flat forms of internal/lsp/layout.go.
use bloblang_lsp.Common.{
  ℕ, zero, suc, ◌+◌, ◌≤◌, Text, Bool, true, false, ◌||◌, Option, none, some, [], ◌∷◌, ◌++◌, ◌≡◌,
  refl, arith, if◌then◌else◌, length, replicate,
}
use bloblang_lsp.Lsp.Layout.{
  Attrs, Layout, node, Parts, nil, cons, has_newline, last_line, one_line, join_texts, flat_layout,
  flat_parts, fitting, Out,
}

pub has_newline-append : (s t : Text) → has_newline (s ++ t) ≡ (has_newline s || has_newline t)
has_newline-append [] t = refl
has_newline-append (c ∷ s) t = ground (arith, has_newline-append s t)

pub last_line-append_break : (s t : Text) → has_newline t ≡ true → last_line (s ++ t) ≡ last_line t
last_line-append_break [] t h = refl
last_line-append_break (c ∷ s) t h =
    ground (arith, has_newline-append s t, last_line-append_break s t h)

pub last_line-append_flat :
    (s t : Text) → has_newline t ≡ false → last_line (s ++ t) ≡ last_line s ++ t
last_line-append_flat [] [] h = refl
last_line-append_flat [] (c ∷ t) h = ground arith
last_line-append_flat (c ∷ s) t h =
    ground (arith, has_newline-append s t, last_line-append_flat s t h)

pub replicate-has_newline : (n : ℕ) → has_newline (replicate n b' ') ≡ false
replicate-has_newline zero = refl
replicate-has_newline (suc n) = ground (arith, replicate-has_newline n)

-- A text that stands on one line, where it is there.
abbrev pub IsOneLine : Option Text → Type 0
IsOneLine none = Unit
IsOneLine (some s) = has_newline s ≡ false

one_line-IsOneLine : (s : Text) → IsOneLine (one_line s)
one_line-IsOneLine s = ground arith

join_texts-IsOneLine : (s t : Option Text) → IsOneLine s → IsOneLine t → IsOneLine (join_texts s t)
join_texts-IsOneLine none t h k = tt
join_texts-IsOneLine (some s) none h k = tt
join_texts-IsOneLine (some s) (some t) h k = ground (arith, has_newline-append s t)

flat-IsOneLine :
    (broken hard line : Bool) (s : Text) (inner : Option Text)
    → IsOneLine inner
    → IsOneLine
        (if broken then some [] else if hard then none else if line then one_line s else inner)
flat-IsOneLine true hard line s inner h = refl
flat-IsOneLine false true line s inner h = tt
flat-IsOneLine false false true s inner h = one_line-IsOneLine s
flat-IsOneLine false false false s inner h = h

leaf-IsOneLine :
    (broken hard : Bool) (s : Text)
    → IsOneLine (if broken then some [] else if hard then none else one_line s)
leaf-IsOneLine true hard s = refl
leaf-IsOneLine false true s = tt
leaf-IsOneLine false false s = one_line-IsOneLine s

mutual
  unfolding flat_layout

  -- A flat form never breaks the line.
  pub flat_layout-IsOneLine : (d : Layout) → IsOneLine (flat_layout d)
  flat_layout-IsOneLine (node a nil) = leaf-IsOneLine a.broken_only a.hard a.text
  flat_layout-IsOneLine (node a (cons p ps)) =
      flat-IsOneLine a.broken_only a.hard a.line a.text (join_texts (flat_layout p) (flat_parts ps))
        (join_texts-IsOneLine (flat_layout p) (flat_parts ps) (flat_layout-IsOneLine p)
          (flat_parts-IsOneLine ps))

  flat_parts-IsOneLine : (ps : Parts) → IsOneLine (flat_parts ps)
  flat_parts-IsOneLine nil = refl
  flat_parts-IsOneLine (cons p ps) =
      join_texts-IsOneLine (flat_layout p) (flat_parts ps) (flat_layout-IsOneLine p)
        (flat_parts-IsOneLine ps)

-- What fits is the flat form, and lies within the width.
pub fitting-lem :
    (width : ℕ) (eol : Text) (a : Attrs) (o : Option Text) (flat : Bool) (following : ℕ) (out : Out)
    (s : Text)
    → fitting width eol a o flat following out ≡ some s
    → (o ≡ some s) × (out.column + length s + following ≤ width) × (a.group ≡ true)
fitting-lem width eol a none flat following out s h = cc
fitting-lem width eol a (some t) flat following out s h = ground arith

pub fitting-IsOneLine :
    (width : ℕ) (eol : Text) (a : Attrs) (o : Option Text) (flat : Bool) (following : ℕ) (out : Out)
    → IsOneLine o
    → IsOneLine (fitting width eol a o flat following out)
fitting-IsOneLine width eol a none flat following out h = tt
fitting-IsOneLine width eol a (some t) flat following out h = ground arith
