-- ===== src/Common/Sorting.antt =====
-- Sorting, for sort.Strings, sort.Slice and sort.SliceStable.
use mathlib.Core.Bool.{Bool, true, false, ◌&&◌, ◌||◌}
use mathlib.Core.List.{List, [], ◌∷◌}
use bloblang_lsp.Common.Basic.{Text, ◌==◌, ltb, if◌then◌else◌}

-- The order of texts, by their code points.
abbrev pub text_ltb : Text → Text → Bool
text_ltb [] [] = false
text_ltb [] (d ∷ t) = true
text_ltb (c ∷ s) [] = false
text_ltb (c ∷ s) (d ∷ t) = ltb c d || (c == d && text_ltb s t)

-- A stable sort by a test for "before".
unfoldable pub insert_sorted {ℓ} : {A : Type ℓ} → (A → A → Bool) → A → List A → List A
insert_sorted before a [] = a ∷ []
insert_sorted before a (b ∷ bs) =
    let rest = insert_sorted before a bs in if before b a then b ∷ rest else a ∷ b ∷ bs

unfoldable pub sort {ℓ} : {A : Type ℓ} → (A → A → Bool) → List A → List A
unfolding insert_sorted
sort before [] = []
sort before (a ∷ rest) = insert_sorted before a (sort before rest)
