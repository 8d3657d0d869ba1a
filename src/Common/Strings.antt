-- ===== src/Common/Strings.antt =====
-- The operations of Go's `strings` package that the program uses, over lists of codes.
use Prim.Native.Nat.{ℕ, zero, suc, ◌-◌}
use mathlib.Core.Bool.{Bool, true, false, ◌&&◌, ◌||◌}
use mathlib.Core.List.{List, [], ◌∷◌, ◌++◌}
use bloblang_lsp.Common.Basic.{Text, ◌==◌, leb, if◌then◌else◌}
use bloblang_lsp.Common.Tests.{text_eq}
use bloblang_lsp.Common.Lists.{length}

-- strings.HasPrefix(s, p), with the prefix first
abbrev pub has_prefix : Text → Text → Bool
has_prefix [] s = true
has_prefix (c ∷ p) [] = false
has_prefix (c ∷ p) (d ∷ s) = c == d && has_prefix p s

-- strings.SplitN(s, sep, 2)[0], for a separator that is not empty
unfoldable pub before : Text → Text → Text
before sep [] = []
before sep (c ∷ s) = let rest = before sep s in if has_prefix sep (c ∷ s) then [] else c ∷ rest

-- strings.Contains(s, p), with the part first
unfoldable pub has_part : Text → Text → Bool
has_part p [] = has_prefix p []
has_part p (c ∷ s) = has_prefix p (c ∷ s) || has_part p s

-- strings.HasSuffix(s, p), with the suffix first
unfoldable pub has_suffix : Text → Text → Bool
has_suffix p [] = text_eq p []
has_suffix p (c ∷ s) = text_eq p (c ∷ s) || has_suffix p s

-- strings.TrimPrefix(s, p), with the prefix first
abbrev pub after_prefix : Text → Text → Text → Text
after_prefix [] rest s = rest
after_prefix (c ∷ p) [] s = s
after_prefix (c ∷ p) (d ∷ rest) s = let later = after_prefix p rest s in if c == d then later else s

abbrev pub trim_prefix : Text → Text → Text
trim_prefix p s = after_prefix p s s

-- strings.TrimSuffix(s, p), with the suffix first
unfoldable pub trim_suffix : Text → Text → Text
trim_suffix p [] = []
trim_suffix p (c ∷ s) = let rest = trim_suffix p s in if text_eq p (c ∷ s) then [] else c ∷ rest

-- strings.TrimLeftFunc and strings.TrimRightFunc
unfoldable pub trim_left : (ℕ → Bool) → Text → Text
trim_left test [] = []
trim_left test (c ∷ s) = let rest = trim_left test s in if test c then rest else c ∷ s

abbrev pub is_nil {ℓ} : {A : Type ℓ} → List A → Bool
is_nil [] = true
is_nil (_ ∷ _) = false

unfoldable pub trim_right : (ℕ → Bool) → Text → Text
trim_right test [] = []
trim_right test (c ∷ s) =
    let rest = trim_right test s in if is_nil rest && test c then [] else c ∷ rest

-- unicode.IsSpace
abbrev pub is_unicode_space : ℕ → Bool
is_unicode_space c =
    (leb 9 c && leb c 13)
    || c == 32
    || c == 133
    || c == 160
    || c == 5760
    || (leb 8192 c && leb c 8202)
    || c == 8232
    || c == 8233
    || c == 8239
    || c == 8287
    || c == 12288

-- strings.TrimSpace(s) == ""
abbrev pub all_space : Text → Bool
all_space [] = true
all_space (c ∷ s) = is_unicode_space c && all_space s

-- strings.TrimSpace(s)
unfoldable pub trim_space : Text → Text
unfolding trim_left trim_right
trim_space s = trim_right is_unicode_space (trim_left is_unicode_space s)

-- The text after_byte the first occurrence of a byte, and nothing if there is none.
unfoldable pub after_byte : ℕ → Text → Text
after_byte sep [] = []
after_byte sep (c ∷ s) = let rest = after_byte sep s in if c == sep then s else rest

abbrev pub cons_head : ℕ → List Text → List Text
cons_head c [] = (c ∷ []) ∷ []
cons_head c (l ∷ ls) = (c ∷ l) ∷ ls

-- strings.Split(s, sep) at one byte
unfoldable pub split : ℕ → Text → List Text
split sep [] = [] ∷ []
split sep (c ∷ s) = let rest = split sep s in if c == sep then [] ∷ rest else cons_head c rest

-- strings.Join
unfoldable pub join : Text → List Text → Text
join sep [] = []
join sep (l ∷ []) = l
join sep (l ∷ m ∷ ls) = l ++ (sep ++ join sep (m ∷ ls))

-- strings.ReplaceAll(s, old, new), for an old text that is not empty; the number counts the codes
-- of an occurrence that are still to be left out.
unfoldable pub replace_from : Text → Text → ℕ → Text → Text
replace_from old new skip [] = []
replace_from old new (suc skip) (c ∷ s) = replace_from old new skip s
replace_from old new zero (c ∷ s) =
    let at = has_prefix old (c ∷ s) in
    (if at then new else c ∷ []) ++ replace_from old new (if at then length old - 1 else 0) s

-- The text of a strings.Builder after some writes.
abbrev pub written : List Text → Text
written [] = []
written (t ∷ ts) = t ++ written ts
