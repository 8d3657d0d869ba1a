-- ===== src/Lsp/Layout/Shows.antt =====
-- The content of the layouts of internal/lsp/layout.go: their texts in order, without blanks.
use bloblang_lsp.Common.{
  ℕ, zero, suc, Text, Bool, true, false, ◌||◌, Option, none, some, [], ◌∷◌, ◌++◌, ◌==◌, ◌≡◌, refl,
  sym, arith, if◌then◌else◌, replicate, subst,
}
use bloblang_lsp.Lsp.Layout.{
  Attrs, Layout, node, Parts, nil, cons, has_newline, flat_layout, flat_parts, one_line, join_texts,
}

abbrev pub is_blank : ℕ → Bool
is_blank c = c == b' ' || c == b'\n' || c == b'\r'

-- A text without its blanks.
abbrev pub solid : Text → Text
solid [] = []
solid (c ∷ s) = if is_blank c then solid s else c ∷ solid s

pub solid-append : (s t : Text) → solid (s ++ t) ≡ solid s ++ solid t
solid-append [] t = refl
solid-append (c ∷ s) t = ground (arith, solid-append s t)

pub solid-replicate : (n : ℕ) → solid (replicate n b' ') ≡ []
solid-replicate zero = refl
solid-replicate (suc n) = solid-replicate n

-- `s` holds the texts of the layout in order, without blanks; parts that stand only in a broken
-- layout may be missing.
mutual
  pub data Shows : Layout → Text → Type 0 where
    dropped : (a : Attrs) (ps : Parts) → a.broken_only ≡ true → Shows (node a ps) []
    text : (a : Attrs) → Shows (node a nil) (solid a.text)
    inner :
        (a : Attrs) {p : Layout} {ps : Parts} {s : Text}
        → ShowsParts (cons p ps) s
        → Shows (node a (cons p ps)) s

  pub data ShowsParts : Parts → Text → Type 0 where
    none_left : ShowsParts nil []
    both :
        {p : Layout} {ps : Parts} {s t : Text}
        → Shows p s
        → ShowsParts ps t
        → ShowsParts (cons p ps) (s ++ t)

-- Break opportunities are leaves whose flat text is blank, as `soft("")`, `soft(" ")` and
-- `hardline()` make them.
abbrev mutual
  pub BlankBreaks : Layout → Type 0
  BlankBreaks (node a nil) = a.line ≡ true → solid a.text ≡ []
  BlankBreaks (node a (cons p ps)) = (a.line ≡ false) × BlankBreaks p × BlankBreaksParts ps

  pub BlankBreaksParts : Parts → Type 0
  BlankBreaksParts nil = Unit
  BlankBreaksParts (cons p ps) = BlankBreaks p × BlankBreaksParts ps

abbrev pub ShownBy : (Text → Type 0) → Option Text → Type 0
ShownBy S none = Unit
ShownBy S (some s) = S (solid s)

one_line-ShownBy : (S : Text → Type 0) (s : Text) → S (solid s) → ShownBy S (one_line s)
one_line-ShownBy S s h = go (has_newline s)
  where
    go : (b : Bool) → ShownBy S (if b then none else some s)
    go true = tt
    go false = h

pub leaf-ShownBy : (a : Attrs) → ShownBy (Shows (node a nil)) (flat_layout (node a nil))
unfolding flat_layout
leaf-ShownBy a = go a.broken_only a.hard refl
  where
    go :
        (broken hard : Bool)
        → a.broken_only ≡ broken
        → ShownBy
            (Shows (node a nil))
            (if broken then some [] else if hard then none else one_line a.text)
    go true hard e = dropped a nil e
    go false true e = tt
    go false false e = one_line-ShownBy (Shows (node a nil)) a.text (text a)

join-ShownBy :
    (p : Layout) (ps : Parts) (s t : Option Text)
    → ShownBy (Shows p) s
    → ShownBy (ShowsParts ps) t
    → ShownBy (ShowsParts (cons p ps)) (join_texts s t)
join-ShownBy p ps none t h k = tt
join-ShownBy p ps (some s) none h k = tt
join-ShownBy p ps (some s) (some t) h k =
    subst (ShowsParts (cons p ps)) (sym (solid-append s t)) (both h k)

node-ShownBy :
    (a : Attrs) (p : Layout) (ps : Parts) (broken hard line : Bool) (o : Option Text)
    → a.broken_only ≡ broken
    → line ≡ false
    → ShownBy (ShowsParts (cons p ps)) o
    → ShownBy
        (Shows (node a (cons p ps)))
        (if broken then some [] else if hard then none else if line then one_line a.text else o)
node-ShownBy a p ps true hard line o e l h = dropped a (cons p ps) e
node-ShownBy a p ps false true line o e l h = tt
node-ShownBy a p ps false false true o e l h = cc
node-ShownBy a p ps false false false none e l h = tt
node-ShownBy a p ps false false false (some s) e l h = inner a h

mutual
  unfolding flat_layout

  pub flat_layout-ShownBy : (d : Layout) → BlankBreaks d → ShownBy (Shows d) (flat_layout d)
  flat_layout-ShownBy (node a nil) b = leaf-ShownBy a
  flat_layout-ShownBy (node a (cons p ps)) b =
      node-ShownBy a p ps a.broken_only a.hard a.line (join_texts (flat_layout p) (flat_parts ps))
        refl b.0
        (join-ShownBy p ps (flat_layout p) (flat_parts ps) (flat_layout-ShownBy p b.1)
          (flat_parts-ShownBy ps b.2))

  flat_parts-ShownBy : (ps : Parts) → BlankBreaksParts ps → ShownBy (ShowsParts ps) (flat_parts ps)
  flat_parts-ShownBy nil b = none_left
  flat_parts-ShownBy (cons p ps) b =
      join-ShownBy p ps (flat_layout p) (flat_parts ps) (flat_layout-ShownBy p b.0)
        (flat_parts-ShownBy ps b.1)
