-- ===== src/Tests/Layout.antt =====
-- A call of internal/lsp/layout.go that fits at one width and breaks at another.
use bloblang_lsp.Common.{Text, false, [], ◌∷◌, ◌≡◌, refl, codes, length}
use bloblang_lsp.Lsp.Layout.{
  Layout, nil, cons, literal, soft, concat, nested, grouped, Out, render, render_layout, last_line,
}
use bloblang_lsp.Lsp.Layout.Shows.{Shows, solid, BlankBreaks}
use bloblang_lsp.Lsp.Layout.Column.{render_column}
use bloblang_lsp.Lsp.Layout.Content.{render_layout-Shows}

abbrev eol : Text
eol = 10 ∷ []

-- f(a, b)
abbrev call : Layout
call = grouped (
    concat (
      cons (literal (codes "f(")) (
        cons
          (nested
            (concat (
              cons (soft []) (
                cons (literal (codes "a,"))
                  (cons (soft (codes " ")) (cons (literal (codes "b")) nil)))))
            2)
          (cons (soft []) (cons (literal (codes ")")) nil)))))

fits : render_layout 80 eol call ≡ codes "f(a, b)"
unfolding render_layout
fits = refl

breaks : render_layout 5 eol call ≡ codes "f(\n  a,\n  b\n)"
unfolding render_layout
breaks = refl

call-BlankBreaks : BlankBreaks call
call-BlankBreaks = (
  refl,
  (
    refl,
    (λ h. cc),
    (
      (refl, (refl, (λ h. refl), ((λ h. cc), ((λ h. refl), ((λ h. cc), tt)))), tt),
      ((λ h. refl), ((λ h. cc), tt)),
    ),
  ),
  tt,
)

render_layout-Shows_example : Shows call (solid (render_layout 5 eol call))
render_layout-Shows_example = render_layout-Shows 5 eol refl call call-BlankBreaks

abbrev begun : Out
begun = record { written = codes "x = "; column = 4 }

render_column_example :
    (render 5 eol call 0 false 0 begun).column
    ≡ length (last_line (render 5 eol call 0 false 0 begun).written)
render_column_example = render_column 5 eol (refl, refl) call 0 0 begun refl
