-- ===== src/Lsp/Layout/Content.antt =====
-- What the renderer of internal/lsp/layout.go writes, with the blanks left out: the texts of the
-- layout in their order.
use bloblang_lsp.Common.{
  ℕ, ◌+◌, Text, Bool, true, false, not, ◌&&◌, Option, none, some, [], ◌++◌, leb, ◌≡◌, refl, ap, sym,
  ◌∙◌, if◌then◌else◌, length, append_assoc, append-nil, subst,
}
use bloblang_lsp.Lsp.Layout.{
  Attrs, Layout, node, Parts, nil, cons, flat_layout, fitting, Out, write_break, write_leaf,
  or_else, render, render_parts, following_of, render_layout,
}
use bloblang_lsp.Lsp.Layout.Shows.{
  solid, solid-append, solid-replicate, Shows, text, inner, ShowsParts, none_left, both,
  BlankBreaks, BlankBreaksParts, ShownBy, leaf-ShownBy, flat_layout-ShownBy,
}

-- What was written beyond `out`, without blanks, is in `S`.
abbrev pub Adds : (Text → Type 0) → Out → Out → Type 0
Adds S out out' = (s : Text) × S s × (solid out'.written ≡ solid out.written ++ s)

module _ (width : ℕ) (eol : Text) (blank : solid eol ≡ []) where
  or_else-Adds :
      (S : Text → Type 0) (o : Option Text) (out broken : Out)
      → ShownBy S o
      → Adds S out broken
      → Adds S out (or_else width eol o out broken)
  or_else-Adds S none out broken h k = k
  or_else-Adds S (some s) out broken h k = (solid s, h, solid-append out.written s)

  fitting-ShownBy :
      (S : Text → Type 0) (a : Attrs) (o : Option Text) (flat : Bool) (following : ℕ) (out : Out)
      → ShownBy S o
      → ShownBy S (fitting width eol a o flat following out)
  fitting-ShownBy S a none flat following out h = tt
  fitting-ShownBy S a (some s) flat following out h =
      go (a.group && not flat && leb (out.column + length s + following) width)
    where
      go : (b : Bool) → ShownBy S (if b then some s else none)
      go true = h
      go false = tt

  break-blank :
      (n : ℕ) (out : Out) → solid (write_break width eol n out).written ≡ solid out.written
  break-blank n out =
      rw (solid-append, solid-append, solid-replicate n, blank) (append-nil (solid out.written))

  leaf-Adds :
      (a : Attrs) (line : Bool) (n : ℕ) (out : Out)
      → a.line ≡ line
      → (line ≡ true → solid a.text ≡ [])
      → Adds
          (Shows (node a nil))
          out
          (if line then write_break width eol n out else write_leaf width eol a.text out)
  leaf-Adds a true n out e b = (
    solid a.text,
    text a,
    break-blank n out
        ∙ sym (append-nil (solid out.written))
        ∙ ap (λ t. solid out.written ++ t) (sym (b refl)),
  )
  leaf-Adds a false n out e b = (solid a.text, text a, solid-append out.written a.text)

  inner-Adds :
      (a : Attrs) (p : Layout) (ps : Parts) (line : Bool) (n : ℕ) (out end : Out)
      → line ≡ false
      → Adds (ShowsParts (cons p ps)) out end
      → Adds (Shows (node a (cons p ps))) out (if line then write_break width eol n out else end)
  inner-Adds a p ps true n out end e h = cc
  inner-Adds a p ps false n out end e (s, shows, same) = (s, inner a shows, same)

  both-Adds :
      (p : Layout) (ps : Parts) (out mid end : Out)
      → Adds (Shows p) out mid
      → Adds (ShowsParts ps) mid end
      → Adds (ShowsParts (cons p ps)) out end
  both-Adds p ps out mid end (s, h, e) (t, k, f) =
      (s ++ t, both h k, f ∙ ap (λ r. r ++ t) e ∙ append_assoc (solid out.written) s t)

  mutual
    unfolding render

    render-Adds :
        (d : Layout) (indent following : ℕ) (out : Out)
        → BlankBreaks d
        → Adds (Shows d) out (render width eol d indent false following out)
    render-Adds (node a nil) indent following out b =
        or_else-Adds (Shows (node a nil))
          (fitting width eol a (flat_layout (node a nil)) false following out) out _
          (fitting-ShownBy (Shows (node a nil)) a (flat_layout (node a nil)) false following out
            (leaf-ShownBy a))
          (leaf-Adds a a.line (indent + a.indent) out refl b)
    render-Adds (node a (cons p ps)) indent following out b =
        or_else-Adds (Shows (node a (cons p ps)))
          (fitting width eol a (flat_layout (node a (cons p ps))) false following out) out _
          (fitting-ShownBy (Shows (node a (cons p ps))) a (flat_layout (node a (cons p ps))) false
            following out (flat_layout-ShownBy (node a (cons p ps)) b))
          (inner-Adds a p ps a.line (indent + a.indent) out
            (render_parts width eol ps (indent + a.indent) false following
              (render width eol p (indent + a.indent) false (following_of ps following) out))
            b.0
            (both-Adds p ps out
              (render width eol p (indent + a.indent) false (following_of ps following) out)
              (render_parts width eol ps (indent + a.indent) false following
                (render width eol p (indent + a.indent) false (following_of ps following) out))
              (render-Adds p (indent + a.indent) (following_of ps following) out b.1)
              (render_parts-Adds ps (indent + a.indent) following
                (render width eol p (indent + a.indent) false (following_of ps following) out)
                b.2)))

    render_parts-Adds :
        (ps : Parts) (indent following : ℕ) (out : Out)
        → BlankBreaksParts ps
        → Adds (ShowsParts ps) out (render_parts width eol ps indent false following out)
    render_parts-Adds nil indent following out b =
        ([], none_left, sym (append-nil (solid out.written)))
    render_parts-Adds (cons p ps) indent following out b =
        both-Adds p ps out (render width eol p indent false (following_of ps following) out)
          (render_parts width eol ps indent false following
            (render width eol p indent false (following_of ps following) out))
          (render-Adds p indent (following_of ps following) out b.0)
          (render_parts-Adds ps indent following
            (render width eol p indent false (following_of ps following) out) b.1)

  -- If break opportunities and the line ending are blank, then what is rendered is, blanks aside,
  -- exactly the layout's texts in their order: at every width nothing is added, lost or moved,
  -- except that parts for broken layouts only (trailing commas) may be left out.
  pub render_layout-Shows :
      (d : Layout) → BlankBreaks d → Shows d (solid (render_layout width eol d))
  unfolding render_layout
  render_layout-Shows d b =
      let (s, shows, same) = render-Adds d 0 0 (record { written = []; column = 0 }) b in
      subst (Shows d) (sym same) shows
