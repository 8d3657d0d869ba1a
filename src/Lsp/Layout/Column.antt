-- ===== src/Lsp/Layout/Column.antt =====
-- The renderer of internal/lsp/layout.go knows its column: it is the width of the last line of
-- what has been written, at every point.
use bloblang_lsp.Common.{
  ℕ, ◌+◌, Text, Bool, true, false, Option, none, some, [], ◌++◌, ◌≡◌, sym, ◌∙◌, arith,
  if◌then◌else◌, length, replicate, length-append, length-replicate,
}
use bloblang_lsp.Lsp.Layout.{
  Layout, node, Parts, nil, cons, has_newline, last_line, flat_layout, fitting, Out, write_flat,
  write_break, write_leaf, or_else, render, render_parts, following_of,
}
use bloblang_lsp.Lsp.Layout.Flat.{
  has_newline-append, last_line-append_break, last_line-append_flat, replicate-has_newline,
  IsOneLine, flat_layout-IsOneLine, fitting-IsOneLine,
}

-- A line ending ends in a line break and holds nothing behind it.
abbrev pub IsEol : Text → Type 0
IsEol eol = (has_newline eol ≡ true) × (last_line eol ≡ [])

abbrev pub KnowsColumn : Out → Type 0
KnowsColumn out = out.column ≡ length (last_line out.written)

module _ (width : ℕ) (eol : Text) (h : IsEol eol) where
  write_flat-column :
      (s : Text) (out : Out)
      → has_newline s ≡ false
      → KnowsColumn out
      → KnowsColumn (write_flat width eol s out)
  write_flat-column s out f k =
      rw (last_line-append_flat out.written s f)
        (omega (arith, length-append (last_line out.written) s))

  spaces : (n : ℕ) → length (last_line (eol ++ replicate n b' ')) ≡ n
  spaces n =
      rw (last_line-append_flat eol (replicate n b' ') (replicate-has_newline n), h.1)
        (length-replicate n b' ')

  write_break-column : (n : ℕ) (out : Out) → KnowsColumn (write_break width eol n out)
  write_break-column n out =
      rw
        (last_line-append_break out.written (eol ++ replicate n b' ')
          (has_newline-append eol (replicate n b' ') ∙ ground (arith, h.0)))
        (sym (spaces n))

  write_leaf-column :
      (s : Text) (out : Out) → KnowsColumn out → KnowsColumn (write_leaf width eol s out)
  write_leaf-column s out k = ground (
    arith,
    last_line-append_flat out.written s,
    last_line-append_break out.written s,
    length-append (last_line out.written) s,
  )

  or_else-column :
      (o : Option Text) (out broken : Out)
      → IsOneLine o
      → KnowsColumn out
      → KnowsColumn broken
      → KnowsColumn (or_else width eol o out broken)
  or_else-column none out broken f k b = b
  or_else-column (some s) out broken f k b = write_flat-column s out f k

  line-column :
      (line : Bool) (n : ℕ) (out other : Out)
      → KnowsColumn other
      → KnowsColumn (if line then write_break width eol n out else other)
  line-column true n out other k = write_break-column n out
  line-column false n out other k = k

  mutual
    unfolding render

    render-column :
        (d : Layout) (indent following : ℕ) (out : Out)
        → KnowsColumn out
        → KnowsColumn (render width eol d indent false following out)
    render-column (node a nil) indent following out k =
        or_else-column (fitting width eol a (flat_layout (node a nil)) false following out) out _
          (fitting-IsOneLine width eol a (flat_layout (node a nil)) false following out
            (flat_layout-IsOneLine (node a nil)))
          k
          (line-column a.line (indent + a.indent) out (write_leaf width eol a.text out)
            (write_leaf-column a.text out k))
    render-column (node a (cons p ps)) indent following out k =
        or_else-column (fitting width eol a (flat_layout (node a (cons p ps))) false following out)
          out _
          (fitting-IsOneLine width eol a (flat_layout (node a (cons p ps))) false following out
            (flat_layout-IsOneLine (node a (cons p ps))))
          k
          (line-column a.line (indent + a.indent) out
            (render_parts width eol ps (indent + a.indent) false following
              (render width eol p (indent + a.indent) false (following_of ps following) out))
            (render_parts-column ps (indent + a.indent) following
              (render width eol p (indent + a.indent) false (following_of ps following) out)
              (render-column p (indent + a.indent) (following_of ps following) out k)))

    render_parts-column :
        (ps : Parts) (indent following : ℕ) (out : Out)
        → KnowsColumn out
        → KnowsColumn (render_parts width eol ps indent false following out)
    render_parts-column nil indent following out k = k
    render_parts-column (cons p ps) indent following out k =
        render_parts-column ps indent following
          (render width eol p indent false (following_of ps following) out)
          (render-column p indent (following_of ps following) out k)

  -- With a line ending that ends in a line break, the renderer's column is the width of the line
  -- being written, whatever the layout, the width and the place where it starts.
  pub render_column :
      (d : Layout) (indent following : ℕ) (out : Out)
      → out.column ≡ length (last_line out.written)
      → let r = render width eol d indent false following out in
        r.column ≡ length (last_line r.written)
  render_column d indent following out k = render-column d indent following out k
