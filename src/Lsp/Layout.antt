-- ===== src/Lsp/Layout.antt =====
-- The layouts of internal/lsp/layout.go and their renderer. A text is a list of characters, so
-- that `utf8.RuneCountInString` is its length.
pub mod Flat
pub mod Column
pub mod Shows
pub mod Content
use bloblang_lsp.Common.{
  ℕ, ◌+◌, Text, Bool, true, false, not, ◌&&◌, ◌||◌, Option, none, some, List, [], ◌∷◌, ◌++◌, ◌==◌,
  leb, if◌then◌else◌, length, replicate,
}

-- The fields of the struct `layout` but `parts`.
pub record Attrs : Type 0 where
  pub text : Text
  pub line : Bool
  pub hard : Bool
  pub group : Bool
  pub broken_only : Bool
  pub indent : ℕ

-- `nil` is the nil slice, which a layout without parts has.
mutual
  pub data Layout : Type 0 where
    node : Attrs → Parts → Layout

  pub data Parts : Type 0 where
    nil : Parts
    cons : Layout → Parts → Parts

abbrev pub newline : ℕ
newline = 10

abbrev pub plain : Attrs
plain = record {
  text = [];
  line = false;
  hard = false;
  group = false;
  broken_only = false;
  indent = 0;
}

abbrev pub literal : Text → Layout
literal s = node (record plain { text = s }) nil

abbrev pub soft : Text → Layout
soft s = node (record plain { text = s; line = true }) nil

abbrev pub hardline : Layout
hardline = node (record plain { line = true; hard = true }) nil

abbrev pub concat : Parts → Layout
concat ds = node plain ds

abbrev pub nested : Layout → ℕ → Layout
nested d size = node (record plain { indent = size }) (cons d nil)

abbrev pub grouped : Layout → Layout
grouped d = node (record plain { group = true }) (cons d nil)

-- strings.Contains(s, "\n")
abbrev pub has_newline : Text → Bool
has_newline [] = false
has_newline (c ∷ s) = c == newline || has_newline s

-- The text up to the first line break, and the text behind the last one.
abbrev pub first_line : Text → Text
first_line [] = []
first_line (c ∷ s) = let rest = first_line s in if c == newline then [] else c ∷ rest

abbrev pub last_line : Text → Text
last_line [] = []
last_line (c ∷ s) =
    let rest = last_line s in if has_newline s then rest else if c == newline then s else c ∷ s

abbrev pub one_line : Text → Option Text
one_line s = if has_newline s then none else some s

abbrev pub join_texts : Option Text → Option Text → Option Text
join_texts none t = none
join_texts (some s) none = none
join_texts (some s) (some t) = some (s ++ t)

unfoldable mutual
  pub flat_layout : Layout → Option Text
  flat_layout (node a nil) =
      if a.broken_only then some [] else if a.hard then none else one_line a.text
  flat_layout (node a (cons p ps)) =
      let inner = join_texts (flat_layout p) (flat_parts ps) in
      if a.broken_only
      then some []
      else if a.hard
      then none
      else if a.line
      then one_line a.text
      else inner

  pub flat_parts : Parts → Option Text
  flat_parts nil = some []
  flat_parts (cons p ps) = join_texts (flat_layout p) (flat_parts ps)

-- The width up to the first break opportunity, and whether there is none.
abbrev pub leaf_width : Text → ℕ × Bool
leaf_width s = if has_newline s then (length (first_line s), false) else (length s, true)

abbrev pub add_width : ℕ × Bool → ℕ × Bool → ℕ × Bool
add_width (n, complete) (m, rest) = if complete then (n + m, rest) else (n, false)

unfoldable mutual
  pub layout_prefix_width : Layout → ℕ × Bool
  layout_prefix_width (node a nil) = if a.line then (0, false) else leaf_width a.text
  layout_prefix_width (node a (cons p ps)) =
      let inner = add_width (layout_prefix_width p) (parts_prefix_width ps) in
      if a.line then (0, false) else inner

  pub parts_prefix_width : Parts → ℕ × Bool
  parts_prefix_width nil = (0, true)
  parts_prefix_width (cons p ps) = add_width (layout_prefix_width p) (parts_prefix_width ps)

-- The loop over `suffixes`, from the right: what must fit behind the parts.
abbrev pub behind : ℕ × Bool → ℕ → ℕ
behind (prefix, complete) following = if complete then following + prefix else prefix

unfoldable pub following_of : Parts → ℕ → ℕ
unfolding layout_prefix_width parts_prefix_width
following_of nil following = following
following_of (cons p ps) following = behind (layout_prefix_width p) (following_of ps following)

-- The builder and the column.
pub record Out : Type 0 where
  pub written : Text
  pub column : ℕ

module _ (width : ℕ) (eol : Text) where
  abbrev pub write_flat : Text → Out → Out
  write_flat s out = record out { written = out.written ++ s; column = out.column + length s }

  abbrev pub write_break : ℕ → Out → Out
  write_break indent out = record out {
    written = out.written ++ (eol ++ replicate indent b' ');
    column = indent;
  }

  abbrev pub write_leaf : Text → Out → Out
  write_leaf s out = record out {
    written = out.written ++ s;
    column = if has_newline s then length (last_line s) else out.column + length s;
  }

  -- The group's flat form, if it fits.
  abbrev pub fitting : Attrs → Option Text → Bool → ℕ → Out → Option Text
  fitting a none flat following out = none
  fitting a (some s) flat following out =
      if a.group && not flat && leb (out.column + length s + following) width then some s else none

  abbrev pub write_line : Attrs → ℕ → Bool → Out → Out
  write_line a indent flat out =
      if flat && not a.hard then write_flat a.text out else write_break indent out

  abbrev pub or_else : Option Text → Out → Out → Out
  or_else none out broken = broken
  or_else (some s) out broken = write_flat s out

  unfoldable mutual
    pub render : Layout → ℕ → Bool → ℕ → Out → Out
    render (node a nil) indent flat following out =
        let broken =
          if a.line then write_line a (indent + a.indent) flat out else write_leaf a.text out in
        or_else (fitting a (flat_layout (node a nil)) flat following out) out broken
    render (node a (cons p ps)) indent flat following out =
        let inner =
          render_parts ps (indent + a.indent) flat following
            (render p (indent + a.indent) flat (following_of ps following) out) in
        let broken = if a.line then write_line a (indent + a.indent) flat out else inner in
        or_else (fitting a (flat_layout (node a (cons p ps))) flat following out) out broken

    pub render_parts : Parts → ℕ → Bool → ℕ → Out → Out
    render_parts nil indent flat following out = out
    render_parts (cons p ps) indent flat following out =
        render_parts ps indent flat following (render p indent flat (following_of ps following) out)

  unfoldable pub render_layout : Layout → Text
  unfolding render render_parts flat_layout flat_parts following_of
  render_layout d = (render d 0 false 0 (record { written = []; column = 0 })).written
