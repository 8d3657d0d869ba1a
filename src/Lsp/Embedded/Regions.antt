-- ===== src/Lsp/Embedded/Regions.antt =====
-- The scanners and the offset maps of internal/lsp/embedded.go. Texts are lists of bytes, and offsets
-- stand for positions.
use bloblang_lsp.Common.{
  ℕ, zero, suc, ◌+◌, ◌-◌, min, Text, Bool, not, ◌||◌, Option, none, some, List, [], ◌∷◌, ◌==◌, ltb,
  leb, if◌then◌else◌, codes, length, drop, get_elem?,
}
use bloblang_lsp.Common.Strings.{has_prefix}
use bloblang_lsp.Lsp.Embedded.{EmbeddedRegion}

-- A place outside of strings, inside of one with its quote, or behind a backslash there.
pub data Quoting : Type 0 where
  bare : Quoting
  quoted escaped : ℕ → Quoting

abbrev is_quote : ℕ → Bool
is_quote c = c == b'"' || (c == b'\'' || c == b'`')

-- The inner loop of `interpolationSpans`: where the interpolation closes.
unfoldable pub close_at : Quoting → ℕ → ℕ → Text → Option ℕ
close_at q depth j [] = none
close_at (escaped q) depth j (c ∷ s) = close_at (quoted q) depth (j + 1) s
close_at (quoted q) depth j (c ∷ s) =
    close_at (if c == b'\\' then escaped q else if c == q then bare else quoted q) depth (j + 1) s
close_at bare depth j (c ∷ s) =
    let inside = close_at (quoted c) depth (j + 1) s in
    let deeper = close_at bare (depth + 1) (j + 1) s in
    let higher = close_at bare (depth - 1) (j + 1) s in
    let same = close_at bare depth (j + 1) s in
    if is_quote c
    then inside
    else if c == b'{'
    then deeper
    else if not (c == b'}')
    then same
    else if depth == 0
    then some j
    else higher

-- Behind an interpolation that closes the search goes on there, and else at the next byte.
abbrev add_span : ℕ → Option ℕ → (ℕ → List (ℕ × ℕ)) → List (ℕ × ℕ)
add_span i none further = further 0
add_span i (some j) further = (i + 3, j) ∷ further (j - i)

unfoldable pub spans_from : ℕ → ℕ → Text → List (ℕ × ℕ)
unfolding close_at
spans_from skip i [] = []
spans_from (suc skip) i (c ∷ s) = spans_from skip (i + 1) s
spans_from zero i (c ∷ s) =
    let rest = spans_from zero (i + 1) s in
    let found =
      add_span i (close_at bare 0 (i + 3) (drop 3 (c ∷ s))) (λ skip. spans_from skip (i + 1) s) in
    if has_prefix (codes "${!") (c ∷ s) then found else rest

unfoldable pub interpolation_spans : Text → List (ℕ × ℕ)
unfolding spans_from
interpolation_spans s = spans_from 0 0 s

abbrev space_byte : ℕ → Bool
space_byte c = c == 32 || (c == 9 || (c == 10 || c == 13))

-- Where `scalarContentStart` is: at a property or the content, in a verbatim tag or in front of its
-- bracket, in another property, between two, or in a comment.
pub data Scanning : Type 0 where
  at_start opening verbatim in_property between in_comment : Scanning

unfoldable pub content_start : Scanning → ℕ → Text → ℕ
content_start state i [] = i
content_start opening i (c ∷ s) = content_start verbatim (i + 1) s
content_start verbatim i (c ∷ s) = content_start (if c == b'>' then between else verbatim) (i + 1) s
content_start in_property i (c ∷ s) =
    content_start (if space_byte c then between else in_property) (i + 1) s
content_start in_comment i (c ∷ s) =
    content_start (if c == 10 then between else in_comment) (i + 1) s
content_start between i (c ∷ s) =
    let on = content_start between (i + 1) s in
    let comment = content_start in_comment (i + 1) s in
    let tag = content_start (if has_prefix (codes "<") s then opening else in_property) (i + 1) s in
    let anchor = content_start in_property (i + 1) s in
    if space_byte c
    then on
    else if c == b'#'
    then comment
    else if c == b'!'
    then tag
    else if c == b'&'
    then anchor
    else i
content_start at_start i (c ∷ s) =
    let tag = content_start (if has_prefix (codes "<") s then opening else in_property) (i + 1) s in
    let anchor = content_start in_property (i + 1) s in
    if c == b'!' then tag else if c == b'&' then anchor else i

-- `scalarContentStart`, from the node's own offset.
unfoldable pub scalar_content_start : Text → ℕ → ℕ
unfolding content_start
scalar_content_start text start = content_start at_start start (drop start text)

-- The first index whose offset is not smaller, in a list that does not fall.
abbrev search_offsets : ℕ → List ℕ → ℕ
search_offsets b [] = 0
search_offsets b (o ∷ os) = let later = search_offsets b os in if leb b o then 0 else suc later

-- `localPosition`
abbrev local_position : EmbeddedRegion → ℕ → Option ℕ
local_position r b =
    if ltb b r.start || ltb r.end b
    then none
    else some (min (search_offsets b r.offsets) (length r.offsets - 1))

-- `hostPosition`; a region has offsets.
abbrev or_start : Option ℕ → ℕ
or_start none = 0
or_start (some o) = o

abbrev host_position : EmbeddedRegion → ℕ → ℕ
host_position r b = or_start (get_elem? r.offsets (min b (length r.offsets - 1)))

abbrev host_range : EmbeddedRegion → ℕ × ℕ → ℕ × ℕ
host_range r (from, to) = (host_position r from, host_position r to)

-- Behind the spaces of a text.
abbrev skip_spaces : ℕ → Text → ℕ × Text
skip_spaces i [] = (i, [])
skip_spaces i (c ∷ s) =
    let later = skip_spaces (i + 1) s in if space_byte c then later else (i, c ∷ s)

abbrev last_or : List ℕ → ℕ → ℕ
last_or offsets i = or_start (get_elem? offsets (min i (length offsets - 1)))

abbrev with_offset : ℕ → Option (List ℕ) → Option (List ℕ)
with_offset o none = none
with_offset o (some os) = some (o ∷ os)

abbrev start_of : List ℕ → Option ℕ → ℕ → ℕ
start_of offsets none i = last_or offsets i
start_of offsets (some mapped) i = mapped

abbrev matched : List ℕ → ℕ → ℕ × Text → (ℕ → Text → Option (List ℕ)) → Option (List ℕ)
matched offsets c (i, []) further = none
matched offsets c (i, d ∷ raw) further =
    if d == c then with_offset (last_or offsets i) (further (i + 1) raw) else none

-- The loop of `alignScalar`, with the offset of the run of spaces that it is in.
unfoldable pub align_from : List ℕ → Option ℕ → ℕ → Text → Text → Option (List ℕ)
align_from offsets run i raw [] = some (last_or offsets i ∷ [])
align_from offsets run i raw (c ∷ decoded) =
    let mapped = start_of offsets run i in
    let (j, rest) = skip_spaces i raw in
    let spaced = with_offset mapped (align_from offsets (some mapped) j rest decoded) in
    let content = matched offsets c (j, rest) (λ k raw'. align_from offsets none k raw' decoded) in
    if space_byte c then spaced else content

unfoldable pub align_scalar : Text → Text → List ℕ → Option (List ℕ)
unfolding align_from
align_scalar raw decoded offsets = align_from offsets none 0 raw decoded
