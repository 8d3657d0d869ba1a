-- ===== src/Lsp/Positions.antt =====
-- internal/lsp/positions.go: editor positions, in units of UTF-16, and offsets in bytes of UTF-8. A
-- text is the list of its code points; it is valid UTF-8.
pub mod RoundTrip
use bloblang_lsp.Common.{
  ℕ, zero, suc, ◌+◌, ◌-◌, Text, Bool, true, false, not, Option, none, some, List, [], ◌∷◌, ◌==◌,
  ltb, leb, if◌then◌else◌, length, get_elem?,
}
use bloblang_lsp.Common.Int.{ℤ, pos, negsuc, above}
use bloblang_lsp.Common.Strings.{split}

pub record Position : Type 0 where
  pub line : ℤ
  pub character : ℤ

-- The bytes of a code point, and its units.
abbrev pub width : ℕ → ℕ
width c = if ltb c 128 then 1 else if ltb c 2048 then 2 else if ltb c 65536 then 3 else 4

abbrev pub units_of : ℕ → ℕ
units_of c = if ltb c 65536 then 1 else 2

abbrev pub byte_length : Text → ℕ
byte_length [] = 0
byte_length (c ∷ s) = width c + byte_length s

abbrev pub utf16_length : Text → ℕ
utf16_length [] = 0
utf16_length (c ∷ s) = units_of c + utf16_length s

-- The bytes of the lines in front of a line, with their line feeds.
abbrev pub line_start : ℕ → List Text → ℕ
line_start zero ls = 0
line_start (suc n) [] = 0
line_start (suc n) (l ∷ ls) = byte_length l + 1 + line_start n ls

abbrev pub line_at : Option Text → Text
line_at none = []
line_at (some l) = l

-- The loop over a line's code points, with the units so far.
unfoldable pub column_byte : ℕ → ℤ → Text → ℕ
column_byte units character [] = 0
column_byte units character (c ∷ s) =
    let further = column_byte (units + units_of c) character s in
    if not (above character units) then 0 else width c + further

abbrev pub byte_on_line : List Text → ℕ → ℤ → ℕ
byte_on_line ls n character = line_start n ls + column_byte 0 character (line_at (get_elem? ls n))

abbrev pub byte_from : Text → ℤ → ℤ → ℕ
byte_from text (negsuc _) character = 0
byte_from text (pos n) character =
    if leb (length (split 10 text)) n
    then byte_length text
    else byte_on_line (split 10 text) n character

unfoldable pub position_byte : Text → Position → ℕ
unfolding column_byte split
position_byte text p = byte_from text p.line p.character

-- `text[:offset]`: the code points in it, and the bytes of one that it cuts.
unfoldable pub take_bytes : ℕ → Text → Text × ℕ
take_bytes n [] = ([], 0)
take_bytes n (c ∷ s) =
    let rest = take_bytes (n - width c) s in
    if leb (width c) n then (c ∷ rest.0, rest.1) else ([], n)

abbrev pub newlines : Text → ℕ
newlines [] = 0
newlines (c ∷ s) = if c == 10 then suc (newlines s) else newlines s

-- The text behind the last line feed.
abbrev pub last_line : Text → Text
last_line [] = []
last_line (c ∷ s) = if not (newlines s == 0) then last_line s else if c == 10 then s else c ∷ s

-- The bytes of a cut code point count as one unit each.
abbrev pub position_of : Text × ℕ → Position
position_of (s, cut) = record {
  line = pos (newlines s);
  character = pos (utf16_length (last_line s) + cut);
}

abbrev pub clamped : ℤ → ℕ
clamped (pos n) = n
clamped (negsuc _) = 0

unfoldable pub byte_position : Text → ℤ → Position
unfolding take_bytes
byte_position text offset = position_of (take_bytes (clamped offset) text)

-- `byteColumn`
unfoldable pub byte_column : Text → Position → Position
unfolding position_byte take_bytes
byte_column text p =
    let (s, cut) = take_bytes (position_byte text p) text in
    record { line = p.line; character = pos (byte_length (last_line s) + cut) }
