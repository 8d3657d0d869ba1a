-- ===== src/Tests/Positions.antt =====
-- Positions of internal/lsp/positions.go in a text with characters of two and four bytes.
use bloblang_lsp.Common.{Text, ◌++◌, ◌≡◌, refl, codes}
use bloblang_lsp.Common.Int.{pos, negsuc}
use bloblang_lsp.Common.Strings.{split}
use bloblang_lsp.Lsp.Positions.{
  byte_length, column_byte, position_byte, take_bytes, byte_position, byte_column,
}
use bloblang_lsp.Lsp.Positions.RoundTrip.{position_byte-byte_position}

abbrev head : Text
head = codes "a\né😀"

abbrev tail : Text
tail = codes "b\nc"

-- Three units and six bytes into the second line; a cut character; columns and lines out of range.
places :
    (byte_position (head ++ tail) (pos 8) ≡ record { line = pos 1; character = pos 3 })
    × (byte_position (head ++ tail) (pos 5) ≡ record { line = pos 1; character = pos 2 })
    × (byte_column (head ++ tail) (record { line = pos 1; character = pos 3 })
        ≡ record { line = pos 1; character = pos 6 })
    × (position_byte (head ++ tail) (record { line = pos 0; character = pos 9 }) ≡ 1)
    × (position_byte (head ++ tail) (record { line = pos 9; character = pos 0 }) ≡ 11)
    × (position_byte (head ++ tail) (record { line = negsuc 0; character = pos 0 }) ≡ 0)
unfolding byte_position take_bytes byte_column position_byte column_byte split
places = (refl, refl, refl, refl, refl, refl)

position_byte-byte_position_example :
    position_byte (head ++ tail) (byte_position (head ++ tail) (pos (byte_length head)))
    ≡ byte_length head
position_byte-byte_position_example = position_byte-byte_position head tail
