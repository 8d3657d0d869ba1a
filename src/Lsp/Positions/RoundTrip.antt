-- ===== src/Lsp/Positions/RoundTrip.antt =====
-- Offsets through the positions of internal/lsp/positions.go and back.
use bloblang_lsp.Common.{
  ℕ, zero, suc, ◌+◌, ◌-◌, ◌<◌, Text, true, false, not, List, [], ◌∷◌, ◌++◌, ◌≡◌, refl, sym, ap, ◌∙◌,
  subst, arith, ◌==◌, leb, ==→eq, Bool-cases, length, get_elem?, inl, inr,
}
use bloblang_lsp.Common.Int.{ℤ, pos, above}
use bloblang_lsp.Common.Strings.{split}
use bloblang_lsp.Lsp.Positions.{
  width, units_of, byte_length, utf16_length, line_at, column_byte, byte_on_line, position_byte,
  take_bytes, newlines, last_line, byte_position,
}

width_positive : (c : ℕ) → 0 < width c
width_positive c = ground arith

units_positive : (c : ℕ) → 0 < units_of c
units_positive c = ground arith

-- The bytes of a prefix take the prefix, and cut nothing.
fits_none : (w : ℕ) → 0 < w → leb w 0 ≡ false
fits_none w h = ground (arith, h)

fits : (w n : ℕ) → leb w (w + n) ≡ true
fits w n = ground arith

take_bytes-append : (s t : Text) → take_bytes (byte_length s) (s ++ t) ≡ (s, 0)
unfolding take_bytes
take_bytes-append [] [] = refl
take_bytes-append [] (c ∷ t) = rw (fits_none (width c) (width_positive c)) refl
take_bytes-append (c ∷ s) t =
    let less : width c + byte_length s - width c ≡ byte_length s = omega arith in
    rw (fits (width c) (byte_length s), less, take_bytes-append s t) refl

-- The loop passes over what stands in front.
before_end : (units u rest : ℕ) → 0 < u → not (above (pos (units + (u + rest))) units) ≡ false
before_end units u rest h = ground (arith, h)

at_end : (units : ℕ) → not (above (pos (units + 0)) units) ≡ true
at_end units = ground arith

column_byte-append :
    (s t : Text) (units : ℕ)
    → column_byte units (pos (units + utf16_length s)) (s ++ t) ≡ byte_length s
unfolding column_byte
column_byte-append [] [] units = refl
column_byte-append [] (c ∷ t) units = rw (at_end units) refl
column_byte-append (c ∷ s) t units =
    let further : units + (units_of c + utf16_length s) ≡ units + units_of c + utf16_length s =
      omega arith in
    rw (before_end units (units_of c) (utf16_length s) (units_positive c)) (
      ap (λ n. width c + n)
        (ap (λ m. column_byte (units + units_of c) (pos m) (s ++ t)) further
          ∙ column_byte-append s t (units + units_of c)))

last_line-whole : (s : Text) → newlines s ≡ 0 → last_line s ≡ s
last_line-whole [] h = refl
last_line-whole (c ∷ s) h = elim (Bool-cases (c == 10)) [
  | inl e ↦ absurd (ground (arith, e, h))
  | inr e ↦ let none_left : newlines s ≡ 0 = rw e at h in rw (none_left, e) refl
]

split_some : (t : Text) → (l : Text) × (ls : List Text) × (split 10 t ≡ l ∷ ls)
unfolding split
split_some [] = ([], [], refl)
split_some (c ∷ t) = elim (Bool-cases (c == 10)) [
  | inl e ↦ rw e ([], split 10 t, refl)
  | inr e ↦ let (l, ls, same) = split_some t in rw (e, same) (c ∷ l, ls, refl)
]

-- A prefix without a line feed starts the first line.
first_line-append :
    (s t : Text)
    → newlines s ≡ 0
    → line_at (get_elem? (split 10 (s ++ t)) 0) ≡ s ++ line_at (get_elem? (split 10 t) 0)
unfolding split
first_line-append [] t h = refl
first_line-append (c ∷ s) t h = elim (Bool-cases (c == 10)) [
  | inl e ↦ absurd (ground (arith, e, h))
  | inr e ↦
      let (l, ls, same) = split_some (s ++ t) in
      let later = first_line-append s t (rw e at h) in
      rw (e, same) (ap (λ x. c ∷ x) (rw same at later))
]

-- The lines behind the first are found the same with a code point more in front.
byte_on_line-feed :
    (ls : List Text) (n : ℕ) (character : ℤ)
    → byte_on_line ([] ∷ ls) (suc n) character ≡ 1 + byte_on_line ls n character
byte_on_line-feed ls n character = omega arith

byte_on_line-cons :
    (c : ℕ) (l : Text) (ls : List Text) (n : ℕ) (character : ℤ)
    → byte_on_line ((c ∷ l) ∷ ls) (suc n) character
      ≡ width c + byte_on_line (l ∷ ls) (suc n) character
byte_on_line-cons c l ls n character = omega arith

last_line-feed : (s : Text) → last_line (10 ∷ s) ≡ last_line s
last_line-feed s = elim (Bool-cases (newlines s == 0)) [
  | inl e ↦ rw e (sym (last_line-whole s (==→eq (newlines s) 0 e)))
  | inr e ↦ rw e refl
]

-- The lines of a text with a prefix: the prefix's last line starts the line that it ends on.
abbrev EndsAt : Text → Text → Type 0
EndsAt s t =
    byte_on_line (split 10 (s ++ t)) (newlines s) (pos (utf16_length (last_line s))) ≡ byte_length s

zero_plus : (n : ℕ) → 0 + n ≡ n
zero_plus n = omega arith

suc_nonzero : (k : ℕ) → (suc k == 0) ≡ false
suc_nonzero k = ground arith

first_line-EndsAt : (s t : Text) → newlines s ≡ 0 → EndsAt s t
first_line-EndsAt s t h =
    rw (h, last_line-whole s h, first_line-append s t h)
      (zero_plus _
        ∙ ap (λ m. column_byte 0 (pos m) (s ++ line_at (get_elem? (split 10 t) 0)))
            (sym (zero_plus (utf16_length s)))
        ∙ column_byte-append s (line_at (get_elem? (split 10 t) 0)) 0)

later_line-EndsAt :
    (c : ℕ) (s t : Text) (k : ℕ)
    → (c == 10) ≡ false
    → newlines s ≡ suc k
    → EndsAt s t
    → EndsAt (c ∷ s) t
unfolding split
later_line-EndsAt c s t k e h ih =
    let (l, ls, same) = split_some (s ++ t) in
    let later = rw (same, h) at ih in
    rw (e, h, suc_nonzero k, same)
      (byte_on_line-cons c l ls k (pos (utf16_length (last_line s))) ∙ ap (λ n. width c + n) later)

feed-EndsAt : (s t : Text) → EndsAt s t → EndsAt (10 ∷ s) t
unfolding split
feed-EndsAt s t ih = rw (last_line-feed s) (
    byte_on_line-feed (split 10 (s ++ t)) (newlines s) (pos (utf16_length (last_line s)))
    ∙ ap (λ n. 1 + n) ih)

byte_on_line-append : (s t : Text) → EndsAt s t
byte_on_line-append [] t = first_line-EndsAt [] t refl
byte_on_line-append (c ∷ s) t = elim (Bool-cases (c == 10)) [
  | inl e ↦
      subst (λ x. EndsAt (x ∷ s) t) (sym (==→eq c 10 e)) (feed-EndsAt s t (byte_on_line-append s t))
  | inr e ↦ go (newlines s) refl (byte_on_line-append s t) e
]
  where
    go : (k : ℕ) → newlines s ≡ k → EndsAt s t → (c == 10) ≡ false → EndsAt (c ∷ s) t
    go zero h ih e = first_line-EndsAt (c ∷ s) t (rw (e, h) refl)
    go (suc k) h ih e = later_line-EndsAt c s t k e h ih

newlines-below : (s t : Text) → newlines s < length (split 10 (s ++ t))
unfolding split
newlines-below [] t = let (l, ls, same) = split_some t in rw same (omega arith)
newlines-below (c ∷ s) t = elim (Bool-cases (c == 10)) [
  | inl e ↦ rw e (omega (arith, newlines-below s t))
  | inr e ↦
      let (l, ls, same) = split_some (s ++ t) in
      let later = newlines-below s t in rw (e, same) (rw same at later)
]

-- An offset at the end of a code point is found again from its position: the positions that the
-- editor is sent lead back to the bytes they were made of.
pub position_byte-byte_position :
    (s t : Text)
    → position_byte (s ++ t) (byte_position (s ++ t) (pos (byte_length s))) ≡ byte_length s
unfolding position_byte byte_position
position_byte-byte_position s t =
    let inside : leb (length (split 10 (s ++ t))) (newlines s) ≡ false =
      ground (arith, newlines-below s t) in
    let exact : utf16_length (last_line s) + 0 ≡ utf16_length (last_line s) = omega arith in
    rw (take_bytes-append s t, exact, inside) (byte_on_line-append s t)
