-- ===== src/Help/Excerpts.antt =====
-- Words and excerpts in internal/help/rank.go and clip in internal/help/index.go. Texts are valid
-- UTF-8 and lists of code points; lengths and indices count bytes.
use bloblang_lsp.Common.{
  ℕ, ◌+◌, ◌-◌, ◌/◌, min, Text, Bool, true, not, ◌&&◌, ◌||◌, Option, none, some, List, [], ◌∷◌, ◌++◌,
  ◌==◌, ltb, leb, if◌then◌else◌, codes, contains, text_is_eq,
}
use bloblang_lsp.Common.Dict.{Dict, lookup, insert}
use bloblang_lsp.Common.Strings.{is_nil, has_prefix, has_suffix, trim_suffix, trim_space, cons_head}
use bloblang_lsp.Lsp.Positions.{width, byte_length, take_bytes}

-- strings.ToLower, and unicode.IsLetter or unicode.IsNumber.
pub record Unicode : Type 0 where
  pub to_lower : Text → Text
  pub is_word : ℕ → Bool

-- strings.FieldsFunc: the pieces between separators, less the empty ones.
abbrev pieces : (ℕ → Bool) → Text → List Text
pieces separates [] = [] ∷ []
pieces separates (c ∷ s) =
    let rest = pieces separates s in if separates c then [] ∷ rest else cons_head c rest

abbrev without_empty : List Text → List Text
without_empty [] = []
without_empty (t ∷ ts) = let rest = without_empty ts in if is_nil t then rest else t ∷ rest

-- A short text for an index, its words and the keys of its words.
module _ (unicode : Unicode) where
  unfoldable pub normalize_word : Text → Text
  normalize_word word =
      let s = unicode.to_lower word in
      if ltb 3 (byte_length s) && (has_suffix (codes "s") s && not (has_suffix (codes "ss") s))
      then trim_suffix (codes "s") s
      else s

  unfoldable pub words : Text → List Text
  words text = without_empty (pieces (λ c. not (unicode.is_word c)) text)

  abbrev add_term : Dict Text Text → Text → Text → Option Text → Dict Text Text
  add_term terms key word none = insert key word terms
  add_term terms key word (some _) = terms

  unfoldable pub add_terms : Dict Text Text → List Text → Dict Text Text
  unfolding normalize_word
  add_terms terms [] = terms
  add_terms terms (w ∷ ws) =
      let key = normalize_word w in add_terms (add_term terms key w (lookup key terms)) ws

  unfoldable pub token_map : Text → Dict Text Text
  unfolding words add_terms
  token_map text = add_terms [] (words text)

  abbrev stop_words : List Text
  stop_words =
      codes "a"
      ∷ codes "an"
      ∷ codes "the"
      ∷ codes "to"
      ∷ codes "of"
      ∷ codes "and"
      ∷ codes "or"
      ∷ codes "in"
      ∷ codes "on"
      ∷ codes "for"
      ∷ codes "with"
      ∷ codes "from"
      ∷ codes "how"
      ∷ codes "do"
      ∷ codes "i"
      ∷ []

  -- The loop, with the keys that it has seen.
  unfoldable pub terms_of : List Text → List Text → List Text
  unfolding normalize_word
  terms_of seen [] = []
  terms_of seen (w ∷ ws) =
      let key = normalize_word w in
      let fresh = not (contains stop_words key) && not (contains seen key) in
      let rest = terms_of (if fresh then key ∷ seen else seen) ws in
      if fresh then w ∷ rest else rest

  unfoldable pub query_terms : Text → List Text
  unfolding words terms_of
  query_terms text = terms_of [] (words text)

  abbrev pub is_identifier : Text → Bool
  is_identifier [] = true
  is_identifier (c ∷ s) = (c == b'_' || unicode.is_word c) && is_identifier s

-- "…", which takes three bytes.
abbrev ellipsis : Text
ellipsis = codes "…"

-- The cut goes back to the start of a code point.
unfoldable pub clip : Text → ℕ → Text
clip text bytes =
    if leb (byte_length text) bytes then text else (take_bytes (bytes - 3) text).0 ++ ellipsis

-- `text[n:]`, from the start of the code point that `n` lies in.
unfoldable drop_bytes : ℕ → Text → Text
drop_bytes n [] = []
drop_bytes n (c ∷ s) =
    let rest = drop_bytes (n - width c) s in if leb (width c) n then rest else c ∷ s

-- strings.Index(text, part), and the given number where it is -1.
unfoldable index_or : ℕ → Text → ℕ → Text → ℕ
index_or other part i [] = if is_nil part then i else other
index_or other part i (c ∷ s) =
    let later = index_or other part (i + width c) s in if has_prefix part (c ∷ s) then i else later

unfoldable first_position : Text → List Text → ℕ → ℕ
unfolding index_or
first_position text [] position = position
first_position text (t ∷ ts) position =
    first_position text ts (min position (index_or position t 0 text))

unfoldable pub excerpt : Text → List Text → ℕ → Text
unfolding first_position drop_bytes clip trim_space
excerpt text terms maximum =
    let position = first_position text terms (byte_length text) in
    if ltb (maximum / 2) position && ltb position (byte_length text)
    then ellipsis ++ clip (trim_space (drop_bytes (position - maximum / 3) text)) (maximum - 3)
    else clip text maximum
