-- ===== src/Benthos/Sample/Directives/Header.antt =====
-- The head of a mapping, in internal/benthos/sample.go, ends at its first line of code.
use bloblang_lsp.Common.{
  ℕ, zero, suc, ◌+◌, ◌≤◌, Text, true, false, Option, none, some, List, [], ◌∷◌, ◌++◌, ◌≡◌, refl, ap,
  arith, Bool-cases, inl, inr, fun_ext, codes, text_eq, text_is_eq, length, contains,
}
use bloblang_lsp.Common.Strings.{
  has_prefix, trim_prefix, trim_suffix, trim_left, trim_right, trim_space, before, after_byte, join,
  is_nil, is_unicode_space,
}
use bloblang_lsp.Common.Result.{Result, ok, err, ◌>>=◌, with_error}
use bloblang_lsp.Benthos.Sample.{SampleContext, SampleError, LineError, System}
use bloblang_lsp.Benthos.Sample.Decoding.{Part}
use bloblang_lsp.Benthos.Sample.Directives.{
  is_blank, block, Reading, LineStep, skipped, ended, failed, applied, directive_step, line_step,
  read_directives, is_explicit, load_sibling, sample_of, extract_from_lines, without_line,
  run_directive, part_named, step_of, is_comment, apply_directive, after_line,
}

-- A line that is neither blank nor a comment nor a directive.
abbrev pub IsCode : Text → Type 0
IsCode l = (is_nil (trim_space l) ≡ false) × (has_prefix (codes "#") (trim_space l) ≡ false)

-- A line that starts with "#" behind blanks starts with it when white space is trimmed.
trim_right-hash :
    (s : Text) → has_prefix (codes "#") (trim_right is_unicode_space (b'#' ∷ s)) ≡ true
unfolding trim_right
trim_right-hash s = ground arith

blank_trims : (c : ℕ) (s : Text) → is_blank c ≡ true → trim_space (c ∷ s) ≡ trim_space s
unfolding trim_space trim_left
blank_trims c s h = rw (blank-space c h)
  where
    blank-space : (c : ℕ) → is_blank c ≡ true → is_unicode_space c ≡ true
    blank-space c h = ground arith

hash_trims : (c : ℕ) (s : Text) → c ≡ b'#' → has_prefix (codes "#") (trim_space (c ∷ s)) ≡ true
unfolding trim_space trim_left
hash_trims c s e = rw e (trim_right-hash s)

hash_start :
    (l : Text)
    → has_prefix (codes "#|") (trim_left is_blank l) ≡ true
    → has_prefix (codes "#") (trim_space l) ≡ true
unfolding trim_left
hash_start [] h = cc
hash_start (c ∷ s) h = elim (Bool-cases (is_blank c)) [
  | inl e ↦ rw (blank_trims c s e) (hash_start s (rw e at h))
  | inr e ↦ hash_trims c s (first c s (rw e at h))
]
  where
    first : (c : ℕ) (s : Text) → has_prefix (codes "#|") (c ∷ s) ≡ true → c ≡ b'#'
    first c s k = ground arith

length-block : (ls : List Text) → length (block ls) ≤ length ls
unfolding block
length-block [] = omega arith
length-block (l ∷ ls) = ground (arith, length-block ls)

module _ {S : Type 0} (system : System S) (base_dir : Text) where
  -- A line takes at most `n` of the lines behind it.
  abbrev TakesAtMost : ℕ → LineStep S → Type 0
  TakesAtMost n (applied r taken) = taken ≤ n
  TakesAtMost n (failed e) = Unit
  TakesAtMost n skipped = Unit
  TakesAtMost n ended = Unit

  step_of-TakesAtMost :
      (r : Reading S) (name : Text) (start taken n : ℕ) (x : Result SampleError (SampleContext S))
      → taken ≤ n
      → TakesAtMost n (step_of system base_dir r name start taken x)
  step_of-TakesAtMost r name start taken n (ok c) h = h
  step_of-TakesAtMost r name start taken n (err e) h = tt

  run_directive-TakesAtMost :
      (r : Reading S) (part : Option Part) (name raw : Text) (start taken n : ℕ)
      → taken ≤ n
      → TakesAtMost n (run_directive system base_dir r part name raw start taken)
  run_directive-TakesAtMost r none name raw start taken n h = tt
  run_directive-TakesAtMost r (some part) name raw start taken n h =
      elim (Bool-cases (contains r.seen name)) [
        | inl e ↦ rw e tt
        | inr e ↦ elim (Bool-cases (is_nil (trim_space raw))) [
          | inl d ↦ rw (e, d) tt
          | inr d ↦
              rw (e, d)
                (step_of-TakesAtMost r name start taken n
                  (apply_directive system base_dir r.context part name raw start) h)
        ]
      ]

  line_step-TakesAtMost :
      (r : Reading S) (i : ℕ) (l : Text) (ls : List Text)
      → TakesAtMost (length ls) (line_step system base_dir r i l ls)
  unfolding line_step directive_step
  line_step-TakesAtMost r i l ls = elim (Bool-cases (is_comment (trim_space l))) [
    | inl e ↦ rw e tt
    | inr e ↦ elim (Bool-cases (has_prefix (codes "#!") (trim_space l))) [
      | inr d ↦ rw (e, d) tt
      | inl d ↦ rw (e, d) (directive (trim_space (trim_prefix (codes "#!") (trim_space l))))
    ]
  ]
    where
      directive :
          (body : Text) → TakesAtMost (length ls) (directive_step system base_dir r i body ls)
      directive body =
          let name = before (codes " ") body in
          let raw = trim_space (after_byte b' ' body) in
          let part = part_named (trim_suffix (codes "_from") name) in
          elim (Bool-cases (text_eq raw (codes "|"))) [
            | inl e ↦ rw e (
                run_directive-TakesAtMost r part name (join (codes "\n") (block ls)) i
                  (length (block ls)) (length ls) (length-block ls))
            | inr e ↦ rw e (run_directive-TakesAtMost r part name raw i 0 (length ls) (omega arith))
          ]

module _ (code : Text) (is_code : IsCode code) (rest : List Text) where
  no_block : has_prefix (codes "#|") (trim_left is_blank code) ≡ false
  no_block = elim (Bool-cases (has_prefix (codes "#|") (trim_left is_blank code))) [
    | inl e ↦ absurd (ground (arith, hash_start code e, is_code.1))
    | inr e ↦ e
  ]

  block-append : (ls : List Text) → block (ls ++ code ∷ rest) ≡ block ls
  unfolding block
  block-append [] = rw no_block refl
  block-append (l ∷ ls) = ground (arith, block-append ls)

  is_explicit-append : (ls : List Text) → is_explicit (ls ++ code ∷ rest) ≡ is_explicit ls
  unfolding is_explicit
  is_explicit-append [] = ground (arith, is_code.0, is_code.1)
  is_explicit-append (l ∷ ls) = ground (arith, is_explicit-append ls)

  module _ {S : Type 0} (system : System S) (base_dir : Text) where
    line_step-append :
        (r : Reading S) (i : ℕ) (l : Text) (ls : List Text)
        → line_step system base_dir r i l (ls ++ code ∷ rest) ≡ line_step system base_dir r i l ls
    unfolding line_step directive_step
    line_step-append r i l ls = rw (block-append ls) refl

    code_ends :
        (r : Reading S) (i : ℕ) (ls : List Text) → line_step system base_dir r i code ls ≡ ended
    unfolding line_step
    code_ends r i ls = rw (is_code.0, is_code.1, no_directive (trim_space code) is_code.1) refl
      where
        no_directive :
            (l : Text) → has_prefix (codes "#") l ≡ false → has_prefix (codes "#!") l ≡ false
        no_directive [] h = refl
        no_directive (c ∷ s) h = ground (arith, h)

    after_line-append :
        (r : Reading S) (i : ℕ) (ls : List Text) (x : LineStep S)
        → TakesAtMost system base_dir (length ls) x
        → ((r' : Reading S) (taken : ℕ)
            → taken ≤ length ls
            → read_directives system base_dir r' (i + 1) taken (ls ++ code ∷ rest)
              ≡ read_directives system base_dir r' (i + 1) taken ls)
        → after_line system base_dir r i
            (λ r' taken. read_directives system base_dir r' (i + 1) taken (ls ++ code ∷ rest))
            x
          ≡ after_line system base_dir r i
              (λ r' taken. read_directives system base_dir r' (i + 1) taken ls)
              x
    after_line-append r i ls skipped t same = same r 0 (omega arith)
    after_line-append r i ls ended t same = refl
    after_line-append r i ls (failed e) t same = refl
    after_line-append r i ls (applied r' taken) t same = same r' taken t

    read_directives-append :
        (r : Reading S) (i skip : ℕ) (ls : List Text)
        → skip ≤ length ls
        → read_directives system base_dir r i skip (ls ++ code ∷ rest)
          ≡ read_directives system base_dir r i skip ls
    unfolding read_directives
    read_directives-append r i zero [] h = rw (code_ends r i rest) refl
    read_directives-append r i (suc skip) [] h = absurd (omega arith)
    read_directives-append r i (suc skip) (l ∷ ls) h =
        read_directives-append r (i + 1) skip ls (omega arith)
    read_directives-append r i zero (l ∷ ls) h = rw (line_step-append r i l ls) (
        after_line-append r i ls (line_step system base_dir r i l ls)
          (line_step-TakesAtMost system base_dir r i l ls)
          (λ r' taken. read_directives-append r' (i + 1) taken ls))

  -- What a mapping's head says does not depend on its code: from the first line that is neither
  -- blank nor a comment nor a directive on, the text changes nothing.
  pub extract_from_lines-append :
      {S : Type 0} (system : System S) (base_dir : Text) (paths header : List Text)
      → extract_from_lines system base_dir paths (header ++ code ∷ rest)
        ≡ extract_from_lines system base_dir paths header
  unfolding extract_from_lines
  extract_from_lines-append {S} system base_dir paths header = rw (is_explicit-append header) (
      ap
        (λ (f : Reading S → Result LineError (Reading S)).
          with_error (without_line system) (load_sibling system paths (is_explicit header)) >>= λ c.
          f (record { context = c; seen = [] }) >>= λ r. ok (sample_of r.context))
        (fun_ext (λ r. read_directives-append system base_dir r 0 0 header (omega arith))))
