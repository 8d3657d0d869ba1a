-- ===== src/Cli/Tool/Checking.antt =====
-- What `blobl fmt --check` of internal/cli/cli.go does with each of its files.
use bloblang_lsp.Common.{
  ℕ, ◌+◌, Text, Bool, true, false, ◌&&◌, Option, none, some, List, [], ◌∷◌, ◌++◌, if◌then◌else◌,
  codes, text_eq, text_is_eq, ◌≡◌, refl, sym, ap, ◌∙◌, subst, Bool-cases, ◌⊎◌, inl, inr,
}
use bloblang_lsp.Common.Int.{ℤ}
use bloblang_lsp.Common.Result.{Result, ok, err}
use bloblang_lsp.Cli.Discovery.{System}
use bloblang_lsp.Cli.Files.{InputFile, FilesError, read_input}
use bloblang_lsp.Cli.Tool.{
  fmt, CommandOptions, Findings, Surroundings, ToolStep, printed, format_done, handle_text,
  handle_input, and_next, handle_inputs,
}

module _ {W : Type 0} (around : Surroundings W) where
  -- Whether a file that can be read and formatted is as the formatter writes it.
  abbrev formatted_as : Text → Option Text → Option Bool
  formatted_as text none = none
  formatted_as text (some formatted) = some (text_eq formatted text)

  abbrev formatted_text : ℤ → Text → Result FilesError Text → Option Bool
  formatted_text tab_size path (err _) = none
  formatted_text tab_size path (ok text) = formatted_as text (around.tool_format path text tab_size)

  abbrev is_formatted : System → ℤ → InputFile → Option Bool
  is_formatted system tab_size f = formatted_text tab_size f.path (read_input system around.names f)

  -- The line for a file that is not formatted.
  abbrev listed : Text → Bool → List Text
  listed path b = if b then [] else (path ++ codes "\n") ∷ []

  -- Files that can all be read and formatted, whether all of them are formatted already, and the lines
  -- with the paths of those that are not.
  abbrev pub AllFormatted : System → ℤ → Bool → List Text → List InputFile → Type 0
  AllFormatted system tab_size all lines [] = (all ≡ true) × (lines ≡ [])
  AllFormatted system tab_size all lines (f ∷ fs) =
      (b : Bool) × (rest : Bool) × (further : List Text) × (is_formatted system tab_size f ≡ some b)
      × AllFormatted system tab_size rest further fs
      × (all ≡ (b && rest))
      × (lines ≡ listed f.path b ++ further)

  -- Writing the lines to the standard output, and nothing else, leads from one state to another.
  pub data Printed : W → List Text → W → Type 0 where
    nothing_printed : {w : W} → Printed w [] w
    prints_more :
        {w w' : W} {lines : List Text} (text : Text)
        → Printed (around.print w text).0 lines w'
        → Printed w (text ∷ lines) w'

  Printed-trans :
      {w₁ w₂ w₃ : W} {lines more : List Text}
      → Printed w₁ lines w₂
      → Printed w₂ more w₃
      → Printed w₁ (lines ++ more) w₃
  Printed-trans nothing_printed q = q
  Printed-trans (prints_more text p) q = prints_more text (Printed-trans p q)

  -- The path of a file cannot be written, in some state that writing leads to.
  abbrev pub Unlisted : W → Text → Type 0
  Unlisted w path =
      (w₁ : W) × (lines : List Text) × Printed w lines w₁
      × ((around.print w₁ (path ++ codes "\n")).1 ≡ false)

  -- What goes wrong with the n-th file: the context is cancelled, the file cannot be read or formatted,
  -- or it is not formatted and its path cannot be written.
  abbrev pub Trouble : W → ℕ → Text → Option Bool → Type 0
  Trouble w n path o =
      (around.cancelled n ≡ true) ⊎ ((o ≡ none) ⊎ ((o ≡ some false) × Unlisted w path))

  -- Something goes wrong with one of several files.
  abbrev pub AnyTrouble : System → W → ℤ → ℕ → List InputFile → Type 0
  AnyTrouble system w tab_size n [] = ⊥
  AnyTrouble system w tab_size n (f ∷ fs) =
      Trouble w n f.path (is_formatted system tab_size f) ⊎ AnyTrouble system w tab_size (n + 1) fs

  AnyTrouble-before :
      (system : System) (w w₁ : W) (tab_size : ℤ) (n : ℕ) (fs : List InputFile) {lines : List Text}
      → Printed w lines w₁
      → AnyTrouble system w₁ tab_size n fs
      → AnyTrouble system w tab_size n fs
  AnyTrouble-before system w w₁ tab_size n [] p t = t
  AnyTrouble-before system w w₁ tab_size n (f ∷ fs) p t = elim t [
    | inl (inl c) ↦ inl (inl c)
    | inl (inr (inl none_formatted)) ↦ inl (inr (inl none_formatted))
    | inl (inr (inr (o, (w₂, more, q, e)))) ↦ inl (inr (inr (o, (w₂, _, Printed-trans p q, e))))
    | inr later ↦ inr (AnyTrouble-before system w w₁ tab_size (n + 1) fs p later)
  ]

  -- What a step of a check does: it only writes to the standard output; if the command goes on, this is
  -- the file's path if it is not formatted, and then the exit code is one from now on; and if not,
  -- there is trouble with the file.
  abbrev IsChecked : ℕ → W → Findings → Text → Option Bool → ToolStep around → Type 0
  IsChecked n w s path o (w', none) =
      ((lines : List Text) × Printed w lines w') × Trouble w n path o
  IsChecked n w s path o (w', some s') =
      (b : Bool) × Printed w (listed path b) w'
      × (o ≡ some b)
      × (around.system_of w' ≡ around.system_of w)
      × (s'.exit_code ≡ (if b then s.exit_code else 1))

  -- The same of several files.
  abbrev pub AreChecked : ℕ → W → Findings → ℤ → List InputFile → ToolStep around → Type 0
  AreChecked n w s tab_size fs (w', none) =
      ((lines : List Text) × Printed w lines w') × AnyTrouble (around.system_of w) w tab_size n fs
  AreChecked n w s tab_size fs (w', some s') =
      (all : Bool) × (lines : List Text) × Printed w lines w'
      × AllFormatted (around.system_of w) tab_size all lines fs
      × (s'.exit_code ≡ (if all then s.exit_code else 1))

  either_code :
      (a b : Bool) (n : ℕ) → (if b then (if a then n else 1) else 1) ≡ (if a && b then n else 1)
  either_code true true n = refl
  either_code true false n = refl
  either_code false true n = refl
  either_code false false n = refl

  module _
      (prints : (w : W) (t : Text)
        → around.system_of (around.print w t).0 ≡ around.system_of w) where
    printed-Checked :
        (n : ℕ) (w : W) (s : Findings) (path : Text) (m : W × Bool)
        → around.print w (path ++ codes "\n") ≡ m
        → IsChecked n w s path (some false) (printed around m (record s { exit_code = 1 }))
    printed-Checked n w s path m e = go m e
      where
        text : Text
        text = path ++ codes "\n"

        one : (m : W × Bool) → around.print w text ≡ m → Printed w (text ∷ []) m.0
        one m e = subst (λ z. Printed w (text ∷ []) z.0) e (prints_more text nothing_printed)

        go :
            (m : W × Bool)
            → around.print w text ≡ m
            → IsChecked n w s path (some false) (printed around m (record s { exit_code = 1 }))
        go (w₁, true) e = (
          false,
          one (w₁, true) e,
          refl,
          ap (λ z. around.system_of z.0) (sym e) ∙ prints w text,
          refl,
        )
        go (w₁, false) e =
            ((_, one (w₁, false) e), inr (inr (refl, (w, _, nothing_printed, ap (λ z. z.1) e))))

    module _ (opts : CommandOptions) (write : opts.write ≡ false) (check : opts.check ≡ true) where
      format_done-Checked :
          (n : ℕ) (w : W) (s : Findings) (path text : Text) (o : Option Text)
          → IsChecked n w s path (formatted_as text o) (format_done around w opts s path text o)
      format_done-Checked n w s path text none = ((_, nothing_printed), inr (inl refl))
      format_done-Checked n w s path text (some formatted) =
          rw (write, check)
            (elim (Bool-cases (text_eq formatted text)) [
              | inl e ↦ rw e (true, nothing_printed, refl, refl, refl)
              | inr e ↦ rw e (printed-Checked n w s path (around.print w (path ++ codes "\n")) refl)
            ])

      handle_text-Checked :
          (n : ℕ) (w : W) (s : Findings) (path : Text) (r : Result FilesError Text)
          → IsChecked n w s path
              (formatted_text opts.tab_size path r)
              (handle_text around fmt w opts s path r)
      handle_text-Checked n w s path (err _) = ((_, nothing_printed), inr (inl refl))
      handle_text-Checked n w s path (ok text) =
          format_done-Checked n w s path text (around.tool_format path text opts.tab_size)

      handle_input-Checked :
          (n : ℕ) (w : W) (s : Findings) (f : InputFile)
          → IsChecked n w s f.path
              (is_formatted (around.system_of w) opts.tab_size f)
              (handle_input around fmt opts n w s f)
      unfolding handle_input
      handle_input-Checked n w s f = elim (Bool-cases (around.cancelled n)) [
        | inl e ↦ rw e ((_, nothing_printed), inl e)
        | inr e ↦
            let read = read_input (around.system_of w) around.names f in
            let checked = handle_text-Checked n w s f.path read in
            subst
              (λ c.
                IsChecked n w s f.path (is_formatted (around.system_of w) opts.tab_size f)
                  (if c then (w, none) else handle_text around fmt w opts s f.path read))
              (sym e) checked
      ]

      first_then :
          (n : ℕ) (w : W) (s : Findings) (f : InputFile) (fs : List InputFile)
          (step : ToolStep around)
          → IsChecked n w s f.path (is_formatted (around.system_of w) opts.tab_size f) step
          → ((w₁ : W) (s₁ : Findings)
              → AreChecked
                  (n + 1)
                  w₁
                  s₁
                  opts.tab_size
                  fs
                  (handle_inputs around fmt opts (n + 1) w₁ s₁ fs))
          → AreChecked n w s opts.tab_size
              (f ∷ fs)
              (and_next around step (λ w' s'. handle_inputs around fmt opts (n + 1) w' s' fs))
      first_then n w s f fs (w₁, none) (p, t) further = (p, inl t)
      first_then n w s f fs (w₁, some s₁) (b, p, e, same, code) further =
          both (handle_inputs around fmt opts (n + 1) w₁ s₁ fs) (further w₁ s₁)
        where
          both :
              (step : ToolStep around)
              → AreChecked (n + 1) w₁ s₁ opts.tab_size fs step
              → AreChecked n w s opts.tab_size (f ∷ fs) step
          both (w', none) ((more, q), t) = (
            (_, Printed-trans p q),
            inr (
                AnyTrouble-before (around.system_of w) w w₁ opts.tab_size (n + 1) fs p
                  (subst (λ y. AnyTrouble y w₁ opts.tab_size (n + 1) fs) same t)),
          )
          both (w', some s') (rest, more, q, all, code') = (
            b && rest,
            listed f.path b ++ more,
            Printed-trans p q,
            (
              b,
              rest,
              more,
              e,
              subst (λ y. AllFormatted y opts.tab_size rest more fs) same all,
              refl,
              refl,
            ),
            code' ∙ ap (λ n. if rest then n else 1) code ∙ either_code b rest s.exit_code,
          )

      pub handle_inputs-Checked :
          (n : ℕ) (w : W) (s : Findings) (fs : List InputFile)
          → AreChecked n w s opts.tab_size fs (handle_inputs around fmt opts n w s fs)
      unfolding handle_inputs
      handle_inputs-Checked n w s [] = (true, [], nothing_printed, (refl, refl), refl)
      handle_inputs-Checked n w s (f ∷ fs) =
          first_then n w s f fs (handle_input around fmt opts n w s f)
            (handle_input-Checked n w s f) (λ w₁ s₁. handle_inputs-Checked (n + 1) w₁ s₁ fs)
