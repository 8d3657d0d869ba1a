-- ===== src/Cli/Replace/Whole.antt =====
-- replaceFile leaves every file whole, whichever of its steps fails.
use bloblang_lsp.Common.{
  ℕ, Text, Bool, true, false, Option, none, some, [], text_eq, text_eq_iff, ◌≡◌, ◌≢◌, refl, sym, ap,
  ◌∙◌, subst, Bool-cases, inl, inr,
}
use bloblang_lsp.Common.Result.{Result, ok, err, ◌>>=◌, >>=-eq-ok}
use bloblang_lsp.Cli.Replace.{
  FileInfo, FileSystem, ReplaceError, Outcome, unless_symlink, only_regular, if_unchanged, inspect,
  and_then, same_file, finish_rename, rename_if, rename_unchanged, fill_temp, clean_up, with_temp,
  replace_if, replace_at, target_of, replace_target, replace_file, not_written, not_finished,
}

-- What the operations do to the contents of files, while no other process touches them and no file
-- has two names, so that a name stands for the file itself: a temporary
-- file is new and empty, it can be written to, and only a rename changes another file.
pub record Behaves {W : Type 0} (fs : FileSystem W) (content : W → Text → Option Text)
    : Type 0 where
  pub reads : (w : W) (f s : Text) → fs.read w f ≡ some s → content w f ≡ some s
  pub makes_new : (w : W) (dir t : Text) → (fs.create_temp w dir).1 ≡ some t → content w t ≡ none
  pub makes_empty :
      (w : W) (dir t : Text)
      → (fs.create_temp w dir).1 ≡ some t
      → content (fs.create_temp w dir).0 t ≡ some []
  pub makes_only :
      (w : W) (dir f s : Text) → content w f ≡ some s → content (fs.create_temp w dir).0 f ≡ some s
  pub writes :
      (w : W) (t s : Text)
      → content w t ≡ some []
      → (fs.write w t s).1 ≡ true
      → content (fs.write w t s).0 t ≡ some s
  pub writes_only : (w : W) (t s f : Text) → f ≢ t → content (fs.write w t s).0 f ≡ content w f
  pub chmods : (w : W) (t : Text) (m : ℕ) (f : Text) → content (fs.chmod w t m).0 f ≡ content w f
  pub syncs : (w : W) (t f : Text) → content (fs.sync w t).0 f ≡ content w f
  pub closes : (w : W) (t f : Text) → content (fs.close w t).0 f ≡ content w f
  pub renames :
      (w : W) (t p : Text)
      → (fs.rename w t p).1 ≡ true
      → content (fs.rename w t p).0 p ≡ content w t
  pub renames_only :
      (w : W) (t p f : Text) → f ≢ t → f ≢ p → content (fs.rename w t p).0 f ≡ content w f
  pub renames_or_fails :
      (w : W) (t p f : Text)
      → (fs.rename w t p).1 ≡ false
      → content (fs.rename w t p).0 f ≡ content w f
  pub removes_only : (w : W) (t f : Text) → f ≢ t → content (fs.remove w t) f ≡ content w f

module _ {W : Type 0} (fs : FileSystem W) (content : W → Text → Option Text) where
  -- All files but one stay as they are.
  abbrev KeepsBut : Text → W → W → Type 0
  KeepsBut t w w' = (f s : Text) → f ≢ t → content w f ≡ some s → content w' f ≡ some s

  -- With an error every file is as it was. Else the target, which had the original text, has the
  -- replacement, and every other file is as it was.
  abbrev pub IsWhole : W → Option Text → Text → Text → Outcome fs → Type 0
  IsWhole w target original replacement (w', some e) =
      (f s : Text) → content w f ≡ some s → content w' f ≡ some s
  IsWhole w none original replacement (w', none) = ⊥
  IsWhole w (some target) original replacement (w', none) =
      (content w target ≡ some original)
      × (content w' target ≡ some replacement)
      × KeepsBut target w w'

  -- The same from where the temporary file is there.
  abbrev IsFilled : W → Text → Text → Text → Outcome fs → Type 0
  IsFilled w temp path replacement (w', some e) = KeepsBut temp w w'
  IsFilled w temp path replacement (w', none) =
      (content w' path ≡ some replacement)
      × ((f s : Text) → f ≢ temp → f ≢ path → content w f ≡ some s → content w' f ≡ some s)

  and_then-IsFilled :
      (w : W) (temp path replacement : Text) (m : W × Bool) (e : ReplaceError)
      (next : W → Outcome fs)
      → KeepsBut temp w m.0
      → (m.1 ≡ true → IsFilled w temp path replacement (next m.0))
      → IsFilled w temp path replacement (and_then fs m e next)
  and_then-IsFilled w temp path replacement (w₁, true) e next keeps done = done refl
  and_then-IsFilled w temp path replacement (w₁, false) e next keeps done = keeps

  module _ (behaves : Behaves fs content) where
    rename_if-IsFilled :
        (w w₄ : W) (temp path replacement : Text) (before : FileInfo)
        (r : Result ReplaceError FileInfo)
        → KeepsBut temp w w₄
        → content w₄ temp ≡ some replacement
        → IsFilled w temp path replacement (rename_if fs w₄ temp path before r)
    rename_if-IsFilled w w₄ temp path replacement before (err e) keeps full = keeps
    rename_if-IsFilled w w₄ temp path replacement before (ok after) keeps full =
        elim (Bool-cases (same_file fs before after)) [
          | inl h ↦ rw h (renamed (fs.rename w₄ temp path) refl)
          | inr h ↦ rw h keeps
        ]
      where
        renamed :
            (m : W × Bool)
            → fs.rename w₄ temp path ≡ m
            → IsFilled w temp path replacement (finish_rename fs m)
        renamed (w', true) e = (
          subst (λ m. (m.1 ≡ true) → content m.0 path ≡ some replacement) e
              (λ h. behaves.renames w₄ temp path h ∙ full) refl,
          λ f s other elsewhere old.
              subst (λ m. content m.0 f ≡ some s) e
                (behaves.renames_only w₄ temp path f other elsewhere ∙ keeps f s other old),
        )
        renamed (w', false) e = λ f s other old.
            subst (λ m. (m.1 ≡ false) → content m.0 f ≡ some s) e
              (λ h. behaves.renames_or_fails w₄ temp path f h ∙ keeps f s other old) refl

    fill_temp-IsFilled :
        (w : W) (temp path replacement : Text) (before : FileInfo)
        → content w temp ≡ some []
        → IsFilled w temp path replacement (fill_temp fs w temp path before replacement)
    unfolding fill_temp rename_unchanged
    fill_temp-IsFilled w temp path replacement before empty =
        let w₁ = (fs.write w temp replacement).0 in
        let w₂ = (fs.chmod w₁ temp before.mode).0 in
        let w₃ = (fs.sync w₂ temp).0 in
        let w₄ = (fs.close w₃ temp).0 in
        let k₁ : KeepsBut temp w w₁ =
          λ f s other old. behaves.writes_only w temp replacement f other ∙ old in
        let k₂ : KeepsBut temp w w₂ =
          λ f s other old. behaves.chmods w₁ temp before.mode f ∙ k₁ f s other old in
        let k₃ : KeepsBut temp w w₃ = λ f s other old. behaves.syncs w₂ temp f ∙ k₂ f s other old in
        let k₄ : KeepsBut temp w w₄ =
          λ f s other old. behaves.closes w₃ temp f ∙ k₃ f s other old in
        and_then-IsFilled w temp path replacement (fs.write w temp replacement) not_written _ k₁
          (λ h.
            and_then-IsFilled w temp path replacement (fs.chmod w₁ temp before.mode) not_finished _
              k₂
              (λ _.
                and_then-IsFilled w temp path replacement (fs.sync w₂ temp) not_finished _ k₃ (λ _.
                  and_then-IsFilled w temp path replacement (fs.close w₃ temp) not_finished _ k₄
                    (λ _.
                      rename_if-IsFilled w w₄ temp path replacement before
                        (unless_symlink fs (fs.lstat w₄ path)) k₄
                        (behaves.closes w₃ temp temp
                          ∙ behaves.syncs w₂ temp temp
                          ∙ behaves.chmods w₁ temp before.mode temp
                          ∙ behaves.writes w temp replacement empty h)))))

    -- A file that was there is not the new one.
    old-not-new :
        (w : W) (dir temp f s : Text)
        → (fs.create_temp w dir).1 ≡ some temp
        → content w f ≡ some s
        → f ≢ temp
    old-not-new w dir temp f s made old same =
        absurd (cc (sym old ∙ ap (content w) same ∙ behaves.makes_new w dir temp made))

    clean_up-IsWhole :
        (w : W) (temp path original replacement : Text) (o : Outcome fs)
        → (fs.create_temp w (fs.dir_of path)).1 ≡ some temp
        → content w path ≡ some original
        → IsFilled (fs.create_temp w (fs.dir_of path)).0 temp path replacement o
        → IsWhole w (some path) original replacement (clean_up fs temp o)
    clean_up-IsWhole w temp path original replacement (w', some e) made was filled = λ f s old.
        let new = old-not-new w (fs.dir_of path) temp f s made old in
        behaves.removes_only (fs.close w' temp).0 temp f new
        ∙ behaves.closes w' temp f
        ∙ filled f s new (behaves.makes_only w (fs.dir_of path) f s old)
    clean_up-IsWhole w temp path original replacement (w', none) made was filled = (
      was,
      behaves.removes_only (fs.close w' temp).0 temp path
            (old-not-new w (fs.dir_of path) temp path original made was)
          ∙ behaves.closes w' temp path
          ∙ filled.0,
      λ f s other old.
          let new = old-not-new w (fs.dir_of path) temp f s made old in
          behaves.removes_only (fs.close w' temp).0 temp f new
          ∙ behaves.closes w' temp f
          ∙ filled.1 f s new other (behaves.makes_only w (fs.dir_of path) f s old),
    )

    with_temp-IsWhole :
        (w : W) (path original replacement : Text) (before : FileInfo) (m : W × Option Text)
        → fs.create_temp w (fs.dir_of path) ≡ m
        → content w path ≡ some original
        → IsWhole w (some path) original replacement (with_temp fs m path before replacement)
    with_temp-IsWhole w path original replacement before (w₁, none) made was = λ f s old.
        ap (λ m. content m.0 f) (sym made) ∙ behaves.makes_only w (fs.dir_of path) f s old
    with_temp-IsWhole w path original replacement before (w₁, some temp) made was =
        let is_new : (fs.create_temp w (fs.dir_of path)).1 ≡ some temp = ap (λ m. m.1) made in
        clean_up-IsWhole w temp path original replacement
          (fill_temp fs w₁ temp path before replacement) is_new was
          (subst
            (λ w₂. IsFilled w₂ temp path replacement (fill_temp fs w₁ temp path before replacement))
            (sym (ap (λ m. m.0) made))
            (fill_temp-IsFilled w₁ temp path replacement before (
              ap (λ m. content m.0 temp) (sym made)
              ∙ behaves.makes_empty w (fs.dir_of path) temp is_new)))

    -- What is inspected without an error is the original text.
    inspect-content :
        (w : W) (path original : Text) {before : FileInfo}
        → inspect fs w path original ≡ ok before
        → content w path ≡ some original
    unfolding inspect
    inspect-content w path original h =
        let next : FileInfo → Result ReplaceError FileInfo =
          λ before. if_unchanged fs original before (fs.read w path) in
        let (info, _, h₁) =
          >>=-eq-ok (unless_symlink fs (fs.lstat w path)) (λ info. only_regular fs info >>= next)
            h in
        let (before, _, h₂) = >>=-eq-ok (only_regular fs info) next h₁ in
        unchanged before (fs.read w path) refl h₂
      where
        unchanged :
            (before : FileInfo) (o : Option Text) {after : FileInfo}
            → fs.read w path ≡ o
            → if_unchanged fs original before o ≡ ok after
            → content w path ≡ some original
        unchanged before none e = λ h. absurd cc
        unchanged before (some s) e = elim (Bool-cases (text_eq s original)) [
          | inl same ↦ λ h. behaves.reads w path s e ∙ ap some ((text_eq_iff s original).0 same)
          | inr other ↦ rw other (λ h. absurd cc)
        ]

    replace_if-IsWhole :
        (w : W) (path original replacement : Text) (r : Result ReplaceError FileInfo)
        → inspect fs w path original ≡ r
        → IsWhole w (some path) original replacement (replace_if fs w path replacement r)
    replace_if-IsWhole w path original replacement (err e) h = λ f s old. old
    replace_if-IsWhole w path original replacement (ok before) h =
        with_temp-IsWhole w path original replacement before (fs.create_temp w (fs.dir_of path))
          refl (inspect-content w path original h)

    replace_target-IsWhole :
        (w : W) (target : Option Text) (original replacement : Text)
        → IsWhole w target original replacement (replace_target fs w target original replacement)
    unfolding replace_at
    replace_target-IsWhole w none original replacement = λ f s old. old
    replace_target-IsWhole w (some target) original replacement =
        replace_if-IsWhole w target original replacement (inspect fs w target original) refl

-- While no other process touches the files and no file has two names, and whichever steps fail: with an
-- error every file is as it was; without one the file had the original text, has the whole replacement,
-- and every other file is as it was.
pub replace_file-IsWhole :
    {W : Type 0} (fs : FileSystem W) (content : W → Text → Option Text)
    → Behaves fs content
    → (w : W) (path original replacement : Text)
    → IsWhole fs content w
        (target_of fs w path)
        original
        replacement
        (replace_file fs w path original replacement)
unfolding replace_file
replace_file-IsWhole fs content behaves w path original replacement =
    replace_target-IsWhole fs content behaves w (target_of fs w path) original replacement
