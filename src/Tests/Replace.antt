-- ===== src/Tests/Replace.antt =====
-- replaceFile of internal/cli/files.go over a map from names to texts.
use bloblang_lsp.Common.{
  Text, Bool, true, false, Option, none, some, [], codes, text_eq, text_eq_iff, text_eq_refl,
  text_is_eq, ◌≡◌, ◌≢◌, refl, sym, ap, subst, ◌∙◌, Bool-cases, inl, inr,
}
use bloblang_lsp.Common.Dict.{updated}
use bloblang_lsp.Cli.Replace.{
  regular_file, FileInfo, FileSystem, replace_file, replace_at, inspect, fill_temp,
  rename_unchanged,
}
use bloblang_lsp.Cli.Replace.Whole.{Behaves, IsWhole, replace_file-IsWhole}

abbrev pub Files : Type 0
Files = Text → Option Text

abbrev info : FileInfo
info = record { kind = regular_file; mode = 420; size = 1; modified = 0; identity = 7 }

abbrev temp : Text
temp = codes "temp"

abbrev has : Option Text → Bool
has none = false
has (some _) = true

abbrev info_of : Option Text → Option FileInfo
info_of none = none
info_of (some _) = some info

abbrev make : Files → Option Text → Files × Option Text
make w none = (updated w temp (some []), some temp)
make w (some _) = (w, none)

abbrev pub files : FileSystem Files
files = record {
  dir_of = λ _. [];
  base_name = λ f. f;
  join_path = λ _ f. f;
  eval_symlinks = λ _ d. some d;
  lstat = λ w f. info_of (w f);
  read = λ w f. w f;
  create_temp = λ w _. make w (w temp);
  write = λ w t s. (updated w t (some s), true);
  chmod = λ w _ _. (w, true);
  sync = λ w _. (w, true);
  close = λ w _. (w, true);
  rename = λ w t p. (updated (updated w t none) p (w t), true);
  remove = λ w t. updated w t none;
}

elsewhere : (w : Files) (t f : Text) (v : Option Text) → f ≢ t → updated w t v f ≡ w f
elsewhere w t f v other = elim (Bool-cases (text_eq t f)) [
  | inl h ↦ absurd (other (sym ((text_eq_iff t f).0 h)))
  | inr h ↦ rw h refl
]

here : (w : Files) (t : Text) (v : Option Text) → updated w t v t ≡ v
here w t v = rw (text_eq_refl t) refl

made :
    (w : Files) (o : Option Text) (t : Text)
    → w temp ≡ o
    → (make w o).1 ≡ some t
    → (w t ≡ none) × ((make w o).0 t ≡ some [])
made w none t e h =
    subst (λ x. (w x ≡ none) × (updated w temp (some []) x ≡ some [])) (cc h)
      (e, here w temp (some []))
made w (some _) t e h = absurd cc

only :
    (w : Files) (o : Option Text) (f s : Text) → w temp ≡ o → w f ≡ some s → (make w o).0 f ≡ some s
only w none f s e h = elsewhere w temp f (some []) (λ same. absurd (cc (ap w same, e, h))) ∙ h
only w (some _) f s e h = h

behaves : Behaves files (λ w f. w f)
behaves = record {
  reads = λ w f s h. h;
  makes_new = λ w dir t h. (made w (w temp) t refl h).0;
  makes_empty = λ w dir t h. (made w (w temp) t refl h).1;
  makes_only = λ w dir f s h. only w (w temp) f s refl h;
  writes = λ w t s empty h. here w t (some s);
  writes_only = λ w t s f other. elsewhere w t f (some s) other;
  chmods = λ w t m f. refl;
  syncs = λ w t f. refl;
  closes = λ w t f. refl;
  renames = λ w t p h. here (updated w t none) p (w t);
  renames_only = λ w t p f other different.
      elsewhere (updated w t none) p f (w t) different ∙ elsewhere w t f none other;
  renames_or_fails = λ w t p f h. absurd cc;
  removes_only = λ w t f other. elsewhere w t f none other;
}

abbrev pub one_file : Files
one_file = updated (λ _. none) (codes "a") (some (codes "old"))

-- The file gets its new text, and the temporary file is gone; a changed file is left alone.
replaced :
    (replace_file files one_file (codes "a") (codes "old") (codes "new")).0 (codes "a")
    ≡ some (codes "new")
unfolding replace_file replace_at inspect fill_temp rename_unchanged
replaced = refl

left_alone :
    (replace_file files one_file (codes "a") (codes "older") (codes "new")).0 (codes "a")
    ≡ some (codes "old")
unfolding replace_file replace_at inspect fill_temp rename_unchanged
left_alone = refl

replace_file-IsWhole_example :
    IsWhole files
      (λ w f. w f)
      one_file
      (some (codes "a"))
      (codes "old")
      (codes "new")
      (replace_file files one_file (codes "a") (codes "old") (codes "new"))
replace_file-IsWhole_example =
    replace_file-IsWhole files (λ w f. w f) behaves one_file (codes "a") (codes "old") (codes "new")
