-- ===== src/Cli/Discovery/Cached.antt =====
-- The answers of discovery.go do not depend on what it keeps.
use bloblang_lsp.Common.{
  Text, Bool, true, false, not, ◌&&◌, none, List, [], ◌∷◌, if◌then◌else◌, codes, text_eq,
  text_is_eq, ◌≡◌, refl, Bool-cases, inl, inr, All,
}
use bloblang_lsp.Common.Strings.{is_nil}
use bloblang_lsp.Common.Result.{Result, ok, err, ◌>>=◌}
use bloblang_lsp.Cli.Discovery.{
  System, DirectorySettings, DiscoveryPolicy, DiscoveryError, IgnoreRule, Descent, stopped, reached,
  load_settings, ignore_file, add_rule, with_file, add_rules, ignored_entry, enter_dir, descend,
  verdict, up_to, boundary_of, judge, root_of, ignored, check_file, validate_dir,
}
use bloblang_lsp.Cli.Discovery.Kept.{
  Joined, IsConsistent, Gives, Gives-bind, read_ignore, settings_for-Gives, ignore_file-Gives,
}

module _ (system : System) where
  -- The same without a policy that keeps anything.
  abbrev read_file : Text → Text → Bool → List IgnoreRule → Result DiscoveryError (List IgnoreRule)
  read_file dir name git rules =
      read_ignore system dir name >>= λ m. ok (add_rule system git rules m)

  abbrev read_rules : Text → DirectorySettings → List IgnoreRule → Result DiscoveryError Descent
  read_rules dir s rules = do
    rules₁ ← if s.respect_gitignore then read_file dir (codes ".gitignore") true rules else ok rules
    rules₂ ← read_file dir (codes ".bloblangignore") false rules₁
    ok (reached s rules₂)

  abbrev read_enter : Bool → Text → Descent → Result DiscoveryError Descent
  read_enter top dir stopped = ok stopped
  read_enter top dir (reached s rules) =
      if not top && ignored_entry system s rules dir true
      then ok stopped
      else load_settings system dir >>= λ s'. read_rules dir s' rules

  abbrev read_down : List Text → Result DiscoveryError Descent
  read_down [] = ok (reached (record { respect_gitignore = false; excludes = none }) [])
  read_down (dir ∷ dirs) = read_down dirs >>= λ way. read_enter (is_nil dirs) dir way

  abbrev read_verdict : Text → Text → Bool → Result DiscoveryError Bool
  read_verdict base path is_directory = do
    boundary ← boundary_of system base (system.dir_of path)
    way ← read_down (up_to system boundary (system.paths.parents (system.dir_of path)))
    ok (verdict system way path is_directory)

  -- The answer for an entry, from the files alone.
  unfoldable pub ignored_afresh : Text → Bool → Text → Bool → Result DiscoveryError Bool
  unfolding boundary_of ignored_entry load_settings
  ignored_afresh base no_ignore path is_directory =
      if is_directory && text_eq (root_of system path) path
      then ok false
      else if no_ignore
      then ok false
      else read_verdict base path is_directory

  abbrev read_check : Text → Text → Result DiscoveryError (Unit {0})
  read_check dir name = read_ignore system dir name >>= λ _. ok tt

  unfoldable pub validated_afresh : Bool → Text → Result DiscoveryError (Unit {0})
  unfolding load_settings
  validated_afresh no_ignore dir = do
    s ← load_settings system dir
    _ ← if not no_ignore && s.respect_gitignore then read_check dir (codes ".gitignore") else ok tt
    if not no_ignore then read_check dir (codes ".bloblangignore") else ok tt

  with_file-Gives :
      (p : DiscoveryPolicy) (dir name : Text) (git : Bool) (rules : List IgnoreRule)
      → system.dir_of (system.paths.join_path dir name) ≡ dir
      → IsConsistent system p
      → Gives system p (with_file system p dir name git rules) (read_file dir name git rules)
  with_file-Gives p dir name git rules joined kept =
      Gives-bind system p (ignore_file system p dir name) (read_ignore system dir name)
        (λ (m, p'). ok (add_rule system git rules m, p')) (λ m. ok (add_rule system git rules m))
        (ignore_file-Gives system p dir name joined kept)
        (λ m p' kept' b n. (refl, kept', refl, refl))

  -- A part that is left out under a condition.
  Gives-if :
      {A : Type 0} (b : Bool) (p : DiscoveryPolicy)
      (m : Result DiscoveryError (A × DiscoveryPolicy)) (r : Result DiscoveryError A) (a : A)
      → IsConsistent system p
      → Gives system p m r
      → Gives system p (if b then m else ok (a, p)) (if b then r else ok a)
  Gives-if true p m r a kept h = h
  Gives-if false p m r a kept h = (refl, kept, refl, refl)

  add_rules-Gives :
      (p : DiscoveryPolicy) (dir : Text) (s : DirectorySettings) (rules : List IgnoreRule)
      → (Joined system) dir
      → IsConsistent system p
      → Gives system p (add_rules system p dir s rules) (read_rules dir s rules)
  unfolding add_rules
  add_rules-Gives p dir s rules joined kept =
      Gives-bind system p _ _ _ _
        (Gives-if s.respect_gitignore p _ _ rules kept
          (with_file-Gives p dir (codes ".gitignore") true rules joined.0 kept))
        (λ rules₁ p₁ kept₁ _ _.
          Gives-bind system p₁ _ _ _ _
            (with_file-Gives p₁ dir (codes ".bloblangignore") false rules₁ joined.1 kept₁)
            (λ rules₂ p₂ kept₂ _ _. (refl, kept₂, refl, refl)))

  enter_dir-Gives :
      (p : DiscoveryPolicy) (top : Bool) (dir : Text) (way : Descent)
      → (Joined system) dir
      → IsConsistent system p
      → Gives system p (enter_dir system top dir way p) (read_enter top dir way)
  enter_dir-Gives p top dir stopped joined kept = (refl, kept, refl, refl)
  enter_dir-Gives p top dir (reached s rules) joined kept =
      elim (Bool-cases (not top && ignored_entry system s rules dir true)) [
        | inl e ↦ rw e (refl, kept, refl, refl)
        | inr e ↦ rw e (
            Gives-bind system p _ _ _ _ (settings_for-Gives system p dir kept)
              (λ s' p' kept' _ _. add_rules-Gives p' dir s' rules joined kept'))
      ]

  descend-Gives :
      (p : DiscoveryPolicy) (dirs : List Text)
      → All (Joined system) dirs
      → IsConsistent system p
      → Gives system p (descend system p dirs) (read_down dirs)
  unfolding descend
  descend-Gives p [] joined kept = (refl, kept, refl, refl)
  descend-Gives p (dir ∷ dirs) joined kept =
      Gives-bind system p _ _ _ _ (descend-Gives p dirs joined.1 kept)
        (λ way p' kept' _ _. enter_dir-Gives p' (is_nil dirs) dir way joined.0 kept')

  up_to-Joined :
      (boundary : Text) (ds : List Text)
      → All (Joined system) ds
      → All (Joined system) (up_to system boundary ds)
  up_to-Joined boundary [] h = tt
  up_to-Joined boundary (d ∷ ds) h = elim (Bool-cases (text_eq d boundary)) [
    | inl e ↦ rw e (h.0, tt)
    | inr e ↦ rw e (h.0, up_to-Joined boundary ds h.1)
  ]

  judge-Gives :
      (p : DiscoveryPolicy) (path : Text) (is_directory : Bool)
      → All (Joined system) (system.paths.parents (system.dir_of path))
      → IsConsistent system p
      → Gives system p (judge system p path is_directory) (read_verdict p.base path is_directory)
  unfolding judge
  judge-Gives p path is_directory joined kept = on (boundary_of system p.base (system.dir_of path))
    where
      on :
          (boundary : Result DiscoveryError Text)
          → Gives system p
              (boundary >>= λ b.
                descend system p (up_to system b (system.paths.parents (system.dir_of path)))
                >>= λ (way, p'). ok (verdict system way path is_directory, p'))
              (boundary >>= λ b.
                read_down (up_to system b (system.paths.parents (system.dir_of path))) >>= λ way.
                ok (verdict system way path is_directory))
      on (err e) = refl
      on (ok b) =
          Gives-bind system p _ _ _ _
            (descend-Gives p _ (up_to-Joined b (system.paths.parents (system.dir_of path)) joined)
              kept)
            (λ way p' kept' _ _. (refl, kept', refl, refl))

  check_file-Gives :
      (p : DiscoveryPolicy) (dir name : Text)
      → system.dir_of (system.paths.join_path dir name) ≡ dir
      → IsConsistent system p
      → Gives system p (check_file system p dir name) (read_check dir name)
  check_file-Gives p dir name joined kept =
      Gives-bind system p _ _ _ _ (ignore_file-Gives system p dir name joined kept)
        (λ _ p' kept' _ _. (refl, kept', refl, refl))

  pub validate_dir-Gives :
      (p : DiscoveryPolicy) (dir : Text)
      → (Joined system) dir
      → IsConsistent system p
      → Gives system p (validate_dir system p dir) (validated_afresh p.no_ignore dir)
  unfolding validate_dir validated_afresh
  validate_dir-Gives p dir joined kept =
      Gives-bind system p _ _ _ _ (settings_for-Gives system p dir kept) (λ s p₁ kept₁ _ _.
        Gives-bind system p₁ _ _ _ _
          (Gives-if (not p.no_ignore && s.respect_gitignore) p₁ _ _ tt kept₁
            (check_file-Gives p₁ dir (codes ".gitignore") joined.0 kept₁))
          (λ _ p₂ kept₂ _ _.
            Gives-if (not p.no_ignore) p₂ _ _ tt kept₂
              (check_file-Gives p₂ dir (codes ".bloblangignore") joined.1 kept₂)))

-- Whether an entry is ignored depends on the files alone: a policy that keeps what it would read gives
-- the answer, or the error, of reading everything again, and afterwards it still keeps only that.
pub ignored-Gives :
    (system : System) (p : DiscoveryPolicy) (path : Text) (is_directory : Bool)
    → All (Joined system) (system.paths.parents (system.dir_of path))
    → IsConsistent system p
    → Gives system p
        (ignored system p path is_directory)
        (ignored_afresh system p.base p.no_ignore path is_directory)
unfolding ignored ignored_afresh
ignored-Gives system p path is_directory joined kept =
    elim (Bool-cases (is_directory && text_eq (root_of system path) path)) [
      | inl e ↦ rw e (refl, kept, refl, refl)
      | inr e ↦ elim (Bool-cases p.no_ignore) [
        | inl f ↦ simp (e, f) (refl, kept, refl, refl)
        | inr f ↦ simp (e, f) (judge-Gives system p path is_directory joined kept)
      ]
    ]
