-- ===== src/Cli/Files/Inputs.antt =====
-- collectInputs of internal/cli/files.go with its patterns: expandPaths and the filtered file system
-- that they are looked up in.
use bloblang_lsp.Common.{
  Text, Bool, true, false, not, ◌&&◌, ◌||◌, Option, none, some, List, [], ◌∷◌, ◌++◌, ◌==◌, ltb,
  if◌then◌else◌, codes, length, map, text_eq, text_is_eq,
}
use bloblang_lsp.Common.Sorting.{text_ltb, sort}
use bloblang_lsp.Common.Strings.{is_nil, split}
use bloblang_lsp.Common.Result.{Result, ok, err, ◌>>=◌, with_error}
use bloblang_lsp.Cli.Discovery.{
  Kind, nothing, failed, symlink, regular, directory, other, System, DiscoveryPolicy,
  DiscoveryError, new_discovery_policy, ignored, validate_dir, root_of,
}
use bloblang_lsp.Cli.Files.{
  InputFile, FilesError, unreachable, no_match, bad_pattern, failed_pattern, bad_argument,
  one_file_only, unread_input, DiscoveredTarget, Names, skipped_directory, collect_targets,
}

-- What a lookup in the filtered file system is refused with.
pub data LookupError : Type 0 where
  invalid missing broken : LookupError
  policy_error : DiscoveryError → LookupError

abbrev pub is_stdin : List Text → Bool
is_stdin [] = true
is_stdin (p ∷ []) = text_eq p (codes "-")
is_stdin (_ ∷ _ ∷ _) = false

module _ (system : System) (names : Names) where
  -- The directories from a base upwards, to its root.
  unfoldable skipped_above : Text → List Text → Bool
  skipped_above boundary [] = false
  skipped_above boundary (d ∷ ds) =
      let further = skipped_above boundary ds in
      if skipped_directory (names.base_name d)
      then true
      else if text_eq d boundary
      then false
      else further

  unfoldable hard_skipped_prefix : Text → Bool
  unfolding skipped_above
  hard_skipped_prefix base = skipped_above (root_of system base) (system.paths.parents base)

  abbrev check_kind : Kind → Text → Result LookupError (Unit {0}) → Result LookupError (Unit {0})
  check_kind nothing component rest = err broken
  check_kind failed component rest = err broken
  check_kind symlink component rest = err missing
  check_kind directory component rest = if skipped_directory component then err missing else rest
  check_kind regular component rest = rest
  check_kind other component rest = rest

  unfoldable check_components : Text → List Text → Result LookupError (Unit {0})
  check_components current [] = ok tt
  check_components current (component ∷ components) =
      let next = system.paths.join_path current component in
      check_kind (system.lstat next) component (check_components next components)

  -- `globFS.check`
  unfoldable check_name : Text → Text → Result LookupError (Unit {0})
  unfolding check_components split
  check_name root name =
      if not (names.valid_path name)
      then err invalid
      else if text_eq name (codes ".")
      then ok tt
      else check_components root (split b'/' name)

  -- `globFS.Open` and `Stat`, of what the file system gives for the name.
  abbrev open_file {ℓ} : {A : Type ℓ} → Text → Text → Option A → Result LookupError A
  open_file {A = A} root name file = check_name root name >>= λ _. given file
    where
      given : Option A → Result LookupError A
      given none = err broken
      given (some f) = ok f

  abbrev is_directory : Kind → Bool
  is_directory directory = true
  is_directory nothing = false
  is_directory failed = false
  is_directory symlink = false
  is_directory regular = false
  is_directory other = false

  abbrev is_link : Kind → Bool
  is_link symlink = true
  is_link nothing = false
  is_link failed = false
  is_link regular = false
  is_link directory = false
  is_link other = false

  abbrev prune : DiscoveryPolicy → DiscoveryPolicy
  prune p = record p { pruned = true }

  -- The entries of a directory, less what a walk must not enter.
  unfoldable filter_entries :
      Text
      → List (Text × Kind)
      → DiscoveryPolicy
      → Result DiscoveryError (List (Text × Kind) × DiscoveryPolicy)
  unfolding ignored
  filter_entries dir [] p = ok ([], p)
  filter_entries dir ((name, kind) ∷ entries) p =
      let rest = filter_entries dir entries p in
      let judged = do
        (b, p₁) ← ignored system p (system.paths.join_path dir name) (is_directory kind)
        (kept, p₂) ← filter_entries dir entries (if b then prune p₁ else p₁)
        ok (if b then kept else (name, kind) ∷ kept, p₂)
      in if is_link kind || (is_directory kind && skipped_directory name) then rest else judged

  -- `globFS.ReadDir`; the policy is always given.
  abbrev list_entries :
      Text
      → Option (List (Text × Kind))
      → DiscoveryPolicy
      → Result LookupError (List (Text × Kind) × DiscoveryPolicy)
  list_entries dir none p = err broken
  list_entries dir (some entries) p = with_error policy_error (filter_entries dir entries p)

  unfoldable read_dir :
      Text
      → Text
      → Option (List (Text × Kind))
      → DiscoveryPolicy
      → Result LookupError (List (Text × Kind) × DiscoveryPolicy)
  unfolding check_name filter_entries ignored validate_dir
  read_dir root name entries p =
      let dir = system.paths.join_path root (names.from_slash name) in
      do
        _ ← check_name root name
        (b, p₁) ← with_error policy_error (ignored system p dir true)
        if b
            then ok ([], prune p₁)
            else (with_error policy_error (validate_dir system p₁ dir) >>= λ (_, p₂).
                list_entries dir entries p₂)

  abbrev has_pattern : Text → Bool
  has_pattern [] = false
  has_pattern (c ∷ s) = (c == b'*' || (c == b'?' || (c == b'[' || c == b'{'))) || has_pattern s

  abbrev targets_of : DiscoveryPolicy → List Text → List DiscoveredTarget
  targets_of p matches = map (λ path. record { path = path; policy = some p }) matches

  abbrev found_targets :
      Text → List Text × DiscoveryPolicy → Result FilesError (List DiscoveredTarget)
  found_targets argument (matches, p) =
      if is_nil matches && not p.pruned then err (no_match argument) else ok (targets_of p matches)

  abbrev or_failed :
      Text → Option (List Text × DiscoveryPolicy) → Result FilesError (List Text × DiscoveryPolicy)
  or_failed argument none = err (failed_pattern argument)
  or_failed argument (some r) = ok r

  -- The matches below a base, by what is there.
  abbrev glob_at :
      Kind → Text → Text → Text → DiscoveryPolicy → Result FilesError (List Text × DiscoveryPolicy)
  glob_at failed argument base pattern p = err (unreachable base)
  glob_at directory argument base pattern p =
      if hard_skipped_prefix base
      then ok ([], p)
      else or_failed argument (names.glob p base pattern)
  glob_at nothing argument base pattern p = ok ([], p)
  glob_at symlink argument base pattern p = ok ([], p)
  glob_at regular argument base pattern p = ok ([], p)
  glob_at other argument base pattern p = ok ([], p)

  abbrev expand_pattern : Text → Bool → Text → Result FilesError (List DiscoveredTarget)
  expand_pattern argument no_ignore absolute =
      let (prefix, pattern) = names.split_pattern (system.to_slash absolute) in
      let base = names.from_slash prefix in
      let found =
        glob_at (system.lstat base) argument base pattern (new_discovery_policy base no_ignore) in
      if not (names.valid_pattern (system.to_slash absolute))
      then err (bad_pattern argument)
      else (found >>= λ r. found_targets argument r)

  -- An argument by what is there under its name; an error other than a missing file is one of the
  -- command.
  abbrev expand_kind : Kind → Text → Bool → Text → Result FilesError (List DiscoveredTarget)
  expand_kind failed argument no_ignore absolute = err (unreachable absolute)
  expand_kind nothing argument no_ignore absolute =
      if has_pattern argument
      then expand_pattern argument no_ignore absolute
      else err (unreachable absolute)
  expand_kind symlink argument no_ignore absolute =
      ok (record { path = absolute; policy = none } ∷ [])
  expand_kind regular argument no_ignore absolute =
      ok (record { path = absolute; policy = none } ∷ [])
  expand_kind directory argument no_ignore absolute =
      ok (record { path = absolute; policy = none } ∷ [])
  expand_kind other argument no_ignore absolute =
      ok (record { path = absolute; policy = none } ∷ [])

  abbrev or_bad_argument : Text → Option Text → Result FilesError Text
  or_bad_argument argument none = err (bad_argument argument)
  or_bad_argument argument (some path) = ok path

  unfoldable expand_paths : List Text → Bool → Result FilesError (List DiscoveredTarget)
  unfolding hard_skipped_prefix
  expand_paths [] no_ignore = ok []
  expand_paths (argument ∷ arguments) no_ignore = do
    absolute ← or_bad_argument argument (names.absolute argument)
    targets ← expand_kind (system.lstat absolute) argument no_ignore absolute
    more ← expand_paths arguments no_ignore
    ok (targets ++ more)

  abbrev stdin_input : Text → Option Text → Result FilesError (List InputFile)
  stdin_input path none = err unread_input
  stdin_input path (some text) = ok (record { path = path; text = some text } ∷ [])

  abbrev file_inputs : Bool → List Text → Result FilesError (List InputFile)
  file_inputs single_file seen =
      if single_file && ltb 1 (length seen)
      then err one_file_only
      else ok (map (λ path. record { path = path; text = none }) (sort text_ltb seen))

  -- `stdin` is what reading the standard input to its end gives.
  unfoldable pub collect_inputs :
      (paths : List Text) (stdin : Option Text) (stdin_path : Text) (single_file no_ignore : Bool)
      → Result FilesError (List InputFile)
  unfolding expand_paths collect_targets sort
  collect_inputs paths stdin stdin_path single_file no_ignore =
      let name = if is_nil stdin_path then codes "stdin.blobl" else stdin_path in
      let from_stdin =
        or_bad_argument name (names.absolute name) >>= λ path. stdin_input path stdin in
      let from_files = do
        targets ← expand_paths paths no_ignore
        seen ← collect_targets system names single_file no_ignore targets []
        file_inputs single_file seen
      in if is_stdin paths then from_stdin else from_files
