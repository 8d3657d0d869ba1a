-- ===== src/Cli/Files.antt =====
-- The inputs of a command in internal/cli/files.go: literal names, patterns and directories. The files
-- do not change in the meantime.
pub mod Walk
pub mod Inputs
use bloblang_lsp.Common.{
  ℕ, Text, Bool, true, false, not, ◌&&◌, ◌||◌, Option, none, some, List, [], ◌∷◌, ◌++◌, ltb,
  if◌then◌else◌, codes, length, map, contains, text_eq, text_is_eq,
}
use bloblang_lsp.Common.Sorting.{text_ltb, sort}
use bloblang_lsp.Common.Strings.{is_nil, split}
use bloblang_lsp.Common.Result.{Result, ok, err, ◌>>=◌, with_error}
use bloblang_lsp.Cli.Discovery.{
  Kind, nothing, failed, symlink, regular, directory, other, System, DiscoveryPolicy,
  DiscoveryError, unreadable, new_discovery_policy, ignored, validate_dir, root_of,
}

pub record InputFile : Type 0 where
  pub path : Text
  pub text : Option Text

-- What filepath.WalkDir meets below a name: an entry that is no directory, or a directory with its
-- entries in their order, unless it cannot be read.
mutual
  pub data Tree : Type 0 where
    leaf : Text → Kind → Tree
    folder : Text → Trees → Tree

  pub data Trees : Type 0 where
    no_trees unread : Trees
    and_trees : Tree → Trees → Trees

abbrev pub name_of : Tree → Text
name_of (leaf name _) = name
name_of (folder name _) = name

pub data FilesError : Type 0 where
  undiscovered : DiscoveryError → FilesError
  unreachable linked no_file no_match bad_pattern failed_pattern bad_argument : Text → FilesError
  one_file_only unread_input : FilesError

-- A path with the policy of the pattern that it matched; a literal name has none.
pub record DiscoveredTarget : Type 0 where
  pub path : Text
  pub policy : Option DiscoveryPolicy

-- Operations of the libraries on names, with strings.ToLower of filepath.Ext, the trees of the file
-- system, and the patterns of doublestar: their test, their parts, and what a walk finds.
pub record Names : Type 0 where
  pub base_name : Text → Text
  pub extension : Text → Text
  pub absolute : Text → Option Text
  pub from_slash : Text → Text
  pub valid_path : Text → Bool
  pub tree_at : Text → Tree
  pub valid_pattern : Text → Bool
  pub split_pattern : Text → Text × Text
  pub glob : DiscoveryPolicy → Text → Text → Option (List Text × DiscoveryPolicy)

abbrev pub skipped_directory : Text → Bool
skipped_directory name =
    contains
      (codes ".git"
        ∷ codes ".cache"
        ∷ codes ".state"
        ∷ codes ".worktrees"
        ∷ codes ".volumes"
        ∷ codes "node_modules"
        ∷ codes "vendor"
        ∷ codes "target"
        ∷ [])
      name

abbrev pub is_source_extension : Text → Bool
is_source_extension extension =
    contains (codes ".blobl" ∷ codes ".bloblang" ∷ codes ".yaml" ∷ codes ".yml" ∷ []) extension

-- `seen[path] = true`
abbrev pub see : Text → List Text → List Text
see path seen = if contains seen path then seen else seen ++ path ∷ []

module _ (system : System) (names : Names) where
  -- What a walk has seen, and the policy.
  abbrev pub Seen : Type 0
  Seen = Result DiscoveryError (List Text × DiscoveryPolicy)

  abbrev pub see_unless : Bool → Text → List Text → List Text
  see_unless ignored path seen =
      if not ignored && is_source_extension (names.extension path) then see path seen else seen

  abbrev pub visit_leaf : Kind → Text → List Text → DiscoveryPolicy → Seen
  visit_leaf regular path seen p = do
    (b, p') ← ignored system p path false
    ok (see_unless b path seen, p')
  visit_leaf nothing path seen p = ok (seen, p)
  visit_leaf failed path seen p = ok (seen, p)
  visit_leaf symlink path seen p = ok (seen, p)
  visit_leaf directory path seen p = ok (seen, p)
  visit_leaf other path seen p = ok (seen, p)

  -- The callback of the walk for a directory; `inside` is the walk over its entries.
  abbrev pub visit_folder :
      Text → Text → List Text → DiscoveryPolicy → (DiscoveryPolicy → Seen) → Seen
  visit_folder name path seen p inside = if skipped_directory name then ok (seen, p) else (do
    (b, p₁) ← ignored system p path true
    if b then ok (seen, p₁) else (validate_dir system p₁ path >>= λ (_, p₂). inside p₂))

  unfoldable mutual
    unfolding ignored validate_dir

    pub walk_dir : Text → Tree → List Text → DiscoveryPolicy → Seen
    walk_dir path (leaf name kind) seen p = visit_leaf kind path seen p
    walk_dir path (folder name entries) seen p =
        visit_folder name path seen p (λ p'. walk_all path entries seen p')

    pub walk_all : Text → Trees → List Text → DiscoveryPolicy → Seen
    walk_all path no_trees seen p = ok (seen, p)
    walk_all path unread seen p = err (unreadable path)
    walk_all path (and_trees t ts) seen p =
        walk_dir (system.paths.join_path path (name_of t)) t seen p >>= λ (seen', p').
        walk_all path ts seen' p'

  -- Explicit symlinks are refused.
  abbrev reject_symlinks : Text → Result FilesError (Unit {0})
  reject_symlinks path = by_kind (system.lstat path)
    where
      by_kind : Kind → Result FilesError (Unit {0})
      by_kind symlink = err (linked path)
      by_kind nothing = err (unreachable path)
      by_kind failed = err (unreachable path)
      by_kind regular = ok tt
      by_kind directory = ok tt
      by_kind other = ok tt

  abbrev or_unreachable : Text → Option Text → Result FilesError Text
  or_unreachable path none = err (unreachable path)
  or_unreachable path (some text) = ok text

  unfoldable pub read_input : InputFile → Result FilesError Text
  read_input f = given f.text
    where
      given : Option Text → Result FilesError Text
      given (some text) = ok text
      given none = reject_symlinks f.path >>= λ _. or_unreachable f.path (system.read_text f.path)

  -- A literal name is never ignored.
  abbrev target_ignored :
      Option DiscoveryPolicy → Text → Bool → Result DiscoveryError (Bool × Option DiscoveryPolicy)
  target_ignored none path is_directory = ok (false, none)
  target_ignored (some p) path is_directory =
      ignored system p path is_directory >>= λ (b, p'). ok (b, some p')

  abbrev walk_policy : Option DiscoveryPolicy → Text → Bool → DiscoveryPolicy
  walk_policy none path no_ignore = new_discovery_policy path no_ignore
  walk_policy (some p) path no_ignore = p

  module _ (single_file no_ignore : Bool) where
    abbrev collect_file : Text → List Text → Bool → Result FilesError (List Text)
    collect_file path seen b = ok (if b then seen else see path seen)

    abbrev collect_folder :
        Text → List Text → Bool × Option DiscoveryPolicy → Result FilesError (List Text)
    collect_folder path seen (b, policy) =
        let walked =
          with_error undiscovered
            (walk_dir path (names.tree_at path) seen (walk_policy policy path no_ignore)) in
        if b
        then ok seen
        else if single_file
        then err one_file_only
        else (walked >>= λ (seen', _). ok seen')

    abbrev collect_kind :
        Kind → Text → Option DiscoveryPolicy → List Text → Result FilesError (List Text)
    collect_kind nothing path policy seen = err (unreachable path)
    collect_kind failed path policy seen = err (unreachable path)
    collect_kind symlink path policy seen = err (linked path)
    collect_kind other path policy seen = err (no_file path)
    collect_kind regular path policy seen =
        with_error undiscovered (target_ignored policy path false) >>= λ (b, _).
        collect_file path seen b
    collect_kind directory path policy seen =
        with_error undiscovered (target_ignored policy path true) >>= λ found.
        collect_folder path seen found

    -- The targets of one pattern share their policy in the program; here each has a copy, which keeps
    -- less.
    unfoldable pub collect_targets :
        List DiscoveredTarget → List Text → Result FilesError (List Text)
    unfolding walk_dir ignored
    collect_targets [] seen = ok seen
    collect_targets (t ∷ ts) seen = do
      _ ← reject_symlinks t.path
      seen' ← collect_kind (system.lstat t.path) t.path t.policy seen
      collect_targets ts seen'
