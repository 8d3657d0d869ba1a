-- ===== src/Tests/Discovery.antt =====
-- The discovery of files in a project "p/" with an ignore file. Here paths are written from the entry
-- upwards, as in "x.blobl/p/".
use bloblang_lsp.Common.{
  Text, Bool, true, false, ◌||◌, ◌==◌, Option, none, some, List, [], ◌∷◌, ◌++◌, if◌then◌else◌,
  codes, text_eq, text_eq_refl, text_is_eq, ◌≡◌, refl, Bool-cases, inl, inr, All, contains, arith,
}
use bloblang_lsp.Common.Members.{Memᴰ}
use mathlib.Core.List.Memᴰ
use bloblang_lsp.Common.Dict.{lookup, insert}
use bloblang_lsp.Common.Strings.{is_nil, has_prefix, after_byte}
use bloblang_lsp.Common.Result.{Result, ok, err}
use bloblang_lsp.Editorconfig.Config.{missing}
use bloblang_lsp.Editorconfig.Source.{
  found, absent, Paths, git_root, resolve_source, search_config, config_path, config,
}
use bloblang_lsp.Cli.Discovery.{
  nothing, regular, Matcher, System, DiscoveryPolicy, DiscoveryError, new_discovery_policy,
  load_settings, settings_for, ignore_file, ignore_match, ignored_by, ignored_entry, add_rules,
  descend, boundary_of, judge, ignored, validate_dir, within, root_of,
}
use bloblang_lsp.Cli.Discovery.Pruning.{ignored-inside}
use bloblang_lsp.Cli.Discovery.Kept.{Joined, IsConsistent, Gives}
use bloblang_lsp.Cli.Discovery.Cached.{ignored_afresh, ignored-Gives}
use bloblang_lsp.Cli.Files.{Tree, leaf, folder, no_trees, and_trees, Names, walk_dir}
use bloblang_lsp.Cli.Files.Walk.{KnowsPaths, Offers, Adds, walk_dir-Offers}

abbrev above : Text → List Text
above [] = []
above (c ∷ s) = let rest = above s in if c == 47 then s ∷ rest else rest

abbrev slashed : Text → Bool
slashed [] = false
slashed (c ∷ s) = c == 47 || slashed s

abbrev relative : Text → Text → Option Text
relative base path =
    if text_eq path base
    then some (codes ".")
    else if contains (above path) base
    then some (if has_prefix (codes "d/") path then codes "d" else codes "x")
    else none

abbrev paths : Paths
paths = record {
  clean = λ s. s;
  join_path = λ dir name. name ++ (47 ∷ dir);
  is_abs = slashed;
  parents = λ s. s ∷ above s;
  rel = relative;
  stat = λ s. if text_eq s (codes ".git/p/") then found else absent;
  read = λ s. missing;
}

abbrev matcher : Text → Matcher
matcher base = record {
  base = base;
  relative = λ r _. if text_eq r (codes "d") then some true else none;
}

abbrev pub system : System
system = record {
  paths = paths;
  decode = λ _ _. none;
  dir_of = after_byte 47;
  to_slash = λ s. s;
  lstat = λ s. if text_eq s (codes ".bloblangignore/p/") then regular else nothing;
  read_text = λ _. some (codes "d");
  parse = λ _ base. some (matcher base);
}

abbrev policy : DiscoveryPolicy
policy = new_discovery_policy (codes "p/") false

fresh-Consistent : IsConsistent system policy
unfolding lookup
fresh-Consistent = record { settings = λ dir s h. absurd cc; ignore_files = λ path m h. absurd cc }

joined : (dir : Text) → Joined system dir
unfolding after_byte
joined dir = (refl, refl)

all-Joined : (dirs : List Text) → All (Joined system) dirs
all-Joined [] = tt
all-Joined (d ∷ ds) = (joined d, all-Joined ds)

slashed-joined : (name dir : Text) → slashed (name ++ (47 ∷ dir)) ≡ true
slashed-joined [] dir = refl
slashed-joined (c ∷ s) dir = ground (arith, slashed-joined s dir)

knows : KnowsPaths system
knows path plain = (
  all-Joined (paths.parents (system.dir_of path)),
  joined path,
  λ name. (slashed-joined name path, refl),
)

Mem-contains : (ds : List Text) (d : Text) → Memᴰ d ds → contains ds d ≡ true
Mem-contains [] d m = absurd (Memᴰ.not-nil m)
Mem-contains (x ∷ xs) d (Memᴰ.head e) = rw (e, text_eq_refl x) refl
Mem-contains (x ∷ xs) d (Memᴰ.tail m) = ground (arith, Mem-contains xs d m)

or_right : (b c : Bool) → b ≡ false → (b || c) ≡ true → c ≡ true
or_right b c e h = ground (arith, e, h)

inside : (base d : Text) → Memᴰ base (paths.parents d) → within system base d ≡ true
inside base d m = elim (Bool-cases (text_eq d base)) [
  | inl e ↦ rw e refl
  | inr e ↦
      let h =
        or_right (text_eq d base) (contains (above d) base) e (Mem-contains (d ∷ above d) base m) in
      elim (Bool-cases (has_prefix (codes "d/") d)) [
        | inl f ↦ rw (e, h, f) refl
        | inr f ↦ rw (e, h, f) refl
      ]
]

abbrev answered : Result DiscoveryError (Bool × DiscoveryPolicy) → Option Bool
answered (ok (b, _)) = some b
answered (err _) = none

-- The directory "d" is ignored, and so is what it holds.
ignores : answered (ignored system policy (codes "d/p/") true) ≡ some true
unfolding ignored judge boundary_of descend resolve_source git_root settings_for load_settings
    config config_path search_config add_rules ignore_file ignored_entry ignored_by ignore_match
    lookup insert after_byte
ignores = refl

abbrev policy_after : Result DiscoveryError (Bool × DiscoveryPolicy) → DiscoveryPolicy
policy_after (ok (_, p)) = p
policy_after (err _) = policy

abbrev later : DiscoveryPolicy
later = policy_after (ignored system policy (codes "d/p/") true)

ignored-later : ignored system policy (codes "d/p/") true ≡ ok (true, later)
unfolding ignored after_byte search_config
ignored-later = refl

root_kept : is_nil (root_of system (codes "d/p/")) ≡ false
unfolding resolve_source
root_kept = refl

ignored-inside_example :
    (p'' : DiscoveryPolicy) × (ignored system policy (codes "x.blobl/d/p/") false ≡ ok (true, p''))
ignored-inside_example =
    ignored-inside system policy later (codes "d/p/") (codes "x.blobl/d/p/") false inside refl refl
      (unfold after_byte in refl) (unfold after_byte in refl) root_kept refl ignored-later

ignored-Gives_example :
    Gives system policy
      (ignored system policy (codes "d/p/") true)
      (ignored_afresh system (codes "p/") false (codes "d/p/") true)
ignored-Gives_example =
    ignored-Gives system policy (codes "d/p/") true
      (all-Joined (paths.parents (system.dir_of (codes "d/p/")))) fresh-Consistent

abbrev pub names : Names
names = record {
  base_name = λ s. s;
  extension = λ s. if has_prefix (codes "x.blobl/") s then codes ".blobl" else [];
  absolute = λ s. some s;
  from_slash = λ s. s;
  valid_path = λ _. true;
  tree_at = λ s. leaf s regular;
  valid_pattern = λ _. true;
  split_pattern = λ s. (s, []);
  glob = λ _ _ _. none;
}

abbrev tree : Tree
tree = folder (codes "p") (
    and_trees (folder (codes "d") (and_trees (leaf (codes "x.blobl") regular) no_trees)) (
      and_trees (leaf (codes "x.blobl") regular)
        (and_trees (leaf (codes "y.txt") regular) no_trees)))

abbrev walked : Result DiscoveryError (List Text × DiscoveryPolicy) → List Text × DiscoveryPolicy
walked (ok r) = r
walked (err _) = ([], policy)

abbrev collected : List Text × DiscoveryPolicy
collected = walked (walk_dir system names (codes "p/") tree [] policy)

collects : collected.0 ≡ codes "x.blobl/p/" ∷ []
unfolding walk_dir ignored judge boundary_of descend resolve_source git_root settings_for
    load_settings config config_path search_config add_rules ignore_file ignored_entry ignored_by
    ignore_match lookup insert after_byte validate_dir
collects = refl

collected-ok : walk_dir system names (codes "p/") tree [] policy ≡ ok collected
unfolding walk_dir after_byte search_config
collected-ok = refl

walk_dir-Offers_example :
    Adds system names
      (codes "p/")
      false
      []
      collected.0
      (Offers system names (codes "p/") false (codes "p/") tree)
walk_dir-Offers_example =
    walk_dir-Offers system names policy collected.1 (codes "p/") tree [] collected.0 knows
      (refl, refl) fresh-Consistent collected-ok
