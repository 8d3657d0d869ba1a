-- ===== src/Cli/Discovery.antt =====
-- Which files are ignored, in internal/cli/discovery.go. The files do not change in the meantime.
pub mod Pruning
pub mod Kept
pub mod Cached
use bloblang_lsp.Common.{
  Text, Bool, true, false, not, ◌&&◌, ◌||◌, Option, none, some, List, [], ◌∷◌, ◌++◌, if◌then◌else◌,
  codes, text_eq, text_is_eq,
}
use bloblang_lsp.Common.Dict.{Dict, lookup, insert}
use bloblang_lsp.Common.Strings.{is_nil, has_prefix, join}
use bloblang_lsp.Common.Result.{Result, ok, err, ◌>>=◌, with_error}
use bloblang_lsp.Editorconfig.Config.{Config}
use bloblang_lsp.Editorconfig.Source.{
  Stat, found, absent, denied, Paths, SourceContext, SourceError, resolve_source, config_file,
  config_path, config,
}

-- A parsed ignore file: its base, and for a relative path whether a pattern includes or ignores it.
pub record Matcher : Type 0 where
  pub base : Text
  pub relative : Text → Bool → Option Bool

-- What os.Lstat gives.
pub data Kind : Type 0 where
  nothing failed symlink regular directory other : Kind

-- The libraries: paths, files, the decoder of configurations and the parser of ignore files, which
-- takes a text and a base.
pub record System : Type 0 where
  pub paths : Paths
  pub decode : Config → Text → Option (Config × Bool)
  pub dir_of : Text → Text
  pub to_slash : Text → Text
  pub lstat : Text → Kind
  pub read_text : Text → Option Text
  pub parse : Text → Text → Option Matcher

pub data DiscoveryError : Type 0 where
  bad_source : SourceError → DiscoveryError
  unreadable bad_patterns not_regular : Text → DiscoveryError

pub record DirectorySettings : Type 0 where
  pub respect_gitignore : Bool
  pub excludes : Option Matcher

pub record DiscoveryPolicy : Type 0 where
  pub base : Text
  pub no_ignore : Bool
  pub settings : Dict Text DirectorySettings
  pub ignore_files : Dict Text (Option Matcher)
  pub pruned : Bool

abbrev pub new_discovery_policy : Text → Bool → DiscoveryPolicy
new_discovery_policy base no_ignore = record {
  base = base;
  no_ignore = no_ignore;
  settings = [];
  ignore_files = [];
  pruned = false;
}

pub record IgnoreRule : Type 0 where
  pub matcher : Matcher
  pub git : Bool

-- The way down to a directory: it was ignored on the way, or has settings and rules.
pub data Descent : Type 0 where
  stopped : Descent
  reached : DirectorySettings → List IgnoreRule → Descent

module _ (system : System) where
  abbrev parse_ignore : Text → Text → Text → Result DiscoveryError Matcher
  parse_ignore text base source = or_bad (system.parse text base)
    where
      or_bad : Option Matcher → Result DiscoveryError Matcher
      or_bad none = err (bad_patterns source)
      or_bad (some m) = ok m

  abbrev exclude_matcher : Text → List Text → Result DiscoveryError (Option Matcher)
  exclude_matcher path [] = ok none
  exclude_matcher path (e ∷ es) =
      parse_ignore (join (codes "\n") (e ∷ es) ++ codes "\n") (system.dir_of path) path >>= λ m.
      ok (some m)

  abbrev path_text : Option Text → Text
  path_text none = []
  path_text (some path) = path

  abbrev checked : Config × Option SourceError → Result DiscoveryError Config
  checked (c, none) = ok c
  checked (c, some e) = err (bad_source e)

  -- `settingsFor` where nothing is kept.
  unfoldable pub load_settings : Text → Result DiscoveryError DirectorySettings
  unfolding join config config_path resolve_source
  load_settings dir = do
    path ← with_error bad_source (config_path system.paths (resolve_source system.paths dir []))
    cfg ← checked (config system.paths system.decode (resolve_source system.paths dir []))
    excludes ← exclude_matcher (path_text path) cfg.exclude
    ok (record { respect_gitignore = cfg.respect_gitignore; excludes = excludes })

  abbrev pub keep_settings :
      DiscoveryPolicy → Text → DirectorySettings → DirectorySettings × DiscoveryPolicy
  keep_settings p dir s = (s, record p { settings = insert dir s p.settings })

  abbrev pub kept_settings :
      DiscoveryPolicy
      → Text
      → Option DirectorySettings
      → Result DiscoveryError (DirectorySettings × DiscoveryPolicy)
  kept_settings p dir (some s) = ok (s, p)
  kept_settings p dir none = load_settings dir >>= λ s. ok (keep_settings p dir s)

  unfoldable pub settings_for :
      DiscoveryPolicy → Text → Result DiscoveryError (DirectorySettings × DiscoveryPolicy)
  unfolding load_settings lookup insert
  settings_for p dir = kept_settings p dir (lookup dir p.settings)

  abbrev parsed : Text → Text → Option Text → Result DiscoveryError (Option Matcher)
  parsed dir path none = err (unreadable path)
  parsed dir path (some text) = parse_ignore text dir path >>= λ m. ok (some m)

  -- `ignoreFile` where nothing is kept.
  abbrev pub load_ignore : Text → Text → Kind → Result DiscoveryError (Option Matcher)
  load_ignore dir path nothing = ok none
  load_ignore dir path failed = err (unreadable path)
  load_ignore dir path symlink = ok none
  load_ignore dir path regular = parsed dir path (system.read_text path)
  load_ignore dir path directory = err (not_regular path)
  load_ignore dir path other = err (not_regular path)

  abbrev pub keep_ignore :
      DiscoveryPolicy → Text → Option Matcher → Option Matcher × DiscoveryPolicy
  keep_ignore p path m = (m, record p { ignore_files = insert path m p.ignore_files })

  abbrev pub kept_ignore :
      DiscoveryPolicy
      → Text
      → Text
      → Option (Option Matcher)
      → Result DiscoveryError (Option Matcher × DiscoveryPolicy)
  kept_ignore p dir path (some m) = ok (m, p)
  kept_ignore p dir path none =
      load_ignore dir path (system.lstat path) >>= λ m. ok (keep_ignore p path m)

  unfoldable pub ignore_file :
      DiscoveryPolicy → Text → Text → Result DiscoveryError (Option Matcher × DiscoveryPolicy)
  unfolding lookup insert
  ignore_file p dir name =
      let path = system.paths.join_path dir name in
      kept_ignore p dir path (lookup path p.ignore_files)

  abbrev is_within : Option Text → Bool
  is_within none = false
  is_within (some r) =
      not (text_eq r (codes ".."))
      && (not (has_prefix (codes "../") r) && not (system.paths.is_abs r))

  abbrev pub within : Text → Text → Bool
  within base path = is_within (system.paths.rel base path)

  abbrev match_at : Matcher → Bool → Option Text → Option Bool
  match_at m is_directory none = none
  match_at m is_directory (some r) =
      if text_eq r (codes ".") then none else m.relative (system.to_slash r) is_directory

  unfoldable pub ignore_match : Option Matcher → Text → Bool → Option Bool
  ignore_match none path is_directory = none
  ignore_match (some m) path is_directory =
      if within m.base path then match_at m is_directory (system.paths.rel m.base path) else none

  abbrev or_before : Bool → Option Bool → Bool
  or_before ignored none = ignored
  or_before ignored (some b) = b

  -- `ignoredBy`, from what the matchers so far say.
  unfoldable pub ignored_by : Bool → List Matcher → Text → Bool → Bool
  unfolding ignore_match
  ignored_by so_far [] path is_directory = so_far
  ignored_by so_far (m ∷ ms) path is_directory =
      ignored_by (or_before so_far (ignore_match (some m) path is_directory)) ms path is_directory

  abbrev matchers_of : DirectorySettings → List IgnoreRule → List Matcher
  matchers_of s [] = []
  matchers_of s (r ∷ rs) =
      let rest = matchers_of s rs in
      if not r.git || s.respect_gitignore then r.matcher ∷ rest else rest

  unfoldable pub ignored_entry : DirectorySettings → List IgnoreRule → Text → Bool → Bool
  unfolding ignored_by ignore_match
  ignored_entry s rules path is_directory =
      or_before false (ignore_match s.excludes path is_directory)
      || ignored_by false (matchers_of s rules) path is_directory

  abbrev pub add_rule : Bool → List IgnoreRule → Option Matcher → List IgnoreRule
  add_rule git rules none = rules
  add_rule git rules (some m) = rules ++ record { matcher = m; git = git } ∷ []

  abbrev pub with_file :
      DiscoveryPolicy
      → Text
      → Text
      → Bool
      → List IgnoreRule
      → Result DiscoveryError (List IgnoreRule × DiscoveryPolicy)
  with_file p dir name git rules =
      ignore_file p dir name >>= λ (m, p'). ok (add_rule git rules m, p')

  -- The ignore files of a directory, behind the rules from above.
  unfoldable pub add_rules :
      DiscoveryPolicy
      → Text
      → DirectorySettings
      → List IgnoreRule
      → Result DiscoveryError (Descent × DiscoveryPolicy)
  unfolding ignore_file
  add_rules p dir s rules = do
    (rules₁, p₁) ←
        if s.respect_gitignore
        then with_file p dir (codes ".gitignore") true rules
        else ok (rules, p)
    (rules₂, p₂) ← with_file p₁ dir (codes ".bloblangignore") false rules₁
    ok (reached s rules₂, p₂)

  -- One directory of the way down; `top` marks the first.
  abbrev pub enter_dir :
      Bool → Text → Descent → DiscoveryPolicy → Result DiscoveryError (Descent × DiscoveryPolicy)
  enter_dir top dir stopped p = ok (stopped, p)
  enter_dir top dir (reached s rules) p =
      if not top && ignored_entry s rules dir true
      then ok (stopped, p)
      else settings_for p dir >>= λ (s', p'). add_rules p' dir s' rules

  -- The directories, with the deepest one first.
  unfoldable pub descend :
      DiscoveryPolicy → List Text → Result DiscoveryError (Descent × DiscoveryPolicy)
  unfolding settings_for add_rules ignored_entry
  descend p [] = ok (reached (record { respect_gitignore = false; excludes = none }) [], p)
  descend p (dir ∷ dirs) = descend p dirs >>= λ (way, p'). enter_dir (is_nil dirs) dir way p'

  abbrev pub check_file :
      DiscoveryPolicy → Text → Text → Result DiscoveryError (Unit {0} × DiscoveryPolicy)
  check_file p dir name = ignore_file p dir name >>= λ (_, p'). ok (tt, p')

  unfoldable pub validate_dir :
      DiscoveryPolicy → Text → Result DiscoveryError (Unit {0} × DiscoveryPolicy)
  unfolding settings_for ignore_file
  validate_dir p dir = do
    (s, p₁) ← settings_for p dir
    (_, p₂) ←
        if not p.no_ignore && s.respect_gitignore
        then check_file p₁ dir (codes ".gitignore")
        else ok (tt, p₁)
    if not p.no_ignore then check_file p₂ dir (codes ".bloblangignore") else ok (tt, p₂)

  abbrev by_stat : {A : Type 0} → Stat → A → A → A → A
  by_stat found a b c = a
  by_stat absent a b c = b
  by_stat denied a b c = c

  -- The topmost directory with a configuration.
  abbrev topmost : Text → List Text → Result DiscoveryError Text
  topmost boundary [] = ok boundary
  topmost boundary (d ∷ ds) =
      by_stat (system.paths.stat (config_file system.paths d)) (topmost d ds) (topmost boundary ds)
        (err (unreadable d))

  abbrev pub root_of : Text → Text
  root_of dir = (resolve_source system.paths dir []).root

  unfoldable pub boundary_of : Text → Text → Result DiscoveryError Text
  unfolding resolve_source
  boundary_of base dir = do
    boundary ←
        if is_nil (root_of dir) then topmost base (system.paths.parents dir) else ok (root_of dir)
    ok (if within boundary dir then boundary else dir)

  abbrev pub up_to : Text → List Text → List Text
  up_to boundary [] = []
  up_to boundary (d ∷ ds) =
      let rest = up_to boundary ds in if text_eq d boundary then d ∷ [] else d ∷ rest

  abbrev pub verdict : Descent → Text → Bool → Bool
  verdict stopped path is_directory = true
  verdict (reached s rules) path is_directory = ignored_entry s rules path is_directory

  -- What the rules say between the boundary and the entry.
  unfoldable pub judge :
      DiscoveryPolicy → Text → Bool → Result DiscoveryError (Bool × DiscoveryPolicy)
  unfolding boundary_of descend ignored_entry
  judge p path is_directory = do
    boundary ← boundary_of p.base (system.dir_of path)
    (way, p') ← descend p (up_to boundary (system.paths.parents (system.dir_of path)))
    ok (verdict way path is_directory, p')

  unfoldable pub ignored :
      DiscoveryPolicy → Text → Bool → Result DiscoveryError (Bool × DiscoveryPolicy)
  unfolding judge resolve_source
  ignored p path is_directory =
      if is_directory && text_eq (root_of path) path
      then ok (false, p)
      else if p.no_ignore
      then ok (false, p)
      else judge p path is_directory
