-- ===== src/Editorconfig/Source.antt =====
-- The search for a configuration in internal/editorconfig/source.go. A path is a text that the
-- library of paths has cleaned; a directory's `parents` are the directory and the results of
-- filepath.Dir from there, to the first that does not change.
pub mod Nearest
use bloblang_lsp.Common.{
  ℕ, Text, Bool, true, false, not, ◌&&◌, ◌||◌, Option, none, some, List, [], ◌∷◌, ◌++◌, ltb,
  if◌then◌else◌, codes, length, text_eq, text_is_eq,
}
use bloblang_lsp.Common.Strings.{is_nil, has_prefix}
use bloblang_lsp.Common.Result.{Result, ok, err, ◌>>=◌}
use bloblang_lsp.Editorconfig.Config.{Config, default_config, ConfigError, FileRead, load}

-- What a stat gives: the file, that it does not exist, or another error.
pub data Stat : Type 0 where
  found absent denied : Stat

-- filepath.Clean, Join, IsAbs and the chain of Dir; filepath.Rel, with none for its error;
-- os.Stat and the reading of a file.
pub record Paths : Type 0 where
  pub clean : Text → Text
  pub join_path : Text → Text → Text
  pub is_abs : Text → Bool
  pub parents : Text → List Text
  pub rel : Text → Text → Option Text
  pub stat : Text → Stat
  pub read : Text → FileRead

pub record SourceContext : Type 0 where
  pub dir : Text
  pub root : Text

-- A configuration that cannot be looked for, or cannot be loaded, at a path.
pub data SourceError : Type 0 where
  denied_at : Text → SourceError
  rejected_at : Text → ConfigError → SourceError

abbrev pub exists : Stat → Bool
exists found = true
exists absent = false
exists denied = false

module _ (paths : Paths) where
  -- The tests of `contains` on the relative path.
  abbrev inside : Option Text → Bool
  inside none = false
  inside (some r) =
      not (text_eq r (codes ".."))
      && (not (paths.is_abs r) && (ltb (length r) 3 || not (has_prefix (codes "../") r)))

  unfoldable pub contains_dir : Text → Text → Bool
  contains_dir root dir = inside (paths.rel root dir)

  -- The loop over the workspace's roots, with the deepest one so far.
  unfoldable pub deepest_root : Text → Text → List Text → Text
  deepest_root dir best [] = best
  deepest_root dir best (r ∷ rs) =
      let root = paths.clean r in
      deepest_root dir
        (if not (is_nil r) && (contains_dir root dir && ltb (length best) (length root))
          then root
          else best)
        rs

  -- The nearest directory with a Git marker.
  unfoldable pub git_root : List Text → Text
  git_root [] = []
  git_root (d ∷ ds) =
      let further = git_root ds in
      if exists (paths.stat (paths.join_path d (codes ".git"))) then d else further

  unfoldable pub resolve_source : Text → List Text → SourceContext
  unfolding deepest_root git_root contains_dir
  resolve_source dir workspace_roots =
      let cleaned = paths.clean dir in
      let deepest = deepest_root cleaned [] workspace_roots in
      record {
        dir = cleaned;
        root = if is_nil deepest then git_root (paths.parents cleaned) else deepest;
      }

  abbrev pub config_file : Text → Text
  config_file dir = paths.join_path dir (codes ".bloblangrc.json")

  -- `s.Root != "" && err == nil && rel == "."`
  abbrev at_root : Text → Option Text → Bool
  at_root root none = false
  at_root root (some r) = not (is_nil root) && text_eq r (codes ".")

  abbrev pub is_boundary : Text → Text → Bool
  is_boundary root dir = at_root root (paths.rel root dir)

  -- One directory of the loop, with what the directories above would give.
  abbrev pub config_path_at :
      Text → Text → Stat → Result SourceError (Option Text) → Result SourceError (Option Text)
  config_path_at root dir found further = ok (some (config_file dir))
  config_path_at root dir denied further = err (denied_at (config_file dir))
  config_path_at root dir absent further = if is_boundary root dir then ok none else further

  unfoldable pub search_config : Text → List Text → Result SourceError (Option Text)
  search_config root [] = ok none
  search_config root (d ∷ ds) =
      config_path_at root d (paths.stat (config_file d)) (search_config root ds)

  unfoldable pub config_path : SourceContext → Result SourceError (Option Text)
  config_path s = search_config s.root (paths.parents s.dir)

  -- `SourceContext.Config`, with the error beside the configuration.
  abbrev pub with_path : Text → Config × Option ConfigError → Config × Option SourceError
  with_path path (c, none) = (c, none)
  with_path path (c, some e) = (default_config, some (rejected_at path e))

  module _ (decode : Config → Text → Option (Config × Bool)) where
    abbrev pub config_at : Result SourceError (Option Text) → Config × Option SourceError
    config_at (err e) = (default_config, some e)
    config_at (ok none) = (default_config, none)
    config_at (ok (some path)) = with_path path (load decode (paths.read path))

    unfoldable pub config : SourceContext → Config × Option SourceError
    unfolding config_path
    config s = config_at (config_path s)

  unfoldable pub import_path : SourceContext → Text → Text
  import_path s path = if paths.is_abs path then path else paths.join_path s.dir path

  unfoldable pub mapping_path : SourceContext → Text → Text
  unfolding import_path
  mapping_path s path =
      let local = import_path s path in
      let fallback = paths.join_path s.root path in
      if paths.is_abs path
      then local
      else if exists (paths.stat local)
      then local
      else if not (is_nil s.root) && exists (paths.stat fallback)
      then fallback
      else local
