-- ===== src/Editorconfig/Source/Nearest.antt =====
-- The configuration that internal/editorconfig/source.go finds is the nearest one.
use bloblang_lsp.Common.{
  Text, false, Option, some, List, [], ◌∷◌, ◌++◌, ◌≡◌, ◌↔◌, refl, ap, Bool-cases, inl, inr, All,
}
use bloblang_lsp.Common.Result.{Result, ok}
use bloblang_lsp.Editorconfig.Source.{
  Paths, Stat, found, absent, denied, SourceContext, SourceError, config_file, is_boundary,
  config_path_at, search_config, config_path,
}

module _ (paths : Paths) (root : Text) where
  -- A directory without a configuration, below the boundary of the search.
  abbrev pub Passed : Text → Type 0
  Passed d = (paths.stat (config_file paths d) ≡ absent) × (is_boundary paths root d ≡ false)

  -- The first directory of a chain that has a configuration, all nearer ones having none.
  abbrev pub IsNearest : List Text → Text → Type 0
  IsNearest chain path =
      (nearer : List Text) × (d : Text) × (above : List Text) × (chain ≡ nearer ++ d ∷ above)
      × All Passed nearer
      × (paths.stat (config_file paths d) ≡ found)
      × (path ≡ config_file paths d)

  IsNearest-cons :
      (d : Text) (ds : List Text) {path : Text}
      → Passed d
      → IsNearest ds path
      → IsNearest (d ∷ ds) path
  IsNearest-cons d ds p (nearer, e, above, eq, passed, present, at) =
      (d ∷ nearer, e, above, ap (λ xs. d ∷ xs) eq, (p, passed), present, at)

  -- One directory, by what its stat gives.
  config_path_at-IsNearest :
      (d : Text) (ds : List Text) {path : Text} (s : Stat)
      (further : Result SourceError (Option Text))
      → paths.stat (config_file paths d) ≡ s
      → (further ≡ ok (some path) → IsNearest ds path)
      → config_path_at paths root d s further ≡ ok (some path)
      → IsNearest (d ∷ ds) path
  config_path_at-IsNearest d ds found further at later h = ([], d, ds, refl, tt, at, cc)
  config_path_at-IsNearest d ds denied further at later h = cc
  config_path_at-IsNearest d ds absent further at later h =
      elim (Bool-cases (is_boundary paths root d)) [
        | inl e ↦ cc (rw e at h)
        | inr e ↦ IsNearest-cons d ds (at, e) (later (rw e at h))
      ]

  first_config :
      (chain : List Text) {path : Text}
      → search_config paths root chain ≡ ok (some path)
      → IsNearest chain path
  unfolding search_config
  first_config [] h = cc
  first_config (d ∷ ds) h =
      config_path_at-IsNearest d ds (paths.stat (config_file paths d)) (search_config paths root ds)
        refl (first_config ds) h

  search_config-at :
      (nearer above : List Text) (d : Text)
      → All Passed nearer
      → paths.stat (config_file paths d) ≡ found
      → search_config paths root (nearer ++ d ∷ above) ≡ ok (some (config_file paths d))
  unfolding search_config
  search_config-at [] above d passed h = rw h refl
  search_config-at (x ∷ nearer) above d passed h =
      rw (passed.0.0, passed.0.1) (search_config-at nearer above d passed.1 h)

  search_config-IsNearest :
      (chain : List Text) (path : Text)
      → (search_config paths root chain ≡ ok (some path)) ↔ IsNearest chain path
  search_config-IsNearest chain path = (
    first_config chain,
    λ (nearer, d, above, eq, passed, h, at). rw (eq, at) (search_config-at nearer above d passed h),
  )

-- A configuration path is found exactly when it belongs to the nearest directory that has one, with
-- nothing denied on the way and without leaving the root.
pub config_path-IsNearest :
    (paths : Paths) (s : SourceContext) (path : Text)
    → (config_path paths s ≡ ok (some path)) ↔ IsNearest paths s.root (paths.parents s.dir) path
unfolding config_path
config_path-IsNearest paths s path = search_config-IsNearest paths s.root (paths.parents s.dir) path
