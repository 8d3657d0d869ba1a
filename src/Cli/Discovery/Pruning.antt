-- ===== src/Cli/Discovery/Pruning.antt =====
-- A directory that discovery.go ignores takes along what is in it.
use bloblang_lsp.Common.{
  Text, Bool, true, false, ◌&&◌, List, [], ◌∷◌, codes, text_eq, text_is_eq, ◌≡◌, refl, sym, ap, ◌∙◌,
  subst, Bool-cases, inl, inr, text_eq_iff, text_eq_refl,
}
use bloblang_lsp.Common.Members.{Memᴰ}
use mathlib.Core.List.Memᴰ
use bloblang_lsp.Common.Strings.{is_nil}
use bloblang_lsp.Common.Result.{Result, ok, ◌>>=◌, >>=-eq-ok}
use bloblang_lsp.Editorconfig.Source.{exists, git_root, resolve_source}
use bloblang_lsp.Cli.Discovery.{
  System, DiscoveryPolicy, DiscoveryError, Descent, stopped, reached, ignored, judge, boundary_of,
  descend, enter_dir, verdict, up_to, root_of, within,
}

module _ (system : System) where
  git_root-Mem :
      (ds : List Text)
      → is_nil (git_root system.paths ds) ≡ false
      → Memᴰ (git_root system.paths ds) ds
  unfolding git_root
  git_root-Mem [] = λ h. absurd cc
  git_root-Mem (d ∷ ds) =
      elim (Bool-cases (exists (system.paths.stat (system.paths.join_path d (codes ".git"))))) [
        | inl e ↦ rw e (λ h. Memᴰ.head refl)
        | inr e ↦ rw e (λ h. Memᴰ.tail (git_root-Mem ds h))
      ]

  up_to-Mem :
      (boundary : Text) (ds : List Text) {d : Text}
      → Memᴰ d ds
      → is_nil (up_to system boundary ds) ≡ false
  up_to-Mem boundary [] m = absurd (Memᴰ.not-nil m)
  up_to-Mem boundary (d ∷ ds) m = elim (Bool-cases (text_eq d boundary)) [
    | inl e ↦ rw e refl
    | inr e ↦ rw e refl
  ]

  -- A directory that is not itself a root has the root of the one above.
  root_of-above :
      (d : Text)
      → system.paths.clean d ≡ d
      → system.paths.clean (system.dir_of d) ≡ system.dir_of d
      → system.paths.parents d ≡ d ∷ system.paths.parents (system.dir_of d)
      → text_eq (root_of system d) d ≡ false
      → root_of system d ≡ git_root system.paths (system.paths.parents (system.dir_of d))
  unfolding resolve_source git_root
  root_of-above d clean above parents =
      rw (clean, parents)
        (elim (Bool-cases (exists (system.paths.stat (system.paths.join_path d (codes ".git"))))) [
          | inl e ↦ rw e (λ h. absurd (cc (h, text_eq_refl d)))
          | inr e ↦ rw e (λ h. refl)
        ])

  boundary_of-root :
      (base dir : Text)
      → is_nil (root_of system dir) ≡ false
      → within system (root_of system dir) dir ≡ true
      → boundary_of system base dir ≡ ok (root_of system dir)
  unfolding boundary_of
  boundary_of-root base dir h inside = rw (h, inside) refl

  -- Where a directory is ignored, the way into it stops.
  enter_dir-stops :
      (d : Text) (way : Descent) (p : DiscoveryPolicy)
      → verdict system way d true ≡ true
      → enter_dir system false d way p ≡ ok (stopped, p)
  enter_dir-stops d stopped p h = refl
  enter_dir-stops d (reached s rules) p h = rw h refl

  descend-stops :
      (p p' : DiscoveryPolicy) (d : Text) (dirs : List Text) (way : Descent)
      → is_nil dirs ≡ false
      → descend system p dirs ≡ ok (way, p')
      → verdict system way d true ≡ true
      → descend system p (d ∷ dirs) ≡ ok (stopped, p')
  unfolding descend
  descend-stops p p' d dirs way h reach ignored = rw (reach, h) (enter_dir-stops d way p' ignored)

  -- What a positive answer for a directory rests on.
  ignored→judge :
      (p p' : DiscoveryPolicy) (d : Text)
      → ignored system p d true ≡ ok (true, p')
      → (text_eq (root_of system d) d ≡ false)
        × (p.no_ignore ≡ false)
        × (judge system p d true ≡ ok (true, p'))
  unfolding ignored
  ignored→judge p p' d = elim (Bool-cases (text_eq (root_of system d) d)) [
    | inl e ↦ rw e (λ h. absurd cc)
    | inr e ↦ elim (Bool-cases p.no_ignore) [
      | inl f ↦ rw (e, f) (λ h. absurd cc)
      | inr f ↦ rw (e, f) (λ h. (refl, refl, h))
    ]
  ]

  abbrev answer :
      Text → Bool → Descent × DiscoveryPolicy → Result DiscoveryError (Bool × DiscoveryPolicy)
  answer path is_directory (way, p) = ok (verdict system way path is_directory, p)

  judge-bounded :
      (p : DiscoveryPolicy) (dir path boundary : Text) (is_directory : Bool)
      → system.dir_of path ≡ dir
      → boundary_of system p.base dir ≡ ok boundary
      → judge system p path is_directory ≡ (
          descend system p (up_to system boundary (system.paths.parents dir))
          >>= answer path is_directory)
  unfolding judge
  judge-bounded p dir path boundary is_directory at h = rw (at, h) refl

  up_to-cons :
      (boundary d : Text) (ds : List Text)
      → text_eq boundary d ≡ false
      → up_to system boundary (d ∷ ds) ≡ d ∷ up_to system boundary ds
  up_to-cons boundary d ds h = elim (Bool-cases (text_eq d boundary)) [
    | inl e ↦ absurd (cc (h, text_eq_refl d, (text_eq_iff d boundary).0 e))
    | inr e ↦ rw e refl
  ]

  -- The way into an ignored directory.
  judge-inside :
      (p p' : DiscoveryPolicy) (dir path boundary : Text) (is_directory : Bool)
      → system.paths.parents dir ≡ dir ∷ system.paths.parents (system.dir_of dir)
      → system.dir_of path ≡ dir
      → text_eq boundary dir ≡ false
      → Memᴰ boundary (system.paths.parents (system.dir_of dir))
      → boundary_of system p.base (system.dir_of dir) ≡ ok boundary
      → boundary_of system p.base dir ≡ ok boundary
      → judge system p dir true ≡ ok (true, p')
      → judge system p path is_directory ≡ ok (true, p')
  judge-inside p p' dir path boundary is_directory parents at e m above here judged =
      let dirs = up_to system boundary (system.paths.parents (system.dir_of dir)) in
      let ((way, p₁), reach, same) =
        >>=-eq-ok (descend system p dirs) (answer dir true)
          (sym (judge-bounded p (system.dir_of dir) dir boundary true refl above) ∙ judged) in
      let stops =
        descend-stops p p₁ dir dirs way
          (up_to-Mem boundary (system.paths.parents (system.dir_of dir)) m) reach (cc same) in
      judge-bounded p dir path boundary is_directory at here
      ∙ rw (parents, up_to-cons boundary dir (system.paths.parents (system.dir_of dir)) e, stops)
          (cc same)

-- In a project with a Git root, what lies in an ignored directory is ignored, whatever the patterns in
-- and above it say; only a directory that is a project root of its own is not.
pub ignored-inside :
    (system : System) (p p' : DiscoveryPolicy) (dir path : Text) (is_directory : Bool)
    → ((base d : Text) → Memᴰ base (system.paths.parents d) → within system base d ≡ true)
    → system.paths.clean dir ≡ dir
    → system.paths.clean (system.dir_of dir) ≡ system.dir_of dir
    → system.paths.parents dir ≡ dir ∷ system.paths.parents (system.dir_of dir)
    → system.dir_of path ≡ dir
    → is_nil (root_of system dir) ≡ false
    → is_directory && text_eq (root_of system path) path ≡ false
    → ignored system p dir true ≡ ok (true, p')
    → (p'' : DiscoveryPolicy) × (ignored system p path is_directory ≡ ok (true, p''))
unfolding ignored
ignored-inside system p p' dir path is_directory inside clean above parents at git own h =
    let (e, f, judged) = ignored→judge system p p' dir h in
    let same = root_of-above system dir clean above parents e in
    let higher : root_of system (system.dir_of dir) ≡ root_of system dir =
      (unfold resolve_source in rw above refl) ∙ sym same in
    let m : Memᴰ (root_of system dir) (system.paths.parents (system.dir_of dir)) =
      subst (λ r. Memᴰ r (system.paths.parents (system.dir_of dir))) (sym same)
        (git_root-Mem system (system.paths.parents (system.dir_of dir))
          (ap is_nil (sym same) ∙ git)) in
    let bounded : boundary_of system p.base (system.dir_of dir) ≡ ok (root_of system dir) =
      boundary_of-root system p.base (system.dir_of dir) (ap is_nil higher ∙ git)
        (rw higher (inside (root_of system dir) (system.dir_of dir) m))
      ∙ ap ok higher in
    let here =
      boundary_of-root system p.base dir git
        (inside (root_of system dir) dir (rw parents (Memᴰ.tail m))) in
    (
      p',
      simp (own, f)
          (judge-inside system p p' dir path (root_of system dir) is_directory parents at e m
            bounded here judged),
    )
