-- ===== src/Cli/Discovery/Kept.antt =====
-- What discovery.go keeps of settings and ignore files is what it would read again.
use bloblang_lsp.Common.{
  Text, true, Option, none, some, codes, text_eq, text_is_eq, ◌≡◌, refl, sym, ◌∙◌, subst,
  Bool-cases, inl, inr, text_eq_iff,
}
use bloblang_lsp.Common.Dict.{Dict, lookup, insert, lookup-insert}
use bloblang_lsp.Common.Result.{Result, ok, err, ◌>>=◌}
use bloblang_lsp.Cli.Discovery.{
  System, Matcher, DirectorySettings, DiscoveryPolicy, DiscoveryError, load_settings, load_ignore,
  keep_settings, kept_settings, keep_ignore, kept_ignore, settings_for, ignore_file,
}

-- A property of what a map holds, where it is inserted into.
insert-All :
    {V : Type 0} (P : Text → V → Type 0) (m : Dict Text V) (k : Text) (v : V)
    → ((j : Text) (w : V) → lookup j m ≡ some w → P j w)
    → P k v
    → (j : Text) (w : V) → lookup j (insert k v m) ≡ some w
    → P j w
insert-All P m k v all here j w e = elim (Bool-cases (text_eq k j)) [
  | inl same ↦ subst (λ x. P x w) ((text_eq_iff k j).0 same) (subst (λ x. P k x) (found same) here)
  | inr other ↦ all j w (sym (lookup-insert k j v m ∙ rw other refl) ∙ e)
]
  where
    found : text_eq k j ≡ true → v ≡ w
    found same = cc (same, lookup-insert k j v m, e)

module _ (system : System) where
  -- Both ignore files of a directory lie in it.
  abbrev pub Joined : Text → Type 0
  Joined dir =
      (system.dir_of (system.paths.join_path dir (codes ".gitignore")) ≡ dir)
      × (system.dir_of (system.paths.join_path dir (codes ".bloblangignore")) ≡ dir)

  -- What a policy keeps is what it would read.
  pub record IsConsistent (p : DiscoveryPolicy) : Type 0 where
    pub settings :
        (dir : Text) (s : DirectorySettings)
        → lookup dir p.settings ≡ some s
        → load_settings system dir ≡ ok s
    pub ignore_files :
        (path : Text) (m : Option Matcher)
        → lookup path p.ignore_files ≡ some m
        → load_ignore system (system.dir_of path) path (system.lstat path) ≡ ok m

  -- A result with the policy that it leaves is the given one, or both are the same error.
  abbrev pub Gives {ℓ} :
      {A : Type ℓ}
      → DiscoveryPolicy
      → Result DiscoveryError (A × DiscoveryPolicy)
      → Result DiscoveryError A
      → Type ℓ
  Gives p (ok (a, p')) r =
      (r ≡ ok a) × IsConsistent p' × (p'.base ≡ p.base) × (p'.no_ignore ≡ p.no_ignore)
  Gives p (err e) r = r ≡ err e

  pub Gives-bind :
      {A B : Type 0} (p : DiscoveryPolicy) (m : Result DiscoveryError (A × DiscoveryPolicy))
      (r : Result DiscoveryError A)
      (f : A × DiscoveryPolicy → Result DiscoveryError (B × DiscoveryPolicy))
      (g : A → Result DiscoveryError B)
      → Gives p m r
      → ((a : A) (p' : DiscoveryPolicy)
          → IsConsistent p'
          → p'.base ≡ p.base
          → p'.no_ignore ≡ p.no_ignore
          → Gives p' (f (a, p')) (g a))
      → Gives p (m >>= f) (r >>= g)
  Gives-bind {B = B} p (err e) r f g h k = rw h refl
  Gives-bind {B = B} p (ok (a, p')) r f g (same, kept, b, n) k =
      rw same (further (f (a, p')) (k a p' kept b n))
    where
      further :
          (m : Result DiscoveryError (B × DiscoveryPolicy)) → Gives p' m (g a) → Gives p m (g a)
      further (err e) h = h
      further (ok (_, p'')) (same', kept', b', n') = (same', kept', b' ∙ b, n' ∙ n)

  abbrev pub read_ignore : Text → Text → Result DiscoveryError (Option Matcher)
  read_ignore dir name =
      let path = system.paths.join_path dir name in load_ignore system dir path (system.lstat path)

  pub settings_for-Gives :
      (p : DiscoveryPolicy) (dir : Text)
      → IsConsistent p
      → Gives p (settings_for system p dir) (load_settings system dir)
  unfolding settings_for
  settings_for-Gives p dir kept = on (lookup dir p.settings) refl
    where
      loaded :
          (r : Result DiscoveryError DirectorySettings)
          → load_settings system dir ≡ r
          → Gives p (r >>= λ s. ok (keep_settings system p dir s)) r
      loaded (err e) h = refl
      loaded (ok s) h = (
        refl,
        record {
          settings =
              insert-All (λ d s'. load_settings system d ≡ ok s') p.settings dir s kept.settings h;
          ignore_files = kept.ignore_files;
        },
        refl,
        refl,
      )

      on :
          (o : Option DirectorySettings)
          → lookup dir p.settings ≡ o
          → Gives p (kept_settings system p dir o) (load_settings system dir)
      on (some s) e = (kept.settings dir s e, kept, refl, refl)
      on none e = loaded (load_settings system dir) refl

  pub ignore_file-Gives :
      (p : DiscoveryPolicy) (dir name : Text)
      → system.dir_of (system.paths.join_path dir name) ≡ dir
      → IsConsistent p
      → Gives p (ignore_file system p dir name) (read_ignore dir name)
  unfolding ignore_file
  ignore_file-Gives p dir name joined kept = on (lookup path p.ignore_files) refl
    where
      path : Text
      path = system.paths.join_path dir name

      loaded :
          (r : Result DiscoveryError (Option Matcher))
          → read_ignore dir name ≡ r
          → Gives p (r >>= λ m. ok (keep_ignore system p path m)) r
      loaded (err e) h = refl
      loaded (ok m) h = (
        refl,
        record {
          settings = kept.settings;
          ignore_files =
              insert-All (λ f m'. load_ignore system (system.dir_of f) f (system.lstat f) ≡ ok m')
                p.ignore_files path m kept.ignore_files (rw joined h);
        },
        refl,
        refl,
      )

      on :
          (o : Option (Option Matcher))
          → lookup path p.ignore_files ≡ o
          → Gives p (kept_ignore system p dir path o) (read_ignore dir name)
      on (some m) e = (
        subst (λ d. load_ignore system d path (system.lstat path) ≡ ok m) joined
            (kept.ignore_files path m e),
        kept,
        refl,
        refl,
      )
      on none e = loaded (read_ignore dir name) refl
