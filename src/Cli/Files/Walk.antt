-- ===== src/Cli/Files/Walk.antt =====
-- What a walk of files.go collects.
use bloblang_lsp.Common.{
  Text, Bool, true, false, List, if◌then◌else◌, text_is_eq, ◌≡◌, ◌↔◌, refl, ◌∙◌, subst, Bool-cases,
  ◌⊎◌, inl, inr, text_eq_iff, All, contains, contains-append_one, arith,
}
use bloblang_lsp.Common.Result.{Result, ok, ◌>>=◌, >>=-eq-ok}
use bloblang_lsp.Cli.Discovery.{
  Kind, nothing, failed, symlink, regular, directory, other, System, DiscoveryPolicy,
  DiscoveryError, ignored, validate_dir,
}
use bloblang_lsp.Cli.Discovery.Kept.{Joined, IsConsistent, Gives}
use bloblang_lsp.Cli.Discovery.Cached.{
  ignored_afresh, validated_afresh, ignored-Gives, validate_dir-Gives,
}
use bloblang_lsp.Cli.Files.{
  Tree, leaf, folder, Trees, no_trees, unread, and_trees, name_of, Names, skipped_directory,
  is_source_extension, see, see_unless, visit_leaf, visit_folder, walk_dir, walk_all,
}

abbrev pub IsPlain : System → Text → Type 0
IsPlain system path = (system.paths.is_abs path ≡ true) × (system.paths.clean path ≡ path)

-- What the library of paths says of clean absolute paths: the ignore files of such a directory and of
-- those above it lie in them, and an entry has such a path again.
abbrev pub KnowsPaths : System → Type 0
KnowsPaths system =
    (path : Text)
    → IsPlain system path
    → All (Joined system) (system.paths.parents (system.dir_of path))
      × Joined system path
      × ((name : Text) → IsPlain system (system.paths.join_path path name))

see-contains :
    (path : Text) (seen : List Text) (file : Text)
    → (contains (see path seen) file ≡ true) ↔ ((contains seen file ≡ true) ⊎ (file ≡ path))
see-contains path seen file = elim (Bool-cases (contains seen path)) [
  | inl h ↦ rw h (λ e. inl e, λ x. elim x [ inl e ↦ e | inr e ↦ rw e h ])
  | inr h ↦
      rw (h, contains-append_one seen path file)
        (ground (arith, text_eq_iff path file), ground (arith, text_eq_iff path file))
]

module _ (system : System) (names : Names) (base : Text) (no_ignore : Bool) where
  abbrev Afresh : Text → Bool → Bool → Type 0
  Afresh path is_directory b = ignored_afresh system base no_ignore path is_directory ≡ ok b

  abbrev OffersLeaf : Kind → Text → Text → Type 0
  OffersLeaf regular path file =
      (file ≡ path) × Afresh path false false × (is_source_extension (names.extension path) ≡ true)
  OffersLeaf nothing path file = ⊥
  OffersLeaf failed path file = ⊥
  OffersLeaf symlink path file = ⊥
  OffersLeaf directory path file = ⊥
  OffersLeaf other path file = ⊥

  -- A file that is to be found below a path: a regular one with a name for it, not ignored, and no
  -- directory on the way is ignored or one of those that are always left out.
  abbrev mutual
    pub Offers : Text → Tree → Text → Type 0
    Offers path (leaf name kind) file = OffersLeaf kind path file
    Offers path (folder name entries) file =
        (skipped_directory name ≡ false) × Afresh path true false × OffersAny path entries file

    pub OffersAny : Text → Trees → Text → Type 0
    OffersAny path no_trees file = ⊥
    OffersAny path unread file = ⊥
    OffersAny path (and_trees t ts) file =
        Offers (system.paths.join_path path (name_of t)) t file ⊎ OffersAny path ts file

  abbrev Kept : DiscoveryPolicy → Type 0
  Kept p = IsConsistent system p × (p.base ≡ base) × (p.no_ignore ≡ no_ignore)

  ignored-Kept :
      (p p' : DiscoveryPolicy) (path : Text) (is_directory b : Bool)
      → All (Joined system) (system.paths.parents (system.dir_of path))
      → Kept p
      → ignored system p path is_directory ≡ ok (b, p')
      → Kept p' × Afresh path is_directory b
  ignored-Kept p p' path is_directory b joined (kept, eb, en) h =
      let (same, kept', eb', en') =
        subst (λ m. Gives system p m (ignored_afresh system p.base p.no_ignore path is_directory)) h
          (ignored-Gives system p path is_directory joined kept) in
      ((kept', eb' ∙ eb, en' ∙ en), rw (← eb, ← en) same)

  validate_dir-Kept :
      (p p' : DiscoveryPolicy) (path : Text) {u : Unit {0}}
      → Joined system path
      → Kept p
      → validate_dir system p path ≡ ok (u, p')
      → Kept p'
  validate_dir-Kept p p' path joined (kept, eb, en) h =
      let (same, kept', eb', en') =
        subst (λ m. Gives system p m (validated_afresh system p.no_ignore path)) h
          (validate_dir-Gives system p path joined kept) in
      (kept', eb' ∙ eb, en' ∙ en)

  -- The files that are seen afterwards: those from before, and new ones.
  abbrev pub Adds : List Text → List Text → (Text → Type 0) → Type 0
  Adds seen seen' P =
      (file : Text) → (contains seen' file ≡ true) ↔ ((contains seen file ≡ true) ⊎ P file)

  abbrev Visited :
      Text
      → List Text
      → (Text → Type 0)
      → Result DiscoveryError (List Text × DiscoveryPolicy)
      → Type 0
  Visited path seen P m =
      (seen' : List Text) (p' : DiscoveryPolicy) → m ≡ ok (seen', p') → Kept p' × Adds seen seen' P

  nothing-Adds :
      (seen : List Text) (P : Text → Type 0) → ((file : Text) → ¬ (P file)) → Adds seen seen P
  nothing-Adds seen P h file = (λ e. inl e, λ x. elim x [ inl e ↦ e | inr q ↦ absurd (h file q) ])

  unchanged-Visited :
      (path : Text) (seen : List Text) (p : DiscoveryPolicy) (P : Text → Type 0)
      → Kept p
      → ((file : Text) → ¬ (P file))
      → Visited path seen P (ok (seen, p))
  unchanged-Visited path seen p P kept h seen' p' e =
      (subst Kept (cc e) kept, subst (λ s. Adds seen s P) (cc e) (nothing-Adds seen P h))

  visit_file-Visited :
      KnowsPaths system
      → (path : Text) (seen : List Text) (p : DiscoveryPolicy) → IsPlain system path
      → Kept p
      → Visited path seen (OffersLeaf regular path) (visit_leaf system names regular path seen p)
  visit_file-Visited paths path seen p plain kept seen' p' e =
      let ((b, p₁), h, same) =
        >>=-eq-ok (ignored system p path false)
          (λ (b, p₁). ok (see_unless system names b path seen, p₁)) e in
      let (kept₁, answer) = ignored-Kept p p₁ path false b (paths path plain).0 kept h in
      (
        subst Kept (cc same) kept₁,
        subst (λ s. Adds seen s (OffersLeaf regular path)) (cc same)
            (seen-Adds b answer (Bool-cases (is_source_extension (names.extension path)))),
      )
    where
      seen-Adds :
          (b : Bool)
          → Afresh path false b
          → (is_source_extension (names.extension path) ≡ true)
            ⊎ (is_source_extension (names.extension path) ≡ false)
          → Adds seen (see_unless system names b path seen) (OffersLeaf regular path)
      seen-Adds true answer _ = nothing-Adds seen _ (λ file q. absurd cc)
      seen-Adds false answer (inr h) = rw h (nothing-Adds seen _ (λ file q. absurd cc))
      seen-Adds false answer (inl h) = rw h (λ file. (
        λ e. elim ((see-contains path seen file).0 e) [
          | inl k ↦ inl k
          | inr k ↦ inr (k, answer, refl)
        ],
        λ x. (see-contains path seen file).1 (elim x [ inl k ↦ inl k | inr k ↦ inr k.0 ]),
      ))

  visit_leaf-Visited :
      KnowsPaths system
      → (kind : Kind) (path : Text) (seen : List Text) (p : DiscoveryPolicy) → IsPlain system path
      → Kept p
      → Visited path seen (OffersLeaf kind path) (visit_leaf system names kind path seen p)
  visit_leaf-Visited paths nothing path seen p plain kept =
      unchanged-Visited path seen p _ kept (λ _ q. q)
  visit_leaf-Visited paths failed path seen p plain kept =
      unchanged-Visited path seen p _ kept (λ _ q. q)
  visit_leaf-Visited paths symlink path seen p plain kept =
      unchanged-Visited path seen p _ kept (λ _ q. q)
  visit_leaf-Visited paths directory path seen p plain kept =
      unchanged-Visited path seen p _ kept (λ _ q. q)
  visit_leaf-Visited paths other path seen p plain kept =
      unchanged-Visited path seen p _ kept (λ _ q. q)
  visit_leaf-Visited paths regular path seen p plain kept =
      visit_file-Visited paths path seen p plain kept

  -- A directory, by what the walk over its entries does.
  visit_folder-Visited :
      KnowsPaths system
      → (name path : Text) (seen : List Text) (p : DiscoveryPolicy) (P : Text → Type 0)
        (inside : DiscoveryPolicy → Result DiscoveryError (List Text × DiscoveryPolicy))
      → IsPlain system path
      → Kept p
      → ((p' : DiscoveryPolicy) → Kept p' → Visited path seen P (inside p'))
      → Visited path seen
          (λ file. (skipped_directory name ≡ false) × Afresh path true false × P file)
          (visit_folder system names name path seen p inside)
  visit_folder-Visited paths name path seen p P inside plain kept further =
      elim (Bool-cases (skipped_directory name)) [
        | inl h ↦ rw h (unchanged-Visited path seen p _ kept (λ file q. cc))
        | inr h ↦ rw h (λ seen' p' e.
            let ((b, p₁), k, same) =
              >>=-eq-ok (ignored system p path true)
                (λ (b, p₁).
                  if b
                  then ok (seen, p₁)
                  else (validate_dir system p₁ path >>= λ (_, p₂). inside p₂))
                e in
            let (kept₁, answer) = ignored-Kept p p₁ path true b (paths path plain).0 kept k in
            opened b p₁ answer kept₁ seen' p' same)
      ]
    where
      opened :
          (b : Bool) (p₁ : DiscoveryPolicy)
          → Afresh path true b
          → Kept p₁
          → Visited path seen
              (λ file. (false ≡ false) × Afresh path true false × P file)
              (if b then ok (seen, p₁) else (validate_dir system p₁ path >>= λ (_, p₂). inside p₂))
      opened true p₁ answer kept₁ = unchanged-Visited path seen p₁ _ kept₁ (λ file q. cc)
      opened false p₁ answer kept₁ = λ seen' p' e.
          let ((_, p₂), k, same) =
            >>=-eq-ok (validate_dir system p₁ path) (λ (_, p₂). inside p₂) e in
          let (kept', adds) =
            further p₂ (validate_dir-Kept p₁ p₂ path (paths path plain).1 kept₁ k) seen' p' same in
          (
            kept',
            λ file. (
              λ m. elim ((adds file).0 m) [ inl old ↦ inl old | inr new ↦ inr (refl, answer, new) ],
              λ x. (adds file).1 (elim x [ inl old ↦ inl old | inr new ↦ inr new.2 ]),
            ),
          )

  Adds-trans :
      (s t u : List Text) (P Q : Text → Type 0)
      → Adds s t P
      → Adds t u Q
      → Adds s u (λ file. P file ⊎ Q file)
  Adds-trans s t u P Q f g file = (
    λ m. elim ((g file).0 m) [
      | inl h ↦ elim ((f file).0 h) [ inl old ↦ inl old | inr new ↦ inr (inl new) ]
      | inr new ↦ inr (inr new)
    ],
    λ x. elim x [
      | inl old ↦ (g file).1 (inl ((f file).1 (inl old)))
      | inr new ↦ elim new [
        | inl first ↦ (g file).1 (inl ((f file).1 (inr first)))
        | inr second ↦ (g file).1 (inr second)
      ]
    ],
  )

  mutual
    unfolding walk_dir walk_all

    walk_dir-Visited :
        KnowsPaths system
        → (path : Text) (t : Tree) (seen : List Text) (p : DiscoveryPolicy) → IsPlain system path
        → Kept p
        → Visited path seen (Offers path t) (walk_dir system names path t seen p)
    walk_dir-Visited paths path (leaf name kind) seen p plain kept =
        visit_leaf-Visited paths kind path seen p plain kept
    walk_dir-Visited paths path (folder name entries) seen p plain kept =
        visit_folder-Visited paths name path seen p (OffersAny path entries)
          (λ p'. walk_all system names path entries seen p') plain kept
          (λ p' kept'. walk_all-Visited paths path entries seen p' plain kept')

    walk_all-Visited :
        KnowsPaths system
        → (path : Text) (ts : Trees) (seen : List Text) (p : DiscoveryPolicy) → IsPlain system path
        → Kept p
        → Visited path seen (OffersAny path ts) (walk_all system names path ts seen p)
    walk_all-Visited paths path no_trees seen p plain kept =
        unchanged-Visited path seen p _ kept (λ _ q. q)
    walk_all-Visited paths path unread seen p plain kept = λ seen' p' e. absurd cc
    walk_all-Visited paths path (and_trees t ts) seen p plain kept = λ seen' p' e.
        let below = system.paths.join_path path (name_of t) in
        let ((seen₁, p₁), h, same) =
          >>=-eq-ok (walk_dir system names below t seen p)
            (λ (s', p'). walk_all system names path ts s' p') e in
        let (kept₁, adds) =
          walk_dir-Visited paths below t seen p ((paths path plain).2 (name_of t)) kept seen₁ p₁
            h in
        let (kept', more) = walk_all-Visited paths path ts seen₁ p₁ plain kept₁ seen' p' same in
        (kept', Adds-trans seen seen₁ seen' _ _ adds more)

-- A walk that succeeds sees, beside what was seen before, exactly the files that are to be found: the
-- regular files with one of the four extensions that are not ignored, in directories none of which
-- is ignored or always left out.
pub walk_dir-Offers :
    (system : System) (names : Names) (p p' : DiscoveryPolicy) (path : Text) (t : Tree)
    (seen seen' : List Text)
    → KnowsPaths system
    → IsPlain system path
    → IsConsistent system p
    → walk_dir system names path t seen p ≡ ok (seen', p')
    → Adds system names p.base p.no_ignore seen seen'
        (Offers system names p.base p.no_ignore path t)
walk_dir-Offers system names p p' path t seen seen' paths plain kept h =
    (walk_dir-Visited system names p.base p.no_ignore paths path t seen p plain (kept, refl, refl)
      seen' p' h).1
