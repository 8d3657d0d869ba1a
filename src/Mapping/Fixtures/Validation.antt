-- ===== src/Mapping/Fixtures/Validation.antt =====
-- Which fixture suites internal/mapping/fixtures.go accepts.
use mathlib.Core.Option.{some-injective}
use bloblang_lsp.Common.{
  ℕ, ◌+◌, Text, Bool, true, false, not, ◌&&◌, ◌||◌, Option, none, some, List, [], ◌∷◌, ◌≡◌, ◌≢◌,
  ◌↔◌, refl, arith, if◌then◌else◌, text_eq_iff, text_is_eq, contains, Distinct, All, map, subst,
}
use bloblang_lsp.Common.Strings.{all_space}
use bloblang_lsp.Mapping.Fixtures.{
  ExpectedError, FixtureCase, JsonLibrary, Suite, SuiteError, is_empty, is_nil, no_cases,
}
use bloblang_lsp.Mapping.Fixtures.Rules.{
  is_none, or_else, says_nothing, validate, validate_case, validate_cases,
}

abbrev pub name_of : {V : Type 0} → FixtureCase V → Text
name_of t = t.name

guard_iff :
    (b : Bool) (e : SuiteError) (rest : Option SuiteError)
    → ((if b then some e else rest) ≡ none) ↔ ((b ≡ false) × (rest ≡ none))
guard_iff true e rest = (λ h. cc, λ (p, q). cc)
guard_iff false e rest = (λ h. (refl, h), λ (p, q). q)

or_else_iff : (a b : Option SuiteError) → (or_else a b ≡ none) ↔ ((a ≡ none) × (b ≡ none))
or_else_iff none b = (λ h. (refl, h), λ (p, q). q)
or_else_iff (some e) b = (λ h. cc, λ (p, q). cc)

paths_iff :
    (a b c : Text)
    → ((not (is_empty a) || not (is_empty b) || not (is_empty c)) ≡ false)
      ↔ ((a ≡ []) × (b ≡ []) × (c ≡ []))
paths_iff [] [] [] = (λ h. (refl, refl, refl), λ h. refl)
paths_iff (x ∷ a) b c = (λ h. ground (arith, h), λ (p, q, r). cc)
paths_iff [] (x ∷ b) c = (λ h. ground (arith, h), λ (p, q, r). cc)
paths_iff [] [] (x ∷ c) = (λ h. cc, λ (p, q, r). cc)

sources_iff : (a b : Text) → ((is_empty a && is_empty b) ≡ false) ↔ (a ≡ [] → b ≢ [])
sources_iff [] [] = (λ h. cc, λ h. absurd (h refl refl))
sources_iff [] (x ∷ b) = (λ h e k. cc, λ h. refl)
sources_iff (x ∷ a) b = (λ h e. cc, λ h. refl)

input_iff : (a : Text) → (is_empty a ≡ false) ↔ (a ≢ [])
input_iff [] = (λ h. cc, λ h. absurd (h refl))
input_iff (x ∷ a) = (λ h e. cc, λ h. refl)

not_iff : (b : Bool) → (not b ≡ false) ↔ (b ≡ true)
not_iff true = (λ h. refl, λ h. refl)
not_iff false = (λ h. cc, λ h. cc)

given_iff : (s : Text) (b : Bool) → ((not (is_empty s) && not b) ≡ false) ↔ (s ≢ [] → b ≡ true)
given_iff [] b = (λ h k. absurd (k refl), λ h. refl)
given_iff (c ∷ s) true = (λ h k. refl, λ h. refl)
given_iff (c ∷ s) false = (λ h. cc, λ h. absurd (ground (arith, h (λ e. cc))))

expectations_iff :
    {V : Type 0} (o : Text) (m : Option V) (d : Option Bool) (e : Option ExpectedError)
    → ((is_empty o && is_none m && is_none d && is_none e) ≡ false)
      ↔ (o ≡ [] → m ≡ none → d ≡ none → e ≢ none)
expectations_iff [] none none none = (λ h. cc, λ h. absurd (h refl refl refl refl))
expectations_iff (x ∷ o) m d e = (λ h p. cc, λ h. refl)
expectations_iff [] (some x) d e = (λ h p q. cc, λ h. refl)
expectations_iff [] none (some x) e = (λ h p q r. cc, λ h. refl)
expectations_iff [] none none (some x) = (λ h p q r t. cc, λ h. refl)

said_iff :
    (e : Option ExpectedError)
    → (says_nothing e ≡ false) ↔ ((x : ExpectedError) → e ≡ some x → x.kind ≡ [] → x.contains ≢ [])
said_iff none = (λ h x p. cc, λ h. refl)
said_iff (some y) =
    let same = sources_iff y.kind y.contains in
    (
      λ h x p. subst (λ z. z.kind ≡ [] → z.contains ≢ []) (some-injective y x p) (same.0 h),
      λ h. same.1 (h y refl),
    )

-- A given text that must be valid.
abbrev pub ValidIfGiven : (Text → Bool) → Text → Type 0
ValidIfGiven valid s = s ≢ [] → valid s ≡ true

module _ {V : Type 0} (library : JsonLibrary V) where
  -- A case that reads no file, has a source, a JSON input and expectations, all of them sound.
  abbrev pub IsCase : Text → FixtureCase V → Type 0
  IsCase source t =
      ((t.request.mapping_path ≡ []) × (t.request.input_path ≡ []) × (t.request.sample_path ≡ []))
      × ((t.request.source ≡ []) → source ≢ [])
      × ((t.request.input ≢ []) × (library.json_valid t.request.input ≡ true))
      × ValidIfGiven library.json_valid t.request.root
      × ((t.expect.output ≡ [])
          → (t.expect.metadata ≡ none)
          → (t.expect.deleted ≡ none)
          → t.expect.error ≢ none)
      × ValidIfGiven library.json_valid t.expect.output
      × ((x : ExpectedError) → t.expect.error ≡ some x → x.kind ≡ [] → x.contains ≢ [])

  validate_case_iff :
      (source : Text) (t : FixtureCase V)
      → (validate_case library source t ≡ none) ↔ IsCase source t
  unfolding validate_case
  validate_case_iff source t =
      let r = t.request in
      let x = t.expect in
      let paths = paths_iff r.mapping_path r.input_path r.sample_path in
      let sources = sources_iff r.source source in
      let input = input_iff r.input in
      let valid = not_iff (library.json_valid r.input) in
      let root = given_iff r.root (library.json_valid r.root) in
      let given = expectations_iff x.output x.metadata x.deleted x.error in
      let output = given_iff x.output (library.json_valid x.output) in
      let error = said_iff x.error in
      (
        λ h.
            let h₁ = (guard_iff _ _ _).0 h in
            let h₂ = (guard_iff _ _ _).0 h₁.1 in
            let h₃ = (guard_iff _ _ _).0 h₂.1 in
            let h₄ = (guard_iff _ _ _).0 h₃.1 in
            let h₅ = (guard_iff _ _ _).0 h₄.1 in
            let h₆ = (guard_iff _ _ _).0 h₅.1 in
            let h₇ = (guard_iff _ _ _).0 h₆.1 in
            let h₈ = (guard_iff _ _ _).0 h₇.1 in
            (
              paths.0 h₁.0,
              sources.0 h₂.0,
              (input.0 h₃.0, valid.0 h₄.0),
              root.0 h₅.0,
              given.0 h₆.0,
              output.0 h₇.0,
              error.0 h₈.0,
            ),
        λ (p, s, (i, v), o, g, u, e).
            rw
              (
                paths.1 p,
                sources.1 s,
                input.1 i,
                valid.1 v,
                root.1 o,
                given.1 g,
                output.1 u,
                error.1 e,
              )
              refl,
      )

  -- A case with a name of its own that is sound.
  abbrev pub IsNamedCase : Text → FixtureCase V → Type 0
  IsNamedCase source t = (all_space t.name ≡ false) × IsCase source t

  abbrev IsNew : List Text → FixtureCase V → Type 0
  IsNew names t = contains names t.name ≡ false

  All-IsNew_cons :
      (n : Text) (names : List Text) (ts : List (FixtureCase V))
      → All (IsNew (n ∷ names)) ts ↔ ((contains (map name_of ts) n ≡ false) × All (IsNew names) ts)
  All-IsNew_cons n names [] = (λ h. (refl, tt), λ h. tt)
  All-IsNew_cons n names (t ∷ ts) =
      let rest = All-IsNew_cons n names ts in
      let here = text_eq_iff n t.name in
      let there = text_eq_iff t.name n in
      (
        λ (h, k).
            let (fresh, new) = rest.0 k in
            (ground (arith, h, fresh, here, there), (ground (arith, h), new)),
        λ (h, (k, l)). (ground (arith, h, k, here, there), rest.1 (ground (arith, h), l)),
      )

  validate_cases_iff :
      (source : Text) (i : ℕ) (names : List Text) (ts : List (FixtureCase V))
      → (validate_cases library source i names ts ≡ none)
        ↔ (All (IsNamedCase source) ts × Distinct (map name_of ts) × All (IsNew names) ts)
  unfolding validate_cases
  validate_cases_iff source i names [] = (λ h. (tt, tt, tt), λ h. refl)
  validate_cases_iff source i names (t ∷ ts) =
      let later = validate_cases_iff source (i + 1) (t.name ∷ names) ts in
      let sound = validate_case_iff source t in
      let split = All-IsNew_cons t.name names ts in
      let both =
        or_else_iff (validate_case library source t)
          (validate_cases library source (i + 1) (t.name ∷ names) ts) in
      (
        λ h.
            let h₁ = (guard_iff _ _ _).0 h in
            let h₂ = (guard_iff _ _ _).0 h₁.1 in
            let (c, r) = both.0 h₂.1 in
            let (all, distinct, new) = later.0 r in
            let (fresh, new') = split.0 new in
            (((h₁.0, sound.0 c), all), (fresh, distinct), (h₂.0, new')),
        λ (((a, c), all), (fresh, distinct), (n, new)).
            rw (a, n) (both.1 (sound.1 c, later.1 (all, distinct, split.1 (fresh, new)))),
      )

  -- A suite is accepted exactly when it has cases, their names differ and are not blank, and each
  -- case reads no file, has a source of its own or of the suite, a JSON input, a JSON root and
  -- output where they are given, and at least one expectation that says something.
  pub validate_iff :
      (s : Suite V)
      → (validate library s ≡ none)
        ↔ ((s.cases ≢ []) × All (IsNamedCase s.source) s.cases × Distinct (map name_of s.cases))
  unfolding validate
  validate_iff s = go s.cases
    where
      new : (ts : List (FixtureCase V)) → All (IsNew []) ts
      new [] = tt
      new (t ∷ ts) = (refl, new ts)

      go :
          (ts : List (FixtureCase V))
          → ((if is_nil ts then some no_cases else validate_cases library s.source 0 [] ts) ≡ none)
            ↔ ((ts ≢ []) × All (IsNamedCase s.source) ts × Distinct (map name_of ts))
      go [] = (λ h. cc, λ (p, a, d). absurd (p refl))
      go (t ∷ ts) =
          let inner = validate_cases_iff s.source 0 [] (t ∷ ts) in
          (
            λ h. let (a, d, n) = inner.0 h in ((λ e. cc), a, d),
            λ (p, a, d). inner.1 (a, d, new (t ∷ ts)),
          )
