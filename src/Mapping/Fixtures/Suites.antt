-- ===== src/Mapping/Fixtures/Suites.antt =====
-- The runs of fixture suites in internal/mapping/fixtures.go.
use bloblang_lsp.Common.{
  ℕ, suc, ◌+◌, ◌≤◌, Bool, false, Option, none, some, List, [], ◌∷◌, ◌++◌, ◌≡◌, refl, sym, ap, ◌∙◌,
  arith, length, take, map, if◌then◌else◌, Bool-cases, inl, inr, append_assoc, append-nil,
  length-append,
}
use bloblang_lsp.Mapping.Fixtures.{
  FixtureCase, FixtureCaseResult, JsonLibrary, Request, Result, Suite, SuiteError, SuiteResult,
  cancelled,
}
use bloblang_lsp.Mapping.Fixtures.Rules.{validate}
use bloblang_lsp.Mapping.Fixtures.Runner.{
  add_case, case_result, no_results, run_cases, run_suite, run_valid,
}

module _ {V : Type 0} where
  abbrev pub count_passed : List (FixtureCaseResult V) → ℕ
  count_passed [] = 0
  count_passed (c ∷ cs) = let rest = count_passed cs in if c.passed then suc rest else rest

  -- The two counters count the results that passed and those that failed.
  abbrev pub IsCounted : SuiteResult V → Type 0
  IsCounted r = (r.passed ≡ count_passed r.cases) × (r.passed + r.failed ≡ length r.cases)

  count_passed-append_one :
      (cs : List (FixtureCaseResult V)) (c : FixtureCaseResult V)
      → count_passed (cs ++ c ∷ []) ≡ (if c.passed then count_passed cs + 1 else count_passed cs)
  count_passed-append_one [] c = ground arith
  count_passed-append_one (d ∷ cs) c = ground (arith, count_passed-append_one cs c)

  add_case-IsCounted :
      (r : SuiteResult V) (c : FixtureCaseResult V) → IsCounted r → IsCounted (add_case r c)
  add_case-IsCounted r c h = (
    ground (arith, h.0, count_passed-append_one r.cases c),
    ground (arith, h.1, length-append r.cases (c ∷ [])),
  )

  -- The results of a run that began with `before`: those of the first `n` cases follow, and of all
  -- cases if it ended without an error.
  abbrev pub IsRunOf :
      (FixtureCase V → FixtureCaseResult V)
      → List (FixtureCase V)
      → List (FixtureCaseResult V)
      → SuiteResult V × Option SuiteError
      → Type 0
  IsRunOf f tests before (r, e) =
      (n : ℕ) × (r.cases ≡ before ++ map f (take n tests))
      × (n ≤ length tests)
      × (e ≡ none → n ≡ length tests)

  stopped-IsRunOf :
      (f : FixtureCase V → FixtureCaseResult V) (tests : List (FixtureCase V)) (r : SuiteResult V)
      (e : SuiteError)
      → IsRunOf f tests r.cases (r, some e)
  stopped-IsRunOf f tests r e = (0, sym (append-nil r.cases), omega arith, λ h. cc)

  onward-IsRunOf :
      (f : FixtureCase V → FixtureCaseResult V) (t : FixtureCase V) (tests : List (FixtureCase V))
      (before : List (FixtureCaseResult V)) (x : SuiteResult V × Option SuiteError)
      → IsRunOf f tests (before ++ f t ∷ []) x
      → IsRunOf f (t ∷ tests) before x
  onward-IsRunOf f t tests before x (n, same, bound, all) = (
    suc n,
    same ∙ append_assoc before (f t ∷ []) (map f (take n tests)),
    omega arith,
    λ h. ap suc (all h),
  )

module _ {V : Type 0} (library : JsonLibrary V) (done : ℕ → Bool) where
  module _ (s : Suite V) (run : Request → Result V) where
    run_cases-IsCounted :
        (i : ℕ) (tests : List (FixtureCase V)) (r : SuiteResult V)
        → IsCounted r
        → IsCounted (run_cases library done s run i tests r).0
    unfolding run_cases
    run_cases-IsCounted i [] r h = h
    run_cases-IsCounted i (t ∷ ts) r h =
        let later =
          run_cases-IsCounted (i + 2) ts (add_case r (case_result library s run t))
            (add_case-IsCounted r (case_result library s run t) h) in
        elim (Bool-cases (done i)) [
          | inl e ↦ rw e h
          | inr e ↦ elim (Bool-cases (done (i + 1))) [
            | inl d ↦ rw (e, d) h
            | inr d ↦ rw (e, d) later
          ]
        ]

    run_cases-IsRunOf :
        (i : ℕ) (tests : List (FixtureCase V)) (r : SuiteResult V)
        → IsRunOf (case_result library s run) tests r.cases (run_cases library done s run i tests r)
    unfolding run_cases
    run_cases-IsRunOf i [] r = (0, sym (append-nil r.cases), omega arith, λ h. refl)
    run_cases-IsRunOf i (t ∷ ts) r =
        let f = case_result library s run in
        let later =
          onward-IsRunOf f t ts r.cases (run_cases library done s run (i + 2) ts (add_case r (f t)))
            (run_cases-IsRunOf (i + 2) ts (add_case r (f t))) in
        let stop = stopped-IsRunOf f (t ∷ ts) r cancelled in
        elim (Bool-cases (done i)) [
          | inl e ↦ rw e stop
          | inr e ↦ elim (Bool-cases (done (i + 1))) [
            | inl d ↦ rw (e, d) stop
            | inr d ↦ rw (e, d) later
          ]
        ]

    run_cases-completes :
        (i : ℕ) (tests : List (FixtureCase V)) (r : SuiteResult V)
        → ((j : ℕ) → done j ≡ false)
        → ((run_cases library done s run i tests r).1 ≡ none)
          × ((run_cases library done s run i tests r).0.cases
              ≡ r.cases ++ map (case_result library s run) tests)
    unfolding run_cases
    run_cases-completes i [] r h = (refl, sym (append-nil r.cases))
    run_cases-completes i (t ∷ ts) r h =
        let f = case_result library s run in
        let (done', all) = run_cases-completes (i + 2) ts (add_case r (f t)) h in
        rw (h i, h (i + 1)) (done', all ∙ append_assoc r.cases (f t ∷ []) (map f ts))

  -- Whenever the context is cancelled: a run's results are those of the suite's first cases, in
  -- order and each computed from its own case alone, all of them if it ends without an error; and
  -- the two counters count the results that passed and those that failed.
  pub run_suite-IsRunOf :
      (s : Suite V) (run : Request → Result V)
      → IsRunOf (case_result library s run) s.cases [] (run_suite library done s (some run))
        × IsCounted (run_suite library done s (some run)).0
  unfolding run_suite
  run_suite-IsRunOf s run = go (validate library s)
    where
      go :
          (e : Option SuiteError)
          → IsRunOf (case_result library s run) s.cases [] (run_valid library done s (some run) e)
            × IsCounted (run_valid library done s (some run) e).0
      go (some e) = (stopped-IsRunOf (case_result library s run) s.cases no_results e, (refl, refl))
      go none = (
        run_cases-IsRunOf s run 0 s.cases no_results,
        run_cases-IsCounted s run 0 s.cases no_results (refl, refl),
      )

  -- A suite that passes the validation runs to its end if the context is never cancelled: there is
  -- no error, the results are those of all its cases in order, each computed from its own case
  -- alone, and the two counters count the results that passed and those that failed.
  pub run_suite-completes :
      (s : Suite V) (run : Request → Result V)
      → validate library s ≡ none
      → ((j : ℕ) → done j ≡ false)
      → let (r, e) = run_suite library done s (some run) in
        (e ≡ none) × (r.cases ≡ map (case_result library s run) s.cases) × IsCounted r
  run_suite-completes s run v h =
      let (ended, all) = whole in (ended, all, (run_suite-IsRunOf s run).1)
    where
      whole :
          ((run_suite library done s (some run)).1 ≡ none)
          × ((run_suite library done s (some run)).0.cases
              ≡ map (case_result library s run) s.cases)
      whole = unfold run_suite in rw v (run_cases-completes s run 0 s.cases no_results h)
