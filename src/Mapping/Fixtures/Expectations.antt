-- ===== src/Mapping/Fixtures/Expectations.antt =====
-- What a fixture of internal/mapping/fixtures.go expects of a result, and the maps it is run with.
use mathlib.Core.Option.{some-injective}
use bloblang_lsp.Common.{
  Text, Bool, true, false, not, ◌&&◌, Option, none, some, List, [], ◌∷◌, ◌++◌, ◌≡◌, ◌≢◌, ◌↔◌, refl,
  sym, ap, ◌∙◌, arith, if◌then◌else◌, Bool-cases, inl, inr, text_eq, text_eq_iff, text_is_eq,
  contains, Distinct, map, subst,
}
use bloblang_lsp.Common.Dict.{lookup-absent, Dict, lookup, insert, lookup-insert}
use bloblang_lsp.Common.Strings.{has_part}
use bloblang_lsp.Mapping.Fixtures.{
  Error, Expectation, ExpectedError, Failure, Field, Json, JsonLibrary, Result, is_empty, metadata,
  output,
}
use bloblang_lsp.Mapping.Fixtures.Checks.{
  check, compare_json, deleted_failures, error_failures, fixture_equal, lint_failures,
  metadata_failures, metadata_or_empty, output_failures,
}
use bloblang_lsp.Mapping.Fixtures.Runner.{insert_all, merge_fixture_maps}

append-nil_iff : {A : Type 0} (xs ys : List A) → (xs ++ ys ≡ []) ↔ ((xs ≡ []) × (ys ≡ []))
append-nil_iff [] ys = (λ h. (refl, h), λ h. h.1)
append-nil_iff (x ∷ xs) ys = (λ h. cc, λ h. cc)

five-nil_iff :
    {A : Type 0} (a b c d e : List A)
    → (a ++ b ++ c ++ d ++ e ≡ []) ↔ ((a ≡ []) × (b ≡ []) × (c ≡ []) × (d ≡ []) × (e ≡ []))
five-nil_iff a b c d e = (
  λ h.
      let p = (append-nil_iff (a ++ b ++ c ++ d) e).0 h in
      let q = (append-nil_iff (a ++ b ++ c) d).0 p.0 in
      let s = (append-nil_iff (a ++ b) c).0 q.0 in
      let t = (append-nil_iff a b).0 s.0 in (t.0, t.1, s.1, q.1, p.1),
  λ (p, q, s, t, u). (append-nil_iff (a ++ b ++ c ++ d) e).1 (
    (append-nil_iff (a ++ b ++ c) d).1
        ((append-nil_iff (a ++ b) c).1 ((append-nil_iff a b).1 (p, q), s), t),
    u,
  ),
)

-- The result has no error if none is expected, and else one of the kind and with the text.
abbrev pub ErrorMet : Option ExpectedError → Option Error → Type 0
ErrorMet none actual = actual ≡ none
ErrorMet (some x) actual =
    (e : Error) × (actual ≡ some e)
    × (x.kind ≢ [] → x.kind ≡ e.kind)
    × (x.contains ≢ [] → has_part x.contains e.message ≡ true)

-- A test that is made only if a text is given.
given_iff :
    (x : Text) (b : Bool) (f : Failure)
    → ((if not (is_empty x) && not b then f ∷ [] else []) ≡ []) ↔ (x ≢ [] → b ≡ true)
given_iff [] b f = (λ h k. absurd (k refl), λ h. refl)
given_iff (c ∷ s) true f = (λ h k. refl, λ h. refl)
given_iff (c ∷ s) false f = (λ h. cc, λ h. absurd (ground (arith, h (λ e. cc))))

error_failures_iff :
    (x : Option ExpectedError) (e : Option Error) → (error_failures x e ≡ []) ↔ ErrorMet x e
error_failures_iff none none = (λ h. refl, λ h. refl)
error_failures_iff none (some e) = (λ h. cc, λ h. cc)
error_failures_iff (some x) none = (λ h. cc, λ h. cc)
error_failures_iff (some x) (some e) = (
  λ h.
      let both = (append-nil_iff _ _).0 h in
      (
        e,
        refl,
        λ k.
            (text_eq_iff x.kind e.kind).0 ((given_iff x.kind (text_eq x.kind e.kind) _).0 both.0 k),
        (given_iff x.contains (has_part x.contains e.message) _).0 both.1,
      ),
  λ (a, same, kind, part).
      let same' : e ≡ a = some-injective e a same in
      (append-nil_iff _ _).1 (
        (given_iff x.kind (text_eq x.kind e.kind) _).1
            (λ k. (text_eq_iff x.kind e.kind).1 (kind k ∙ sym (ap (λ z. z.kind) same'))),
        (given_iff x.contains (has_part x.contains e.message) _).1
            (λ k. ap (λ z. has_part x.contains z.message) same' ∙ part k),
      ),
)

abbrev pub DeletedMet : Option Bool → Bool → Type 0
DeletedMet none actual = Unit
DeletedMet (some want) actual = want ≡ actual

deleted_failures_iff :
    (want : Option Bool) (actual : Bool)
    → (deleted_failures want actual ≡ []) ↔ DeletedMet want actual
deleted_failures_iff none actual = (λ h. tt, λ h. refl)
deleted_failures_iff (some true) true = (λ h. refl, λ h. refl)
deleted_failures_iff (some false) false = (λ h. refl, λ h. refl)
deleted_failures_iff (some true) false = (λ h. cc, λ h. cc)
deleted_failures_iff (some false) true = (λ h. cc, λ h. cc)

lint_failures_iff : (e : Option Error) → (lint_failures e ≡ []) ↔ (e ≡ none)
lint_failures_iff none = (λ h. refl, λ h. refl)
lint_failures_iff (some e) = (λ h. cc, λ h. cc)

module _ {V : Type 0} (library : JsonLibrary V) where
  -- Both values are JSON, and equal as JSON.
  abbrev pub Same : V → V → Type 0
  Same want got =
      (a : Json) × (b : Json) × (library.encode want ≡ some a)
      × (library.encode got ≡ some b)
      × (fixture_equal library.same_number a b ≡ true)

  compare_json_iff :
      (f : Field) (want got : Option Json)
      → (compare_json library f want got ≡ []) ↔ (
          (a : Json) × (b : Json) × (want ≡ some a)
          × (got ≡ some b)
          × (fixture_equal library.same_number a b ≡ true))
  compare_json_iff f (some a) (some b) = elim (Bool-cases (fixture_equal library.same_number a b)) [
    | inl e ↦ (λ h. (a, b, refl, refl, e), λ h. rw e refl)
    | inr e ↦ (
      λ h. absurd (ground (arith, e, h)),
      λ (a', b', p, q, k). absurd (
          ground (
            arith,
            e,
            sym (ap (λ z. fixture_equal library.same_number z b) (some-injective a a' p)),
            ap (λ z. fixture_equal library.same_number a' z) (some-injective b b' q),
            k,
          )),
    )
  ]
  compare_json_iff f none got = (λ h. cc, λ h. cc)
  compare_json_iff f (some a) none = (λ h. cc, λ h. cc)

  abbrev pub OutputMet : Text → V → Type 0
  OutputMet want actual = want ≢ [] → Same (library.raw want) actual

  output_failures_iff :
      (want : Text) (actual : V)
      → (output_failures library want actual ≡ []) ↔ OutputMet want actual
  output_failures_iff [] actual = (λ h k. absurd (k refl), λ h. refl)
  output_failures_iff (c ∷ s) actual =
      let same =
        compare_json_iff output (library.encode (library.raw (c ∷ s))) (library.encode actual) in
      (λ h k. same.0 h, λ h. same.1 (h (λ e. cc)))

  abbrev pub MetadataMet : Option V → Option V → Type 0
  MetadataMet none actual = Unit
  MetadataMet (some want) actual = Same want (metadata_or_empty library actual)

  metadata_failures_iff :
      (want actual : Option V)
      → (metadata_failures library want actual ≡ []) ↔ MetadataMet want actual
  metadata_failures_iff none actual = (λ h. tt, λ h. refl)
  metadata_failures_iff (some want) actual =
      compare_json_iff metadata (library.encode want)
        (library.encode (metadata_or_empty library actual))

  -- What an expectation promises of a result: each given field is met, and no lint error stands.
  abbrev pub Meets : Expectation V → Result V → Type 0
  Meets e r =
      (r.lint_error ≡ none)
      × ErrorMet e.error r.error
      × OutputMet e.output r.output
      × MetadataMet e.metadata r.metadata
      × DeletedMet e.deleted r.deleted

  check_parts :
      (e : Expectation V) (r : Result V)
      → check library e r
        ≡ lint_failures r.lint_error
          ++ error_failures e.error r.error
          ++ output_failures library e.output r.output
          ++ metadata_failures library e.metadata r.metadata
          ++ deleted_failures e.deleted r.deleted
  unfolding check has_part
  check_parts e r = refl

  -- A check finds no failure exactly when the result has no lint error, the expected error or
  -- none, and for each of output, metadata and deletion that is given, an equal value.
  pub check_iff : (e : Expectation V) (r : Result V) → (check library e r ≡ []) ↔ Meets e r
  check_iff e r =
      let parts =
        five-nil_iff (lint_failures r.lint_error) (error_failures e.error r.error)
          (output_failures library e.output r.output)
          (metadata_failures library e.metadata r.metadata)
          (deleted_failures e.deleted r.deleted) in
      let lint = lint_failures_iff r.lint_error in
      let err = error_failures_iff e.error r.error in
      let out = output_failures_iff e.output r.output in
      let meta = metadata_failures_iff e.metadata r.metadata in
      let gone = deleted_failures_iff e.deleted r.deleted in
      (
        λ h.
            let (l, x, o, m, d) = parts.0 (sym (check_parts e r) ∙ h) in
            (lint.0 l, err.0 x, out.0 o, meta.0 m, gone.0 d),
        λ (l, x, o, m, d).
            check_parts e r ∙ parts.1 (lint.1 l, err.1 x, out.1 o, meta.1 m, gone.1 d),
      )

abbrev pub or_default : Option Text → Option Text → Option Text
or_default none d = d
or_default (some v) d = some v

lookup-first :
    (k j v : Text) (m : Dict Text Text) (rest : Option Text)
    → contains (map (λ e. e.0) m) j ≡ false
    → or_default (lookup k m) (if text_eq j k then some v else rest)
      ≡ or_default (lookup k ((j, v) ∷ m)) rest
unfolding lookup
lookup-first k j v m rest h = elim (Bool-cases (text_eq j k)) [
  | inl e ↦
      let absent =
        lookup-absent k m
          (subst (λ z. contains (map (λ e. e.0) m) z ≡ false) ((text_eq_iff j k).0 e) h) in
      rw (e, absent) refl
  | inr e ↦ rw e refl
]

lookup-insert_all :
    (k : Text) (m acc : Dict Text Text)
    → Distinct (map (λ e. e.0) m)
    → lookup k (insert_all m acc) ≡ or_default (lookup k m) (lookup k acc)
lookup-insert_all k [] acc d = unfold lookup in refl
lookup-insert_all k ((j, v) ∷ m) acc d =
    lookup-insert_all k m (insert j v acc) d.1
    ∙ ap (or_default (lookup k m)) (lookup-insert j k v acc)
    ∙ lookup-first k j v m (lookup k acc) d.0

or_default-none : (o : Option Text) → or_default o none ≡ o
or_default-none none = refl
or_default-none (some v) = refl

-- Of two maps, each an enumeration without repeated keys, the merged one gives a key's override if
-- there is one, and else its default.
lookup-merge_fixture_maps :
    (k : Text) (defaults overrides : Dict Text Text)
    → Distinct (map (λ e. e.0) defaults)
    → Distinct (map (λ e. e.0) overrides)
    → lookup k (merge_fixture_maps defaults overrides)
      ≡ or_default (lookup k overrides) (lookup k defaults)
unfolding merge_fixture_maps lookup
lookup-merge_fixture_maps k defaults overrides d o =
    lookup-insert_all k overrides (insert_all defaults []) o
    ∙ ap (or_default (lookup k overrides))
        (lookup-insert_all k defaults [] d ∙ or_default-none (lookup k defaults))
