-- ===== src/Benthos/ExecutionCache/Runs.antt =====
-- Any sequence of critical sections of internal/benthos/executor_cache.go from the empty cache.
use bloblang_lsp.Common.{
  ℕ, Text, Bool, true, false, Option, none, some, List, [], ◌∷◌, ◌≡◌, refl, sym, arith,
  if◌then◌else◌, subst,
}
use bloblang_lsp.Common.Dict.{Dict}
use bloblang_lsp.Benthos.ExecutionCache.{
  ExecutionKey, Entry, Cache, Config, element, start, remove_element, land, document_key_matches,
  drop_matching, drop_flights, drop_at, invalidate_document, Section, enters, finishes, invalidates,
  apply, or_same, run_sections,
}
use bloblang_lsp.Benthos.ExecutionCache.Elements.{length-drop_element}
use bloblang_lsp.Benthos.ExecutionCache.Invariant.{IsValid, IsBounded, start-IsValid}
use bloblang_lsp.Benthos.ExecutionCache.Sections.{enter-IsValid}
use bloblang_lsp.Benthos.ExecutionCache.Eviction.{finish-IsValid}
use bloblang_lsp.Benthos.ExecutionCache.Invalidation.{invalidate_document-IsValid}

module _ {R : Type 0} (config : Config) where
  land-IsBounded :
      (c : Cache R) (k : ExecutionKey) → IsBounded config c → IsBounded config (land c k)
  unfolding land
  land-IsBounded c k b = record { few = b.few; light = b.light }

  drop_at-IsBounded :
      (c : Cache R) (i : ℕ) → IsBounded config c → IsBounded config (drop_at c i (element i c.lru))
  drop_at-IsBounded c i b = go (element i c.lru) refl
    where
      go : (o : Option (Entry R)) → element i c.lru ≡ o → IsBounded config (drop_at c i o)
      go none e = b
      go (some entry) e =
          unfold remove_element in
          record {
            few = omega (arith, b.few, length-drop_element i c.lru entry e);
            light = omega (arith, b.light);
          }

  drop_matching-IsBounded :
      (uri : Text) (m : Dict ExecutionKey ℕ) (c : Cache R)
      → IsBounded config c
      → IsBounded config (drop_matching uri m c)
  unfolding drop_matching
  drop_matching-IsBounded uri [] c b = b
  drop_matching-IsBounded uri ((key, i) ∷ m) c b =
      drop_matching-IsBounded uri m
        (if document_key_matches key.uri uri then drop_at c i (element i c.lru) else c)
        (go (document_key_matches key.uri uri))
    where
      go : (t : Bool) → IsBounded config (if t then drop_at c i (element i c.lru) else c)
      go true = drop_at-IsBounded c i b
      go false = b

  drop_flights-IsBounded :
      (uri : Text) (m : Dict ExecutionKey ℕ) (c : Cache R)
      → IsBounded config c
      → IsBounded config (drop_flights uri m c)
  unfolding drop_flights
  drop_flights-IsBounded uri [] c b = b
  drop_flights-IsBounded uri ((key, f) ∷ m) c b =
      drop_flights-IsBounded uri m (if document_key_matches key.uri uri then land c key else c)
        (go (document_key_matches key.uri uri))
    where
      go : (t : Bool) → IsBounded config (if t then land c key else c)
      go true = land-IsBounded c key b
      go false = b

  -- A cache that is valid and within its bounds.
  abbrev pub Holds : Cache R → Type 0
  Holds c = IsValid c × IsBounded config c

  apply-Holds : (c : Cache R) (x : Section R) → Holds c → Holds (apply config c x)
  unfolding apply
  apply-Holds c (enters key now) (v, b) =
      let (valid, shorter, lighter) = enter-IsValid config c key now v in
      (valid, record { few = omega (arith, b.few); light = omega (arith, b.light) })
  apply-Holds c (finishes e flight storable) (v, b) =
      let (c', done, valid, bounded) = finish-IsValid config c e flight storable v b in
      subst (λ r. Holds (or_same c r)) (sym done) (valid, bounded)
  apply-Holds c (invalidates uri) (v, b) =
      (invalidate_document-IsValid uri c v, unfold invalidate_document in invalidated)
    where
      invalidated : IsBounded config (invalidate_document uri c)
      invalidated =
          unfold invalidate_document in
          drop_flights-IsBounded uri (drop_matching uri c.entries c).pending
            (drop_matching uri c.entries c) (drop_matching-IsBounded uri c.entries c b)

  run-Holds : (c : Cache R) (xs : List (Section R)) → Holds c → Holds (run_sections config c xs)
  unfolding run_sections
  run-Holds c [] h = h
  run-Holds c (x ∷ xs) h = run-Holds (apply config c x) xs (apply-Holds c x h)

  -- Whatever the callers do, in any interleaving of their critical sections, the cache stays
  -- valid (its index, its list and its byte count agree, and nothing is cached for a key whose
  -- execution is under way) and holds at most the configured number of results and 16 MiB.
  pub run_sections-IsValid :
      (xs : List (Section R))
      → IsValid (run_sections config start xs) × IsBounded config (run_sections config start xs)
  run_sections-IsValid xs =
      run-Holds start xs (start-IsValid, record { few = omega arith; light = omega arith })
