-- ===== src/Benthos/ExecutionCache/Overtaken.antt =====
-- An execution of internal/benthos/executor_cache.go that was overtaken by an invalidation never
-- stores its result, whatever the other callers do meanwhile.
use bloblang_lsp.Common.{
  ℕ, zero, suc, ◌+◌, ◌-◌, ◌≤◌, ◌<◌, Text, Bool, true, false, ◌||◌, ◌&&◌, Option, none, some, List,
  [], ◌∷◌, ◌≡◌, refl, ap, ◌∙◌, arith, if◌then◌else◌, length, ltb, leb, subst,
}
use bloblang_lsp.Common.Dict.{Dict, lookup, lookup-remove, lookup-insert}
use bloblang_lsp.Benthos.ExecutionCache.{
  ExecutionKey, key_eq, Entry, Cache, Config, element, back, remove_element, join_flight,
  move_to_front, use_element, enter_at, enter, evict, push, land, finish, is_flight,
  document_key_matches, drop_matching, drop_flights, drop_at, invalidate_document, Entered,
  max_execution_cache_bytes, max_execution_cache_entry_bytes, Section, enters, finishes,
  invalidates, apply, or_same, run_sections,
}
use bloblang_lsp.Benthos.ExecutionCache.Invariant.{IsValid}
use bloblang_lsp.Benthos.ExecutionCache.Eviction.{finish-stale}
use bloblang_lsp.Benthos.ExecutionCache.Invalidation.{
  invalidate_document_clears, invalidate_document-next_id,
}

module _ {R : Type 0} where
  -- The flight `f` was begun and is no longer the one of its key.
  pub record IsOvertaken (k : ExecutionKey) (f : ℕ) (c : Cache R) : Type 0 where
    pub begun : f < c.next_id
    pub gone : is_flight (lookup k c.pending) f ≡ false

  without-pending : (c : Cache R) (x : ℕ × Entry R) → (remove_element c x).pending ≡ c.pending
  unfolding remove_element
  without-pending c x = refl

  without-next_id : (c : Cache R) (x : ℕ × Entry R) → c.next_id ≤ (remove_element c x).next_id
  unfolding remove_element
  without-next_id c x = omega arith

  module _ (k : ExecutionKey) (f : ℕ) where
    -- What a section may do to the flights: forget some, and begin one under a new name.
    same-IsOvertaken :
        (c c' : Cache R)
        → IsOvertaken k f c
        → c'.pending ≡ c.pending
        → c.next_id ≤ c'.next_id
        → IsOvertaken k f c'
    same-IsOvertaken c c' o p n = record {
      begun = omega (arith, o.begun);
      gone = ap (λ m. is_flight (lookup k m) f) p ∙ o.gone;
    }

    join_flight-IsOvertaken :
        (c : Cache R) (key : ExecutionKey) (p : Option ℕ)
        → IsOvertaken k f c
        → IsOvertaken k f (join_flight c key p).1
    unfolding join_flight
    join_flight-IsOvertaken c key (some g) o = o
    join_flight-IsOvertaken c key none o = record {
      begun = omega (arith, o.begun);
      gone = ground (arith, lookup-insert key k c.next_id c.pending, o.begun, o.gone);
    }

    land-IsOvertaken :
        (c : Cache R) (key : ExecutionKey) → IsOvertaken k f c → IsOvertaken k f (land c key)
    unfolding land
    land-IsOvertaken c key o = record {
      begun = o.begun;
      gone = ground (arith, lookup-remove key k c.pending, o.gone);
    }

    enter-IsOvertaken :
        (config : Config) (c : Cache R) (key : ExecutionKey) (now : ℕ)
        → IsOvertaken k f c
        → IsOvertaken k f (enter config c key now).1
    unfolding enter
    enter-IsOvertaken config c key now o = at (lookup key c.entries)
      where
        young :
            (i : ℕ) (e : Entry R) (b : Bool)
            → let r : Entered R × Cache R =
                if b
                then (Entered.hit e.result, move_to_front c i e)
                else join_flight (remove_element c (i, e)) key (lookup key c.pending) in
              IsOvertaken k f r.1
        young i e true = same-IsOvertaken c (move_to_front c i e) o refl (omega arith)
        young i e false =
            join_flight-IsOvertaken (remove_element c (i, e)) key (lookup key c.pending)
              (same-IsOvertaken c (remove_element c (i, e)) o refl (omega arith))

        using :
            (i : ℕ) (e : Option (Entry R)) → IsOvertaken k f (use_element config c key now i e).1
        using i none = join_flight-IsOvertaken c key (lookup key c.pending) o
        using i (some e) = young i e (ltb (now - e.created) config.ttl)

        at : (i : Option ℕ) → IsOvertaken k f (enter_at config c key now i).1
        at none = join_flight-IsOvertaken c key (lookup key c.pending) o
        at (some i) = using i (element i c.lru)

    evict-IsOvertaken :
        (fuel : ℕ) (config : Config) (c c' : Cache R)
        → IsOvertaken k f c
        → evict fuel config c ≡ some c'
        → IsOvertaken k f c'
    unfolding evict
    evict-IsOvertaken zero config c c' o h = cc
    evict-IsOvertaken (suc fuel) config c c' o h =
        go (ltb config.size (length c.lru) || ltb max_execution_cache_bytes c.bytes) (back c.lru)
          (λ x.
            evict-IsOvertaken fuel config (remove_element c x) c' (
              same-IsOvertaken c (remove_element c x) o (without-pending c x)
                (without-next_id c x)))
          h
      where
        go :
            (over : Bool) (last : Option (ℕ × Entry R))
            → ((x : ℕ × Entry R)
                → evict fuel config (remove_element c x) ≡ some c'
                → IsOvertaken k f c')
            → (if over
                then elim last [ none ↦ none | some x ↦ evict fuel config (remove_element c x) ]
                else some c)
              ≡ some c'
            → IsOvertaken k f c'
        go true none ih e = cc
        go true (some x) ih e = ih x e
        go false last ih e = subst (λ r. IsOvertaken k f (or_same c r)) e o

    push-IsOvertaken : (c : Cache R) (e : Entry R) → IsOvertaken k f c → IsOvertaken k f (push c e)
    unfolding push
    push-IsOvertaken c e o = record { begun = omega (arith, o.begun); gone = o.gone }

    finish-IsOvertaken :
        (config : Config) (c : Cache R) (e : Entry R) (flight : ℕ) (storable : Bool)
        → IsOvertaken k f c
        → IsOvertaken k f (or_same c (finish config c e flight storable))
    unfolding finish
    finish-IsOvertaken config c e flight storable o =
        go (is_flight (lookup e.key c.pending) flight)
          (storable && leb e.bytes max_execution_cache_entry_bytes)
          (evict (length c.lru + 2) config (push (land c e.key) e)) refl
      where
        landed : IsOvertaken k f (land c e.key)
        landed = land-IsOvertaken c e.key o

        go :
            (own keep : Bool) (r : Option (Cache R))
            → evict (length c.lru + 2) config (push (land c e.key) e) ≡ r
            → IsOvertaken k f
                (or_same c (if own then if keep then r else some (land c e.key) else some c))
        go true true (some c') h =
            evict-IsOvertaken (length c.lru + 2) config (push (land c e.key) e) c'
              (push-IsOvertaken (land c e.key) e landed) h
        go true true none h = o
        go true false r h = landed
        go false keep r h = o

    drop_matching-IsOvertaken :
        (uri : Text) (m : Dict ExecutionKey ℕ) (c : Cache R)
        → IsOvertaken k f c
        → IsOvertaken k f (drop_matching uri m c)
    unfolding drop_matching
    drop_matching-IsOvertaken uri [] c o = o
    drop_matching-IsOvertaken uri ((key, i) ∷ m) c o =
        drop_matching-IsOvertaken uri m
          (if document_key_matches key.uri uri then drop_at c i (element i c.lru) else c)
          (go (document_key_matches key.uri uri) (element i c.lru))
      where
        go : (b : Bool) (e : Option (Entry R)) → IsOvertaken k f (if b then drop_at c i e else c)
        go true none = o
        go true (some e) =
            same-IsOvertaken c (remove_element c (i, e)) o (without-pending c (i, e))
              (without-next_id c (i, e))
        go false e = o

    drop_flights-IsOvertaken :
        (uri : Text) (m : Dict ExecutionKey ℕ) (c : Cache R)
        → IsOvertaken k f c
        → IsOvertaken k f (drop_flights uri m c)
    unfolding drop_flights
    drop_flights-IsOvertaken uri [] c o = o
    drop_flights-IsOvertaken uri ((key, i) ∷ m) c o =
        drop_flights-IsOvertaken uri m (if document_key_matches key.uri uri then land c key else c)
          (go (document_key_matches key.uri uri))
      where
        go : (b : Bool) → IsOvertaken k f (if b then land c key else c)
        go true = land-IsOvertaken c key o
        go false = o

    pub invalidate_document-IsOvertaken :
        (uri : Text) (c : Cache R) → IsOvertaken k f c → IsOvertaken k f (invalidate_document uri c)
    unfolding invalidate_document
    invalidate_document-IsOvertaken uri c o =
        let c₁ = drop_matching uri c.entries c in
        drop_flights-IsOvertaken uri c₁.pending c₁ (drop_matching-IsOvertaken uri c.entries c o)

    apply-IsOvertaken :
        (config : Config) (c : Cache R) (x : Section R)
        → IsOvertaken k f c
        → IsOvertaken k f (apply config c x)
    unfolding apply
    apply-IsOvertaken config c (enters key now) o = enter-IsOvertaken config c key now o
    apply-IsOvertaken config c (finishes e flight storable) o =
        finish-IsOvertaken config c e flight storable o
    apply-IsOvertaken config c (invalidates uri) o = invalidate_document-IsOvertaken uri c o

    run-IsOvertaken :
        (config : Config) (c : Cache R) (xs : List (Section R))
        → IsOvertaken k f c
        → IsOvertaken k f (run_sections config c xs)
    unfolding run_sections
    run-IsOvertaken config c [] o = o
    run-IsOvertaken config c (x ∷ xs) o =
        run-IsOvertaken config (apply config c x) xs (apply-IsOvertaken config c x o)

  -- An execution whose document is invalidated while it runs stores nothing when it ends, whatever
  -- other callers start, finish and invalidate in between, also under the same key.
  pub invalidated_not_stored :
      (config : Config) (c : Cache R) (uri : Text) (xs : List (Section R)) (e : Entry R) (f : ℕ)
      (storable : Bool)
      → IsValid c
      → document_key_matches e.key.uri uri ≡ true
      → f < c.next_id
      → let c' = run_sections config (invalidate_document uri c) xs in
        finish config c' e f storable ≡ some c'
  invalidated_not_stored config c uri xs e f storable v matches begun =
      let gone = (invalidate_document_clears uri c e.key v matches).1 in
      let overtaken : IsOvertaken e.key f (invalidate_document uri c) = record {
        begun = omega (arith, invalidate_document-next_id uri c);
        gone = ap (λ o. is_flight o f) gone;
      } in
      let after = run-IsOvertaken e.key f config (invalidate_document uri c) xs overtaken in
      finish-stale config (run_sections config (invalidate_document uri c) xs) e f storable
        after.gone
