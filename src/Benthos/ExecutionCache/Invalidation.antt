-- ===== src/Benthos/ExecutionCache/Invalidation.antt =====
-- `InvalidateDocument` of internal/benthos/executor_cache.go, and the executions that it overtakes.
use bloblang_lsp.Common.{
  ℕ, Text, Bool, true, false, Option, none, some, [], ◌∷◌, ◌≡◌, refl, ap, sym, ◌∙◌, arith,
  if◌then◌else◌, Bool-cases, inl, inr, subst, ◌⊎◌,
}
use bloblang_lsp.Common.Dict.{Dict, lookup, lookup-remove}
use bloblang_lsp.Benthos.ExecutionCache.{
  ExecutionKey, key_beq, key_beq_iff, key_eq, Entry, Cache, element, remove_element, land,
  document_key_matches, drop_matching, drop_flights, drop_at, invalidate_document,
}
use bloblang_lsp.Benthos.ExecutionCache.Invariant.{IsValid, remove_element-IsValid, land-IsValid}
use bloblang_lsp.Benthos.ExecutionCache.Elements.{id_of-element}

module _ {R : Type 0} where
  drop_at-IsValid : (c : Cache R) (i : ℕ) → IsValid c → IsValid (drop_at c i (element i c.lru))
  drop_at-IsValid c i v = go (element i c.lru) refl
    where
      go : (o : Option (Entry R)) → element i c.lru ≡ o → IsValid (drop_at c i o)
      go none e = v
      go (some entry) e = remove_element-IsValid c v i entry e

  abbrev drop_one : Text → ExecutionKey → ℕ → Cache R → Cache R
  drop_one uri key i c =
      if document_key_matches key.uri uri then drop_at c i (element i c.lru) else c

  drop_one-IsValid :
      (uri : Text) (key : ExecutionKey) (i : ℕ) (c : Cache R)
      → IsValid c
      → IsValid (drop_one uri key i c)
  drop_one-IsValid uri key i c v = go (document_key_matches key.uri uri)
    where
      go : (b : Bool) → IsValid (if b then drop_at c i (element i c.lru) else c)
      go true = drop_at-IsValid c i v
      go false = v

  drop_matching-IsValid :
      (uri : Text) (m : Dict ExecutionKey ℕ) (c : Cache R)
      → IsValid c
      → IsValid (drop_matching uri m c)
  unfolding drop_matching
  drop_matching-IsValid uri [] c v = v
  drop_matching-IsValid uri ((key, i) ∷ m) c v =
      drop_matching-IsValid uri m (drop_one uri key i c) (drop_one-IsValid uri key i c v)

  land-lookup :
      (c : Cache R) (key k : ExecutionKey)
      → lookup k (land c key).pending ≡ (if key_beq key k then none else lookup k c.pending)
  land-lookup c key k = unfold land in lookup-remove key k c.pending

  drop_flights-IsValid :
      (uri : Text) (m : Dict ExecutionKey ℕ) (c : Cache R)
      → IsValid c
      → IsValid (drop_flights uri m c)
  unfolding drop_flights
  drop_flights-IsValid uri [] c v = v
  drop_flights-IsValid uri ((key, f) ∷ m) c v =
      drop_flights-IsValid uri m (if document_key_matches key.uri uri then land c key else c)
        (go (document_key_matches key.uri uri))
    where
      go : (b : Bool) → IsValid (if b then land c key else c)
      go true = land-IsValid c v key
      go false = v

  pub invalidate_document-IsValid :
      (uri : Text) (c : Cache R) → IsValid c → IsValid (invalidate_document uri c)
  unfolding invalidate_document
  invalidate_document-IsValid uri c v =
      drop_flights-IsValid uri (drop_matching uri c.entries c).pending
        (drop_matching uri c.entries c) (drop_matching-IsValid uri c.entries c v)

  -- Dropping elements only loses keys.
  abbrev Kept : ExecutionKey → Cache R → Cache R → Type 0
  Kept k c c' = (lookup k c'.entries ≡ none) ⊎ (lookup k c'.entries ≡ lookup k c.entries)

  drop_at-lookup :
      (c : Cache R) (i : ℕ) (o : Option (Entry R)) (k : ExecutionKey) → Kept k c (drop_at c i o)
  drop_at-lookup c i none k = inr refl
  drop_at-lookup c i (some e) k =
      unfold remove_element in ground (arith, lookup-remove e.key k c.entries)

  drop_one-lookup :
      (uri : Text) (key : ExecutionKey) (i : ℕ) (c : Cache R) (k : ExecutionKey)
      → Kept k c (drop_one uri key i c)
  drop_one-lookup uri key i c k = go (document_key_matches key.uri uri)
    where
      go : (b : Bool) → Kept k c (if b then drop_at c i (element i c.lru) else c)
      go true = drop_at-lookup c i (element i c.lru) k
      go false = inr refl

  -- The element that the index names for a matching key goes.
  drop_one-clears :
      (uri : Text) (k : ExecutionKey) (i : ℕ) (c : Cache R)
      → IsValid c
      → document_key_matches k.uri uri ≡ true
      → lookup k c.entries ≡ some i
      → lookup k (drop_one uri k i c).entries ≡ none
  drop_one-clears uri k i c v matches h =
      let (e, at, key) = id_of-element k i c.lru v.unique (sym (v.index k) ∙ h) in
      rw (matches, at)
        (unfold remove_element in
          lookup-remove e.key k c.entries ∙ ground (arith, key_beq_iff e.key k))

  -- What of the enumeration is still to come covers the key, unless the key is gone.
  abbrev Covered : ExecutionKey → Dict ExecutionKey ℕ → Cache R → Type 0
  Covered k m c = (lookup k c.entries ≡ none) ⊎ (lookup k c.entries ≡ lookup k m)

  Covered-next :
      (uri : Text) (k key : ExecutionKey) (i : ℕ) (m : Dict ExecutionKey ℕ) (c : Cache R)
      → IsValid c
      → document_key_matches k.uri uri ≡ true
      → Covered k ((key, i) ∷ m) c
      → Covered k m (drop_one uri key i c)
  unfolding lookup
  Covered-next uri k key i m c v matches (inl gone) =
      ground (arith, gone, drop_one-lookup uri key i c k)
  Covered-next uri k key i m c v matches (inr same) = elim (Bool-cases (key_beq key k)) [
    | inl t ↦ inl (
        subst (λ j. lookup k (drop_one uri j i c).entries ≡ none) (sym ((key_beq_iff key k).0 t))
          (drop_one-clears uri k i c v matches (same ∙ rw t)))
    | inr t ↦ ground (arith, same, t, drop_one-lookup uri key i c k)
  ]

  drop_matching-clears :
      (uri : Text) (k : ExecutionKey) (m : Dict ExecutionKey ℕ) (c : Cache R)
      → IsValid c
      → document_key_matches k.uri uri ≡ true
      → Covered k m c
      → lookup k (drop_matching uri m c).entries ≡ none
  unfolding drop_matching lookup
  drop_matching-clears uri k [] c v matches (inl gone) = gone
  drop_matching-clears uri k [] c v matches (inr same) = same
  drop_matching-clears uri k ((key, i) ∷ m) c v matches covered =
      drop_matching-clears uri k m (drop_one uri key i c) (drop_one-IsValid uri key i c v) matches
        (Covered-next uri k key i m c v matches covered)

  drop_flights-keeps :
      (uri : Text) (m : Dict ExecutionKey ℕ) (c : Cache R)
      → ((drop_flights uri m c).entries ≡ c.entries) × ((drop_flights uri m c).next_id ≡ c.next_id)
  unfolding drop_flights land
  drop_flights-keeps uri [] c = (refl, refl)
  drop_flights-keeps uri ((key, f) ∷ m) c =
      ground (arith, drop_flights-keeps uri m c, drop_flights-keeps uri m (land c key))

  drop_flights-clears :
      (uri : Text) (k : ExecutionKey) (m : Dict ExecutionKey ℕ) (c : Cache R)
      → document_key_matches k.uri uri ≡ true
      → (lookup k c.pending ≡ none) ⊎ (lookup k c.pending ≡ lookup k m)
      → lookup k (drop_flights uri m c).pending ≡ none
  unfolding drop_flights lookup
  drop_flights-clears uri k [] c matches h = ground arith
  drop_flights-clears uri k ((key, f) ∷ m) c matches h = ground (
    arith,
    key_beq_iff key k,
    land-lookup c key k,
    drop_flights-clears uri k m c matches,
    drop_flights-clears uri k m (land c key) matches,
  )

  -- After a document is invalidated the cache holds no result of it and of its embedded mappings,
  -- and none of their executions may store one.
  pub invalidate_document_clears :
      (uri : Text) (c : Cache R) (k : ExecutionKey)
      → IsValid c
      → document_key_matches k.uri uri ≡ true
      → (lookup k (invalidate_document uri c).entries ≡ none)
        × (lookup k (invalidate_document uri c).pending ≡ none)
  unfolding invalidate_document
  invalidate_document_clears uri c k v matches =
      let c₁ = drop_matching uri c.entries c in
      (
        ap (lookup k) (drop_flights-keeps uri c₁.pending c₁).0
            ∙ drop_matching-clears uri k c.entries c v matches (inr refl),
        drop_flights-clears uri k c₁.pending c₁ matches (inr refl),
      )

  drop_matching-next_id :
      (uri : Text) (m : Dict ExecutionKey ℕ) (c : Cache R)
      → (drop_matching uri m c).next_id ≡ c.next_id
  unfolding drop_matching
  drop_matching-next_id uri [] c = refl
  drop_matching-next_id uri ((key, i) ∷ m) c =
      drop_matching-next_id uri m (drop_one uri key i c)
      ∙ go (document_key_matches key.uri uri) (element i c.lru)
    where
      go :
          (b : Bool) (e : Option (Entry R))
          → ◌≡◌ {A = ℕ} (if b then drop_at c i e else c).next_id c.next_id
      go true none = refl
      go true (some e) = unfold remove_element in refl
      go false e = refl

  -- An invalidation begins no flight.
  pub invalidate_document-next_id :
      (uri : Text) (c : Cache R) → (invalidate_document uri c).next_id ≡ c.next_id
  unfolding invalidate_document
  invalidate_document-next_id uri c =
      let c₁ = drop_matching uri c.entries c in
      (drop_flights-keeps uri c₁.pending c₁).1 ∙ drop_matching-next_id uri c.entries c
