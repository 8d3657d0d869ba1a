-- ===== src/Benthos/ExecutionCache/Elements.antt =====
-- The list of elements of internal/benthos/executor_cache.go: each address and each key stands
-- once, and what the removal of one element changes.
use bloblang_lsp.Common.{
  ℕ, ◌+◌, Bool, true, false, ◌||◌, Option, none, some, List, [], ◌∷◌, ◌++◌, ◌==◌, ◌≡◌, refl,
  Bool-cases, inl, inr, subst, arith, if◌then◌else◌, length, All,
}
use bloblang_lsp.Benthos.ExecutionCache.{
  ExecutionKey, key_beq, key_beq_iff, key_eq, Entry, element, drop_element, back,
}

module _ {R : Type 0} where
  abbrev pub has_id : ℕ → List (ℕ × Entry R) → Bool
  has_id i [] = false
  has_id i ((j, e) ∷ l) = j == i || has_id i l

  -- The address of the element with a key.
  abbrev pub id_of : ExecutionKey → List (ℕ × Entry R) → Option ℕ
  id_of k [] = none
  id_of k ((j, e) ∷ l) = if key_beq e.key k then some j else id_of k l

  abbrev pub total : List (ℕ × Entry R) → ℕ
  total [] = 0
  total ((j, e) ∷ l) = e.bytes + total l

  -- No address and no key stands twice.
  abbrev pub IsUnique : List (ℕ × Entry R) → Type 0
  IsUnique [] = Unit
  IsUnique ((j, e) ∷ l) = (has_id j l ≡ false) × (id_of e.key l ≡ none) × IsUnique l

  pub element-has_id :
      (i : ℕ) (l : List (ℕ × Entry R)) (e : Entry R) → element i l ≡ some e → has_id i l ≡ true
  element-has_id i [] e h = cc
  element-has_id i ((j, d) ∷ l) e h = ground (arith, element-has_id i l e)

  pub has_id-drop_element :
      (i k : ℕ) (l : List (ℕ × Entry R)) → has_id k l ≡ false → has_id k (drop_element i l) ≡ false
  has_id-drop_element i k [] h = refl
  has_id-drop_element i k ((j, d) ∷ l) h = ground (arith, has_id-drop_element i k l)

  pub has_id-drop_element_self :
      (i : ℕ) (l : List (ℕ × Entry R)) → IsUnique l → has_id i (drop_element i l) ≡ false
  has_id-drop_element_self i [] u = refl
  has_id-drop_element_self i ((j, d) ∷ l) u = ground (arith, has_id-drop_element_self i l u.2)

  -- The element at a listed address carries its key.
  pub element-id_of :
      (i : ℕ) (l : List (ℕ × Entry R)) (e : Entry R)
      → IsUnique l
      → element i l ≡ some e
      → id_of e.key l ≡ some i
  element-id_of i [] e u h = cc
  element-id_of i ((j, d) ∷ l) e u h =
      ground (arith, key_beq_iff d.key e.key, element-id_of i l e u.2)

  pub id_of-element :
      (k : ExecutionKey) (i : ℕ) (l : List (ℕ × Entry R))
      → IsUnique l
      → id_of k l ≡ some i
      → (e : Entry R) × (element i l ≡ some e) × (e.key ≡ k)
  id_of-element k i [] u h = cc
  id_of-element k i ((j, d) ∷ l) u h = elim (Bool-cases (key_beq d.key k)) [
    | inl t ↦ (d, ground arith, (key_beq_iff d.key k).0 t)
    | inr t ↦
        let (e, at, key) = id_of-element k i l u.2 (ground arith) in
        (e, ground (arith, element-has_id i l e at), key)
  ]

  pub id_of-drop_element :
      (i : ℕ) (l : List (ℕ × Entry R)) (e : Entry R) (k : ExecutionKey)
      → IsUnique l
      → element i l ≡ some e
      → id_of k (drop_element i l) ≡ (if key_beq e.key k then none else id_of k l)
  id_of-drop_element i [] e k u h = cc
  id_of-drop_element i ((j, d) ∷ l) e k u h = ground (
    arith,
    key_beq_iff e.key k,
    key_beq_iff d.key k,
    key_beq_iff d.key e.key,
    element-id_of i l e u.2,
    id_of-drop_element i l e k u.2,
  )

  id_of-drop_none :
      (i : ℕ) (l : List (ℕ × Entry R)) (k : ExecutionKey)
      → id_of k l ≡ none
      → id_of k (drop_element i l) ≡ none
  id_of-drop_none i [] k h = refl
  id_of-drop_none i ((j, d) ∷ l) k h = ground (arith, id_of-drop_none i l k)

  pub drop_element-IsUnique :
      (i : ℕ) (l : List (ℕ × Entry R)) → IsUnique l → IsUnique (drop_element i l)
  drop_element-IsUnique i [] u = tt
  drop_element-IsUnique i ((j, d) ∷ l) u = elim (Bool-cases (j == i)) [
    | inl t ↦ rw t u.2
    | inr t ↦ rw t (
      has_id-drop_element i j l u.0,
      id_of-drop_none i l d.key u.1,
      drop_element-IsUnique i l u.2,
    )
  ]

  pub total-drop_element :
      (i : ℕ) (l : List (ℕ × Entry R)) (e : Entry R)
      → element i l ≡ some e
      → total (drop_element i l) + e.bytes ≡ total l
  total-drop_element i [] e h = cc
  total-drop_element i ((j, d) ∷ l) e h = ground (arith, total-drop_element i l e)

  pub length-drop_element :
      (i : ℕ) (l : List (ℕ × Entry R)) (e : Entry R)
      → element i l ≡ some e
      → length (drop_element i l) + 1 ≡ length l
  length-drop_element i [] e h = cc
  length-drop_element i ((j, d) ∷ l) e h = ground (arith, length-drop_element i l e)

  pub All-drop_element {ℓ} :
      (P : ℕ × Entry R → Type ℓ) (i : ℕ) (l : List (ℕ × Entry R))
      → All P l
      → All P (drop_element i l)
  All-drop_element P i [] h = tt
  All-drop_element P i ((j, d) ∷ l) h = elim (Bool-cases (j == i)) [
    | inl t ↦ rw t h.1
    | inr t ↦ rw t (h.0, All-drop_element P i l h.1)
  ]

  pub element-All {ℓ} :
      (P : ℕ × Entry R → Type ℓ) (i : ℕ) (l : List (ℕ × Entry R)) (e : Entry R)
      → All P l
      → element i l ≡ some e
      → P (i, e)
  element-All P i [] e h at = cc
  element-All P i ((j, d) ∷ l) e h at = elim (Bool-cases (j == i)) [
    | inl t ↦ subst P (ground arith) h.0
    | inr t ↦ element-All P i l e h.1 (ground arith)
  ]

  -- The back of the list is an element of it.
  pub back-element :
      (l : List (ℕ × Entry R)) (x : ℕ × Entry R)
      → IsUnique l
      → back l ≡ some x
      → element x.0 l ≡ some x.1
  back-element [] x u h = cc
  back-element ((j, d) ∷ []) x u h = ground arith
  back-element ((j, d) ∷ y ∷ l) x u h =
      let rest = back-element (y ∷ l) x u.2 h in ground (arith, element-has_id x.0 (y ∷ l) x.1 rest)

  -- Dropping the back keeps the others in their order.
  pub back-append :
      (l : List (ℕ × Entry R)) (x : ℕ × Entry R)
      → IsUnique l
      → back l ≡ some x
      → l ≡ drop_element x.0 l ++ x ∷ []
  back-append [] x u h = cc
  back-append ((j, d) ∷ []) x u h = ground arith
  back-append ((j, d) ∷ y ∷ l) x u h =
      let rest = back-append (y ∷ l) x u.2 h in
      let at = back-element (y ∷ l) x u.2 h in
      ground (arith, rest, element-has_id x.0 (y ∷ l) x.1 at)
