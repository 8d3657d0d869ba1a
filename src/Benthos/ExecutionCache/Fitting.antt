-- ===== src/Benthos/ExecutionCache/Fitting.antt =====
-- The eviction loop of internal/benthos/executor_cache.go: which results it gives up.
use bloblang_lsp.Common.{
  ℕ, zero, suc, ◌+◌, ◌<◌, Bool, true, ◌||◌, some, List, [], ◌∷◌, ◌++◌, ◌≡◌, refl, ap, sym, ◌∙◌,
  arith, length, Bool-cases, ◌⊎◌, inl, inr, ltb, append_assoc, append-nil,
}
use bloblang_lsp.Benthos.ExecutionCache.{
  key_eq, Entry, Cache, Config, drop_element, back, remove_element, evict,
  max_execution_cache_bytes,
}
use bloblang_lsp.Benthos.ExecutionCache.Elements.{
  total, length-drop_element, back-element, back-append,
}
use bloblang_lsp.Benthos.ExecutionCache.Invariant.{IsValid, IsBounded, remove_element-IsValid}

module _ {R : Type 0} where
  abbrev is_over : Config → Cache R → Bool
  is_over config c = ltb config.size (length c.lru) || ltb max_execution_cache_bytes c.bytes

  -- A cache beyond its bounds has an element to give up.
  over-back :
      (config : Config) (c : Cache R)
      → IsValid c
      → is_over config c ≡ true
      → (x : ℕ × Entry R) × (back c.lru ≡ some x)
  over-back config c v h = go c.lru refl
    where
      last :
          (x : ℕ × Entry R) (l : List (ℕ × Entry R)) → (y : ℕ × Entry R) × (back (x ∷ l) ≡ some y)
      last x [] = (x, refl)
      last x (y ∷ l) = last y l

      go : (l : List (ℕ × Entry R)) → c.lru ≡ l → (x : ℕ × Entry R) × (back l ≡ some x)
      go [] e = absurd (ground (arith, v.exact, ap total e, ap length e))
      go (x ∷ l) e = last x l

  -- Why the results behind a kept front part are given up: the first of them had no room any more.
  abbrev pub HasNoRoom : Config → List (ℕ × Entry R) → List (ℕ × Entry R) → Type 0
  HasNoRoom config kept [] = Unit
  HasNoRoom config kept (x ∷ rest) =
      (config.size < length kept + 1) ⊎ (max_execution_cache_bytes < total kept + x.1.bytes)

  -- What an eviction returns: a valid cache within its bounds, which keeps the longest front part of
  -- the list that the bounds have room for.
  pub record Fits (config : Config) (c c' : Cache R) : Type 0 where
    pub valid : IsValid c'
    pub bounded : IsBounded config c'
    pub evicted : List (ℕ × Entry R)
    pub front : c.lru ≡ c'.lru ++ evicted
    pub needed : HasNoRoom config c'.lru evicted
    pub pending : c'.pending ≡ c.pending

  length-append_one :
      (l : List (ℕ × Entry R)) (x : ℕ × Entry R) → length (l ++ x ∷ []) ≡ length l + 1
  length-append_one [] x = refl
  length-append_one (y ∷ l) x = omega (arith, length-append_one l x)

  total-append_one :
      (l : List (ℕ × Entry R)) (x : ℕ × Entry R) → total (l ++ x ∷ []) ≡ total l + x.1.bytes
  total-append_one [] x = omega arith
  total-append_one (y ∷ l) x = omega (arith, total-append_one l x)

  -- A cache beyond its bounds with `x` at its back has no room for `x` behind the others.
  over-HasNoRoom :
      (config : Config) (c : Cache R) (kept : List (ℕ × Entry R)) (x : ℕ × Entry R)
      → IsValid c
      → is_over config c ≡ true
      → c.lru ≡ kept ++ x ∷ []
      → HasNoRoom config kept (x ∷ [])
  over-HasNoRoom config c kept x v over e =
      let few = ap length e ∙ length-append_one kept x in
      let light = v.exact ∙ ap total e ∙ total-append_one kept x in
      elim (Bool-cases (ltb config.size (length c.lru))) [
        | inl s ↦ inl (ground (arith, s, few))
        | inr s ↦ inr (ground (arith, s, over, light))
      ]

  -- One more result given up behind the others.
  HasNoRoom-append_one :
      (config : Config) (c : Cache R) (kept evicted : List (ℕ × Entry R)) (x : ℕ × Entry R)
      → IsValid c
      → is_over config c ≡ true
      → c.lru ≡ kept ++ (evicted ++ x ∷ [])
      → HasNoRoom config kept evicted
      → HasNoRoom config kept (evicted ++ x ∷ [])
  HasNoRoom-append_one config c kept [] x v over e h = over-HasNoRoom config c kept x v over e
  HasNoRoom-append_one config c kept (y ∷ evicted) x v over e h = h

  -- The same, seen from before the back was dropped.
  Fits-back :
      (config : Config) (c c' : Cache R) (x : ℕ × Entry R)
      → IsValid c
      → is_over config c ≡ true
      → c.lru ≡ drop_element x.0 c.lru ++ x ∷ []
      → Fits config (remove_element c x) c'
      → Fits config c c'
  unfolding remove_element
  Fits-back config c c' x v over e fits =
      let front : c.lru ≡ c'.lru ++ (fits.evicted ++ x ∷ []) =
        e ∙ ap (λ l. l ++ x ∷ []) fits.front ∙ append_assoc c'.lru fits.evicted (x ∷ []) in
      record {
        valid = fits.valid;
        bounded = fits.bounded;
        evicted = fits.evicted ++ x ∷ [];
        front = front;
        needed = HasNoRoom-append_one config c c'.lru fits.evicted x v over front fits.needed;
        pending = fits.pending;
      }

  pub evict-Fits :
      (fuel : ℕ) (config : Config) (c : Cache R)
      → IsValid c
      → length c.lru < fuel
      → (c' : Cache R) × (evict fuel config c ≡ some c') × Fits config c c'
  unfolding evict
  evict-Fits zero config c v h = absurd (omega arith)
  evict-Fits (suc fuel) config c v h = elim (Bool-cases (is_over config c)) [
    | inl over ↦
        let (x, at) = over-back config c v over in
        let there = back-element c.lru x v.unique at in
        let c₁ = remove_element c x in
        let shorter : length c₁.lru < fuel =
          unfold remove_element in omega (arith, length-drop_element x.0 c.lru x.1 there) in
        let (c', done, fits) =
          evict-Fits fuel config c₁ (remove_element-IsValid c v x.0 x.1 there) shorter in
        (
          c',
          rw (over, at) done,
          Fits-back config c c' x v over (back-append c.lru x v.unique at) fits,
        )
    | inr within ↦ (
      c,
      rw within,
      record {
        valid = v;
        bounded = ground arith;
        evicted = [];
        front = sym (append-nil c.lru);
        needed = tt;
        pending = refl;
      },
    )
  ]
