-- ===== src/Benthos/ExecutionCache/Eviction.antt =====
-- The last critical section of internal/benthos/executor_cache.go: storing a result and evicting
-- the least recently used ones until the cache fits.
use bloblang_lsp.Common.{
  ℕ, ◌+◌, ◌≤◌, ◌<◌, Bool, true, false, ◌&&◌, Option, none, some, List, [], ◌∷◌, ◌++◌, ◌≡◌, refl, ap,
  ◌∙◌, arith, length, Bool-cases, inl, inr, leb, leb→le, le→leb,
}
use bloblang_lsp.Common.Dict.{lookup, lookup-remove}
use bloblang_lsp.Benthos.ExecutionCache.{
  ExecutionKey, key_beq_iff, key_eq, Entry, Cache, Config, evict, push, land, finish, is_flight,
  max_execution_cache_entry_bytes,
}
use bloblang_lsp.Benthos.ExecutionCache.Invariant.{IsValid, IsBounded, push-IsValid, land-IsValid}
use bloblang_lsp.Benthos.ExecutionCache.Fitting.{HasNoRoom, Fits, evict-Fits}

module _ {R : Type 0} where
  -- The cache before the eviction loop: the flight has landed and the entry stands in front.
  abbrev pub stored : Cache R → Entry R → Cache R
  stored c entry = push (land c entry.key) entry

  land-entries : (c : Cache R) (k : ExecutionKey) → (land c k).entries ≡ c.entries
  unfolding land
  land-entries c k = refl

  land-gone : (c : Cache R) (k : ExecutionKey) → lookup k (land c k).pending ≡ none
  unfolding land
  land-gone c k = lookup-remove k k c.pending ∙ ground (arith, key_beq_iff k k)

  flight-absent :
      (c : Cache R) (k : ExecutionKey) (flight : ℕ)
      → IsValid c
      → is_flight (lookup k c.pending) flight ≡ true
      → lookup k c.entries ≡ none
  flight-absent c k flight v h = go (lookup k c.pending) refl h
    where
      go :
          (o : Option ℕ)
          → lookup k c.pending ≡ o
          → is_flight o flight ≡ true
          → lookup k c.entries ≡ none
      go none e t = cc
      go (some f) e t = v.index k ∙ (v.flights k f e).0

  stored-length : (c : Cache R) (entry : Entry R) → length (stored c entry).lru < length c.lru + 2
  unfolding push land
  stored-length c entry = omega arith

  finish_open :
      (config : Config) (c : Cache R) (entry : Entry R) (flight : ℕ)
      → is_flight (lookup entry.key c.pending) flight ≡ true
      → entry.bytes ≤ max_execution_cache_entry_bytes
      → finish config c entry flight true
        ≡ evict (length c.lru + 2) config (push (land c entry.key) entry)
  finish_open config c entry flight own small =
      unfold finish in rw (own, le→leb entry.bytes max_execution_cache_entry_bytes small)

  -- Whether a cache has an entry in front; it cannot when the configuration keeps no result at all.
  abbrev pub StandsFirst : Config → Entry R → List (ℕ × Entry R) → Type 0
  StandsFirst config entry [] = config.size ≡ 0
  StandsFirst config entry (x ∷ l) = x.1 ≡ entry

  stored-StandsFirst :
      (config : Config) (c c' : Cache R) (entry : Entry R)
      → entry.bytes ≤ max_execution_cache_entry_bytes
      → Fits config (stored c entry) c'
      → StandsFirst config entry c'.lru
  unfolding push land
  stored-StandsFirst config c c' entry small fits = go c'.lru fits.evicted fits.front fits.needed
    where
      go :
          (kept evicted : List (ℕ × Entry R))
          → (c.next_id, entry) ∷ c.lru ≡ kept ++ evicted
          → HasNoRoom config kept evicted
          → StandsFirst config entry kept
      go [] [] e h = absurd cc
      go [] (x ∷ rest) e h =
          let same : entry ≡ x.1 = cc in
          elim h [
            | inl few ↦ omega (arith, few)
            | inr light ↦ absurd (omega (arith, light, small, ap (λ d. d.bytes) same))
          ]
      go (x ∷ kept) evicted e h = cc

  -- Storing a result that may be kept ends with a valid cache within both bounds, with the new
  -- result in front of the earlier ones. It keeps the longest front part of this list that the
  -- bounds have room for, the most recently used results, and so the new one first, unless the
  -- configuration keeps no result at all. The eviction loop never meets an empty list.
  pub finish-stores :
      (config : Config) (c : Cache R) (entry : Entry R) (flight : ℕ)
      → IsValid c
      → is_flight (lookup entry.key c.pending) flight ≡ true
      → entry.bytes ≤ max_execution_cache_entry_bytes
      → (c' : Cache R) × (finish config c entry flight true ≡ some c')
        × Fits config (stored c entry) c'
        × StandsFirst config entry c'.lru
  finish-stores config c entry flight v own small =
      let l = land c entry.key in
      let absent =
        ap (lookup entry.key) (land-entries c entry.key) ∙ flight-absent c entry.key flight v own in
      let valid =
        push-IsValid l (land-IsValid c v entry.key) entry absent (land-gone c entry.key) small in
      let (c', done, fits) =
        evict-Fits (length c.lru + 2) config (stored c entry) valid (stored-length c entry) in
      (
        c',
        finish_open config c entry flight own small ∙ done,
        fits,
        stored-StandsFirst config c c' entry small fits,
      )

  -- A flight that is no longer its key's own stores nothing.
  pub finish-stale :
      (config : Config) (c : Cache R) (entry : Entry R) (flight : ℕ) (storable : Bool)
      → is_flight (lookup entry.key c.pending) flight ≡ false
      → finish config c entry flight storable ≡ some c
  unfolding finish
  finish-stale config c entry flight storable h = rw h

  IsBounded-land :
      (config : Config) (c : Cache R) (k : ExecutionKey)
      → IsBounded config c
      → IsBounded config (land c k)
  unfolding land
  IsBounded-land config c k b = record { few = b.few; light = b.light }

  finish-rejects :
      (config : Config) (c : Cache R) (entry : Entry R) (flight : ℕ) (storable : Bool)
      → is_flight (lookup entry.key c.pending) flight ≡ true
      → (storable && leb entry.bytes max_execution_cache_entry_bytes) ≡ false
      → finish config c entry flight storable ≡ some (land c entry.key)
  finish-rejects config c entry flight storable own no_room = unfold finish in rw (own, no_room)

  finish-cases :
      (config : Config) (c : Cache R) (entry : Entry R) (flight : ℕ) (storable keep : Bool)
      → (storable && leb entry.bytes max_execution_cache_entry_bytes) ≡ keep
      → IsValid c
      → IsBounded config c
      → is_flight (lookup entry.key c.pending) flight ≡ true
      → (c' : Cache R) × (finish config c entry flight storable ≡ some c')
        × IsValid c'
        × IsBounded config c'
  finish-cases config c entry flight storable false e v b own = (
    land c entry.key,
    finish-rejects config c entry flight storable own e,
    land-IsValid c v entry.key,
    IsBounded-land config c entry.key b,
  )
  finish-cases config c entry flight true true e v b own =
      let (c', done, fits, first) =
        finish-stores config c entry flight v own
          (leb→le entry.bytes max_execution_cache_entry_bytes e) in
      (c', done, fits.valid, fits.bounded)
  finish-cases config c entry flight false true e v b own = cc

  -- Whatever the outcome of an execution, the last section ends with a valid cache within its
  -- bounds: it never removes the back of an empty list.
  pub finish-IsValid :
      (config : Config) (c : Cache R) (entry : Entry R) (flight : ℕ) (storable : Bool)
      → IsValid c
      → IsBounded config c
      → (c' : Cache R) × (finish config c entry flight storable ≡ some c')
        × IsValid c'
        × IsBounded config c'
  finish-IsValid config c entry flight storable v b =
      elim (Bool-cases (is_flight (lookup entry.key c.pending) flight)) [
        | inl own ↦ finish-cases config c entry flight storable _ refl v b own
        | inr other ↦ (c, finish-stale config c entry flight storable other, v, b)
      ]
