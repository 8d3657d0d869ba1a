-- ===== src/Benthos/ExecutionCache.antt =====
-- The execution cache of internal/benthos/executor_cache.go: a bounded list of results, most
-- recently used first, with an index and the executions that are under way.
-- `executions` cross the mutex three times; each section under the mutex is one function here.
-- An element of the list, and a flight, is named by its number of creation, for its address.
pub mod Elements
pub mod Invariant
pub mod Sections
pub mod Fitting
pub mod Eviction
pub mod Invalidation
pub mod Overtaken
pub mod Runs
use bloblang_lsp.Common.{
  ℕ, zero, suc, ◌+◌, ◌-◌, ◌*◌, ◌^◌, Text, Bool, true, false, not, ◌&&◌, ◌||◌, Option, none, some,
  List, [], ◌∷◌, ◌++◌, ◌==◌, ltb, leb, if◌then◌else◌, text_eq, text_eq_iff, text_eq_refl, ◌≡◌, ◌↔◌,
  arith, codes, Eq, length,
}
use bloblang_lsp.Common.Dict.{Dict, lookup, insert, remove}
use bloblang_lsp.Common.Strings.{has_prefix}

abbrev pub max_execution_cache_bytes : ℕ
max_execution_cache_bytes = 16 * 2 ^ 20

abbrev pub max_execution_cache_entry_bytes : ℕ
max_execution_cache_entry_bytes = 1 * 2 ^ 20

pub record ExecutionKey : Type 0 where
  pub uri : Text
  pub digest : Text

abbrev key_beq : ExecutionKey → ExecutionKey → Bool
key_beq a b = text_eq a.uri b.uri && text_eq a.digest b.digest

pub key_beq_iff : (a b : ExecutionKey) → (key_beq a b ≡ true) ↔ (a ≡ b)
key_beq_iff a b = (
  λ h. ground (arith, text_eq_iff a.uri b.uri, text_eq_iff a.digest b.digest),
  λ h. ground (arith, h, text_eq_refl a.uri, text_eq_refl a.digest),
)

instance abbrev pub key_eq : Eq ExecutionKey
key_eq = record { beq = key_beq; beq_iff = key_beq_iff }

-- `DocumentKeyMatches` of internal/benthos/parser.go
unfoldable pub document_key_matches : Text → Text → Bool
document_key_matches key uri =
    text_eq key uri
    || has_prefix (uri ++ codes ":") key
    || has_prefix (uri ++ codes "#bloblang-") key

-- `executionEntry`; `R` is the type of a result with its error.
pub record Entry (R : Type 0) : Type 0 where
  pub key : ExecutionKey
  pub result : R
  pub created : ℕ
  pub bytes : ℕ

pub record Cache (R : Type 0) : Type 0 where
  pub entries : Dict ExecutionKey ℕ
  pub pending : Dict ExecutionKey ℕ
  pub lru : List (ℕ × Entry R)
  pub bytes : ℕ
  pub next_id : ℕ

pub record Config : Type 0 where
  pub size : ℕ
  pub ttl : ℕ

-- What the first section decides: the cached result, another flight to wait for, or the new
-- flight that this caller runs.
pub data Entered (R : Type 0) : Type 0 where
  hit : R → Entered R
  wait : ℕ → Entered R
  run : ℕ → Entered R

-- `c.pending[key] == flight`
abbrev pub is_flight : Option ℕ → ℕ → Bool
is_flight none flight = false
is_flight (some f) flight = f == flight

module _ {R : Type 0} where
  -- The element at an address.
  abbrev pub element : ℕ → List (ℕ × Entry R) → Option (Entry R)
  element i [] = none
  element i ((j, e) ∷ l) = if j == i then some e else element i l

  -- `lru.Remove`
  abbrev pub drop_element : ℕ → List (ℕ × Entry R) → List (ℕ × Entry R)
  drop_element i [] = []
  drop_element i ((j, e) ∷ l) = if j == i then l else (j, e) ∷ drop_element i l

  -- `lru.Back`
  abbrev pub back : List (ℕ × Entry R) → Option (ℕ × Entry R)
  back [] = none
  back (x ∷ []) = some x
  back (x ∷ y ∷ l) = back (y ∷ l)

  abbrev pub start : Cache R
  start = record { entries = []; pending = []; lru = []; bytes = 0; next_id = 0 }

module _ {R : Type 0} where
  unfoldable pub remove_element : Cache R → ℕ × Entry R → Cache R
  remove_element c (i, entry) = record c {
    entries = remove entry.key c.entries;
    bytes = c.bytes - entry.bytes;
    lru = drop_element i c.lru;
  }

  -- `pending[key]`, and a new flight if there is none.
  unfoldable pub join_flight : Cache R → ExecutionKey → Option ℕ → Entered R × Cache R
  join_flight c key (some flight) = (wait flight, c)
  join_flight c key none = (
    run c.next_id,
    record c { pending = insert key c.next_id c.pending; next_id = c.next_id + 1 },
  )

  unfoldable pub move_to_front : Cache R → ℕ → Entry R → Cache R
  move_to_front c i entry = record c { lru = (i, entry) ∷ drop_element i c.lru }

  -- The element that the index names, by its address and value: used while it is younger than the
  -- time to live, and removed otherwise.
  unfoldable pub use_element :
      Config → Cache R → ExecutionKey → ℕ → ℕ → Option (Entry R) → Entered R × Cache R
  unfolding join_flight remove_element move_to_front
  use_element config c key now i none = join_flight c key (lookup key c.pending)
  use_element config c key now i (some entry) =
      if ltb (now - entry.created) config.ttl
      then (hit entry.result, move_to_front c i entry)
      else join_flight (remove_element c (i, entry)) key (lookup key c.pending)

  abbrev pub enter_at : Config → Cache R → ExecutionKey → ℕ → Option ℕ → Entered R × Cache R
  enter_at config c key now none = join_flight c key (lookup key c.pending)
  enter_at config c key now (some i) = use_element config c key now i (element i c.lru)

  unfoldable pub enter : Config → Cache R → ExecutionKey → ℕ → Entered R × Cache R
  unfolding use_element
  enter config c key now = enter_at config c key now (lookup key c.entries)

  -- The loop of the last section: the oldest elements go until the cache fits its two bounds.
  -- `none` is the panic on the missing back of an empty list, or fuel that ran out.
  unfoldable pub evict : ℕ → Config → Cache R → Option (Cache R)
  evict zero config c = none
  evict (suc fuel) config c =
      if ltb config.size (length c.lru) || ltb max_execution_cache_bytes c.bytes
      then elim (back c.lru) [ none ↦ none | some x ↦ evict fuel config (remove_element c x) ]
      else some c

  unfoldable pub push : Cache R → Entry R → Cache R
  push c entry = record c {
    entries = insert entry.key c.next_id c.entries;
    lru = (c.next_id, entry) ∷ c.lru;
    bytes = c.bytes + entry.bytes;
    next_id = c.next_id + 1;
  }

  -- `delete(c.pending, key)` for the flight that is still the key's own.
  unfoldable pub land : Cache R → ExecutionKey → Cache R
  land c key = record c { pending = remove key c.pending }

  -- The last section. `storable`: neither the context nor the error speaks of a cancellation.
  unfoldable pub finish : Config → Cache R → Entry R → ℕ → Bool → Option (Cache R)
  unfolding land push evict
  finish config c entry flight storable =
      if is_flight (lookup entry.key c.pending) flight
      then if storable && leb entry.bytes max_execution_cache_entry_bytes
        then evict (length c.lru + 2) config (push (land c entry.key) entry)
        else some (land c entry.key)
      else some c

  abbrev pub drop_at : Cache R → ℕ → Option (Entry R) → Cache R
  drop_at c i none = c
  drop_at c i (some entry) = remove_element c (i, entry)

  -- The two loops of `InvalidateDocument`, over any enumeration of the maps.
  drop_matching : Text → List (ExecutionKey × ℕ) → Cache R → Cache R
  drop_matching uri [] c = c
  drop_matching uri ((key, i) ∷ m) c =
      drop_matching uri m
        (if document_key_matches key.uri uri then drop_at c i (element i c.lru) else c)

  drop_flights : Text → List (ExecutionKey × ℕ) → Cache R → Cache R
  drop_flights uri [] c = c
  drop_flights uri ((key, f) ∷ m) c =
      drop_flights uri m (if document_key_matches key.uri uri then land c key else c)

  unfoldable pub invalidate_document : Text → Cache R → Cache R
  unfolding drop_matching drop_flights document_key_matches remove_element land
  invalidate_document uri c =
      let c' = drop_matching uri c.entries c in drop_flights uri c'.pending c'

-- A critical section of some caller of `cachedExecution`, or an invalidation.
pub data Section (R : Type 0) : Type 0 where
  enters : ExecutionKey → ℕ → Section R
  finishes : Entry R → ℕ → Bool → Section R
  invalidates : Text → Section R

module _ {R : Type 0} where
  abbrev pub or_same : Cache R → Option (Cache R) → Cache R
  or_same c none = c
  or_same c (some c') = c'

  unfoldable pub apply : Config → Cache R → Section R → Cache R
  unfolding enter finish invalidate_document
  apply config c (enters key now) = (enter config c key now).1
  apply config c (finishes entry flight storable) =
      or_same c (finish config c entry flight storable)
  apply config c (invalidates uri) = invalidate_document uri c

  unfoldable pub run_sections : Config → Cache R → List (Section R) → Cache R
  unfolding apply
  run_sections config c [] = c
  run_sections config c (x ∷ xs) = run_sections config (apply config c x) xs
