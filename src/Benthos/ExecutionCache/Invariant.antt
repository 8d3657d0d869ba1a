-- ===== src/Benthos/ExecutionCache/Invariant.antt =====
-- What holds of the cache of internal/benthos/executor_cache.go between the critical sections.
use bloblang_lsp.Common.{
  ℕ, ◌+◌, ◌≤◌, ◌<◌, false, Option, none, some, List, [], ◌∷◌, ◌≡◌, refl, ap, sym, ◌∙◌, arith,
  if◌then◌else◌, length, All, All-mono,
}
use bloblang_lsp.Common.Dict.{lookup, lookup-insert, lookup-remove}
use bloblang_lsp.Benthos.ExecutionCache.{
  ExecutionKey, key_beq, key_beq_iff, key_eq, Entry, Cache, Config, element, drop_element, start,
  remove_element, join_flight, move_to_front, push, land, max_execution_cache_bytes,
  max_execution_cache_entry_bytes,
}
use bloblang_lsp.Benthos.ExecutionCache.Elements.{
  has_id, id_of, total, IsUnique, element-id_of, id_of-drop_element, drop_element-IsUnique,
  total-drop_element, All-drop_element, element-All, has_id-drop_element_self,
}

module _ {R : Type 0} where
  pub record IsValid (c : Cache R) : Type 0 where
    pub unique : IsUnique c.lru
    pub fresh : All (λ x. x.0 < c.next_id) c.lru
    -- the map finds exactly the listed elements
    pub index : (k : ExecutionKey) → lookup k c.entries ≡ id_of k c.lru
    -- the counter is the sum of the sizes
    pub exact : c.bytes ≡ total c.lru
    -- nothing is cached for a key whose execution is under way
    pub flights :
        (k : ExecutionKey) (f : ℕ)
        → lookup k c.pending ≡ some f
        → (id_of k c.lru ≡ none) × (f < c.next_id)
    pub small : All (λ x. x.1.bytes ≤ max_execution_cache_entry_bytes) c.lru

  pub record IsBounded (config : Config) (c : Cache R) : Type 0 where
    pub few : length c.lru ≤ config.size
    pub light : c.bytes ≤ max_execution_cache_bytes

  pub start-IsValid : IsValid (start {R = R})
  unfolding lookup
  start-IsValid = record {
    unique = tt;
    fresh = tt;
    index = λ k. refl;
    exact = refl;
    flights = λ k f h. cc;
    small = tt;
  }

  fresh-has_id : (n : ℕ) (l : List (ℕ × Entry R)) → All (λ x. x.0 < n) l → has_id n l ≡ false
  fresh-has_id n [] h = refl
  fresh-has_id n ((j, d) ∷ l) h = ground (arith, fresh-has_id n l h.1)

  module _ (c : Cache R) (v : IsValid c) where
    pub remove_element-IsValid :
        (i : ℕ) (e : Entry R) → element i c.lru ≡ some e → IsValid (remove_element c (i, e))
    unfolding remove_element
    remove_element-IsValid i e at = record {
      unique = drop_element-IsUnique i c.lru v.unique;
      fresh = All-drop_element (λ x. x.0 < c.next_id) i c.lru v.fresh;
      index = λ k.
          lookup-remove e.key k c.entries
          ∙ ap (λ o. if key_beq e.key k then none else o) (v.index k)
          ∙ sym (id_of-drop_element i c.lru e k v.unique at);
      exact = omega (arith, v.exact, total-drop_element i c.lru e at);
      flights =
          λ k f h. ground (arith, v.flights k f h, id_of-drop_element i c.lru e k v.unique at);
      small = All-drop_element (λ x. x.1.bytes ≤ max_execution_cache_entry_bytes) i c.lru v.small;
    }

    pub move_to_front-IsValid :
        (i : ℕ) (e : Entry R) → element i c.lru ≡ some e → IsValid (move_to_front c i e)
    unfolding move_to_front
    move_to_front-IsValid i e at = record {
      unique = (
        has_id-drop_element_self i c.lru v.unique,
        ground (arith, id_of-drop_element i c.lru e e.key v.unique at, key_beq_iff e.key e.key),
        drop_element-IsUnique i c.lru v.unique,
      );
      fresh = (
        element-All (λ x. x.0 < c.next_id) i c.lru e v.fresh at,
        All-drop_element (λ x. x.0 < c.next_id) i c.lru v.fresh,
      );
      index = moved_index i e at;
      exact = omega (arith, v.exact, total-drop_element i c.lru e at);
      flights = λ k f h.
          (sym (moved_index i e at k) ∙ v.index k ∙ (v.flights k f h).0, (v.flights k f h).1);
      small = (
        element-All (λ x. x.1.bytes ≤ max_execution_cache_entry_bytes) i c.lru e v.small at,
        All-drop_element (λ x. x.1.bytes ≤ max_execution_cache_entry_bytes) i c.lru v.small,
      );
    }
      where
        moved_index :
            (i : ℕ) (e : Entry R)
            → element i c.lru ≡ some e
            → (k : ExecutionKey) → lookup k c.entries ≡ id_of k ((i, e) ∷ drop_element i c.lru)
        moved_index i e at k = ground (
          arith,
          v.index k,
          id_of-drop_element i c.lru e k v.unique at,
          element-id_of i c.lru e v.unique at,
          key_beq_iff e.key k,
        )

    pub push-IsValid :
        (e : Entry R)
        → lookup e.key c.entries ≡ none
        → lookup e.key c.pending ≡ none
        → e.bytes ≤ max_execution_cache_entry_bytes
        → IsValid (push c e)
    unfolding push
    push-IsValid e absent landed s = record {
      unique = (fresh-has_id c.next_id c.lru v.fresh, sym (v.index e.key) ∙ absent, v.unique);
      fresh = (
        omega arith,
        All-mono (λ x. x.0 < c.next_id) (λ x. x.0 < c.next_id + 1) c.lru (λ x h. omega arith)
            v.fresh,
      );
      index = λ k.
          lookup-insert e.key k c.next_id c.entries
          ∙ ap (λ o. if key_beq e.key k then some c.next_id else o) (v.index k);
      exact = omega (arith, v.exact);
      flights = λ k f h. ground (arith, v.flights k f h, key_beq_iff e.key k);
      small = (s, v.small);
    }

    pub land-IsValid : (k : ExecutionKey) → IsValid (land c k)
    unfolding land
    land-IsValid k = record {
      unique = v.unique;
      fresh = v.fresh;
      index = v.index;
      exact = v.exact;
      flights = λ j f h. ground (arith, lookup-remove k j c.pending, v.flights j f);
      small = v.small;
    }

    pub join_flight-IsValid :
        (k : ExecutionKey) (o : Option ℕ)
        → lookup k c.entries ≡ none
        → IsValid (join_flight c k o).1
    unfolding join_flight
    join_flight-IsValid k (some f) absent = v
    join_flight-IsValid k none absent = record {
      unique = v.unique;
      fresh =
          All-mono (λ x. x.0 < c.next_id) (λ x. x.0 < c.next_id + 1) c.lru (λ x h. omega arith)
            v.fresh;
      index = v.index;
      exact = v.exact;
      flights = λ j f h.
          ground (
            arith,
            lookup-insert k j c.next_id c.pending,
            v.flights j f,
            v.index k,
            key_beq_iff k j,
          );
      small = v.small;
    }
