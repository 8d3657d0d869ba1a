-- ===== src/Tests/Cache.antt =====
-- The execution cache of internal/benthos/executor_cache.go with room for one result.
use bloblang_lsp.Common.{ℕ, true, some, none, List, [], ◌∷◌, ◌≡◌, refl, arith, codes}
use bloblang_lsp.Common.Dict.{lookup, insert, remove}
use bloblang_lsp.Benthos.ExecutionCache.{
  ExecutionKey, key_eq, Entry, Cache, Config, start, Section, enters, finishes, run_sections, enter,
  finish, document_key_matches, invalidate_document, hit,
}
use bloblang_lsp.Benthos.ExecutionCache.Invariant.{IsValid, IsBounded}
use bloblang_lsp.Benthos.ExecutionCache.Fitting.{Fits}
use bloblang_lsp.Benthos.ExecutionCache.Eviction.{StandsFirst, stored, finish-stores}
use bloblang_lsp.Benthos.ExecutionCache.Invalidation.{invalidate_document_clears}
use bloblang_lsp.Benthos.ExecutionCache.Overtaken.{invalidated_not_stored}
use bloblang_lsp.Benthos.ExecutionCache.Runs.{run_sections-IsValid}

abbrev small : Config
small = record { size = 1; ttl = 100 }

abbrev key_a : ExecutionKey
key_a = record { uri = codes "a.blobl"; digest = codes "1" }

abbrev key_b : ExecutionKey
key_b = record { uri = codes "b.blobl"; digest = codes "2" }

abbrev result_a : Entry ℕ
result_a = record { key = key_a; result = 10; created = 5; bytes = 40 }

abbrev result_b : Entry ℕ
result_b = record { key = key_b; result = 20; created = 6; bytes = 50 }

-- `a` is cached and `b` is being executed.
abbrev sections : List (Section ℕ)
sections = enters key_a 5 ∷ finishes result_a 0 true ∷ enters key_b 6 ∷ []

abbrev busy : Cache ℕ
busy = run_sections small start sections

busy-IsValid : IsValid busy
busy-IsValid = (run_sections-IsValid small sections).0

run_sections-IsValid_example : IsValid busy × IsBounded small busy
run_sections-IsValid_example = run_sections-IsValid small sections

finish-stores_example :
    (c' : Cache ℕ) × (finish small busy result_b 2 true ≡ some c')
    × Fits small (stored busy result_b) c'
    × StandsFirst small result_b c'.lru
unfolding run_sections lookup insert remove
finish-stores_example = finish-stores small busy result_b 2 busy-IsValid refl (omega arith)

invalidate_document_clears_example :
    (lookup key_a (invalidate_document (codes "a.blobl") busy).entries ≡ none)
    × (lookup key_a (invalidate_document (codes "a.blobl") busy).pending ≡ none)
unfolding document_key_matches
invalidate_document_clears_example =
    invalidate_document_clears (codes "a.blobl") busy key_a busy-IsValid refl

-- `b` is invalidated while it runs, and another caller starts it again.
invalidated_not_stored_example :
    finish small
      (run_sections small (invalidate_document (codes "b.blobl") busy) (enters key_b 7 ∷ []))
      result_b
      2
      true
    ≡ some (run_sections small (invalidate_document (codes "b.blobl") busy) (enters key_b 7 ∷ []))
unfolding document_key_matches run_sections lookup insert remove
invalidated_not_stored_example =
    invalidated_not_stored small busy (codes "b.blobl") (enters key_b 7 ∷ []) result_b 2 true
      busy-IsValid refl (omega arith)

evicts_the_older :
    (run_sections small start (
      enters key_a 5
      ∷ finishes result_a 0 true
      ∷ enters key_b 6
      ∷ finishes result_b 2 true
      ∷ [])).bytes
    ≡ 50
unfolding run_sections lookup insert remove
evicts_the_older = refl

hits : (enter small busy key_a 50).0 ≡ hit 10
unfolding enter run_sections lookup insert remove
hits = refl
