-- ===== src/Benthos/Sample/Decoding/Whole.antt =====
-- A whole sample of internal/benthos/sample.go replaces what directives before it gave.
use mathlib.Core.Path.{◌≡◌, refl, ap}
use bloblang_lsp.Common.{Text, Option, none, some, codes}
use bloblang_lsp.Common.Dict.{Dict}
use bloblang_lsp.Common.Result.{Result, ok, err, ◌>>=◌}
use bloblang_lsp.Benthos.Sample.{
  Value, Entries, SampleContext, SampleError, lookup_entry, object_of,
}
use bloblang_lsp.Benthos.Sample.Decoding.{
  whole, set_meta, set_env, required_input, optional_root, set_input, apply_env, optional_meta,
  apply_entries, apply_sample,
}

module _ {S : Type 0} where
  -- The same input, environment and metadata.
  abbrev pub SameValues : SampleContext S → SampleContext S → Type 0
  SameValues c d =
      (c.has_input ≡ d.has_input)
      × (c.sample.input ≡ d.sample.input)
      × (c.sample.env ≡ d.sample.env)
      × (c.sample.meta ≡ d.sample.meta)

  abbrev take_whole :
      SampleContext S
      → Option (Value S)
      → Option (Value S)
      → Result SampleError (Option (Dict Text Text))
      → Result SampleError (Option (Entries S))
      → Result SampleError (SampleContext S)
  take_whole c root input env meta = do
    c₁ ← required_input (optional_root c root) input
    e ← env
    m ← meta
    ok (set_meta (set_env c₁ e) m)

  take_whole-SameValues :
      (c d : SampleContext S) (root input : Option (Value S))
      (env : Result SampleError (Option (Dict Text Text)))
      (meta : Result SampleError (Option (Entries S))) {c' : SampleContext S}
      → take_whole c root input env meta ≡ ok c'
      → (d' : SampleContext S) × (take_whole d root input env meta ≡ ok d') × SameValues d' c'
  take_whole-SameValues c d root none env meta h = cc
  take_whole-SameValues c d root (some v) (err e) meta h = cc
  take_whole-SameValues c d root (some v) (ok env) (err e) h = cc
  take_whole-SameValues c d root (some v) (ok env) (ok meta) {c'} h =
      let made : set_meta (set_env (set_input (optional_root c root) v) env) meta ≡ c' = cc in
      (
        set_meta (set_env (set_input (optional_root d root) v) env) meta,
        refl,
        (
          ap (λ x. x.has_input) made,
          ap (λ x. x.sample.input) made,
          ap (λ x. x.sample.env) made,
          ap (λ x. x.sample.meta) made,
        ),
      )

  -- What a whole sample gives does not depend on what was given before: if it is accepted after some
  -- directives, it is accepted after any others, with the same input, environment and metadata.
  pub apply_sample-SameValues :
      (c d : SampleContext S) (v : Value S) {c' : SampleContext S}
      → apply_sample c v whole ≡ ok c'
      → (d' : SampleContext S) × (apply_sample d v whole ≡ ok d') × SameValues d' c'
  unfolding apply_sample
  apply_sample-SameValues c d v {c'} h = go (object_of v) h
    where
      go :
          (o : Option (Entries S))
          → apply_entries c o whole ≡ ok c'
          → (d' : SampleContext S) × (apply_entries d o whole ≡ ok d') × SameValues d' c'
      go none k = cc
      go (some es) k =
          take_whole-SameValues c d (lookup_entry (codes "root") es)
            (lookup_entry (codes "input") es) (apply_env (lookup_entry (codes "env") es))
            (optional_meta (lookup_entry (codes "meta") es)) k
