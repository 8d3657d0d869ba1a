-- ===== src/Benthos/Sample/Files.antt =====
-- The reading of sample files in internal/benthos/sample.go.
use bloblang_lsp.Common.{
  ◌≤◌, ◌≡◌, arith, suc, zero, refl, ap, sym, subst, ◌∙◌, Bool-cases, inl, inr, ℕ, ◌+◌, ◌*◌, ◌^◌,
  Text, true, not, Option, none, some, [], ◌∷◌, ◌++◌, ltb, if◌then◌else◌, codes, length, take,
}
use bloblang_lsp.Common.Result.{Result, ok, err, ◌>>=◌, with_error, >>=-eq-ok, with_error-eq-ok}
use bloblang_lsp.Benthos.Sample.{
  Value, Entries, SampleContext, SampleError, missing_envelope, not_regular, oversized, unreadable,
  in_file, FileInfo, System, lookup_entry, object_of,
}
use bloblang_lsp.Benthos.Sample.Decoding.{decode_sample_value, Part, apply_sample}

abbrev pub max_sample_file_bytes : ℕ
max_sample_file_bytes = 4 * 2 ^ 20

-- `check` of `ReadSampleFile`
abbrev pub check_info : FileInfo → Result SampleError (Unit {0})
check_info info =
    if not info.regular
    then err not_regular
    else if ltb max_sample_file_bytes info.size
    then err oversized
    else ok tt

-- The length of what the limited reader gave.
abbrev pub check_length : Text → Result SampleError Text
check_length bytes = if ltb max_sample_file_bytes (length bytes) then err oversized else ok bytes

module _ {S : Type 0} where
  -- The envelope under "$bloblang".
  abbrev pub envelope_in : Option (Value S) → Result SampleError (Value S)
  envelope_in none = err missing_envelope
  envelope_in (some v) = ok v

  abbrev pub envelope_of : Option (Entries S) → Result SampleError (Value S)
  envelope_of none = err missing_envelope
  envelope_of (some es) = envelope_in (lookup_entry (codes "$bloblang") es)

  abbrev pub loaded_from : Text → SampleContext S → SampleContext S
  loaded_from path c = record c {
    sample = record (c.sample) { source = path; dependencies = c.sample.dependencies ++ path ∷ [] };
  }

module _ {S : Type 0} (system : System S) where
  unfoldable pub read_sample_file : Text → Result SampleError Text
  read_sample_file path = do
    info ← with_error unreadable (system.stat path)
    _ ← check_info info
    info' ← with_error unreadable (system.open_stat path)
    _ ← check_info info'
    bytes ← with_error unreadable (system.contents path)
    check_length (take (max_sample_file_bytes + 1) bytes)

  unfoldable pub load_sample : SampleContext S → Text → Part → Result SampleError (SampleContext S)
  load_sample c path part = do
    bytes ← read_sample_file path
    v ← with_error (in_file path) (decode_sample_value system bytes)
    envelope ← with_error (in_file path) (envelope_of (object_of v))
    c' ← with_error (in_file path) (apply_sample c envelope part)
    ok (loaded_from path c')

take_whole : (n : ℕ) (xs : Text) → length (take (suc n) xs) ≤ n → take (suc n) xs ≡ xs
take_whole n [] h = refl
take_whole zero (x ∷ xs) h = absurd (omega arith)
take_whole (suc n) (x ∷ xs) h = ap (◌∷◌ x) (take_whole n xs (omega arith))

check_info-ok :
    (info : FileInfo) {u : Unit {0}}
    → check_info info ≡ ok u
    → (info.regular ≡ true) × (info.size ≤ max_sample_file_bytes)
check_info-ok info h = ground arith

check_length-ok :
    (bytes : Text) {b : Text}
    → check_length bytes ≡ ok b
    → (bytes ≡ b) × (length bytes ≤ max_sample_file_bytes)
check_length-ok bytes h = elim (Bool-cases (ltb max_sample_file_bytes (length bytes))) [
  | inl e ↦ absurd (ground (arith, e, h))
  | inr e ↦ (ground (arith, e, h), ground (arith, e))
]

-- What is read of a sample file is the whole file, at most 4 MiB of it, and the file was a regular
-- one within that size, both by its name and once it was open: whatever happens to it in between.
pub read_sample_file_bounds :
    {S : Type 0} (system : System S) (path bytes : Text)
    → read_sample_file system path ≡ ok bytes
    → (length bytes ≤ max_sample_file_bytes)
      × (system.contents path ≡ ok bytes)
      × ((before : FileInfo) × (opened : FileInfo) × (system.stat path ≡ ok before)
          × (system.open_stat path ≡ ok opened)
          × (before.regular ≡ true)
          × (before.size ≤ max_sample_file_bytes)
          × (opened.regular ≡ true)
          × (opened.size ≤ max_sample_file_bytes))
unfolding read_sample_file
read_sample_file_bounds system path bytes h =
    let (before, b, h₁) = >>=-eq-ok (with_error unreadable (system.stat path)) _ h in
    let (_, c, h₂) = >>=-eq-ok (check_info before) _ h₁ in
    let (opened, o, h₃) = >>=-eq-ok (with_error unreadable (system.open_stat path)) _ h₂ in
    let (_, d, h₄) = >>=-eq-ok (check_info opened) _ h₃ in
    let (all, r, h₅) = >>=-eq-ok (with_error unreadable (system.contents path)) _ h₄ in
    let (same, short) = check_length-ok (take (max_sample_file_bytes + 1) all) h₅ in
    let (regular, small) = check_info-ok before c in
    let (regular', small') = check_info-ok opened d in
    (
      subst (λ (x : Text). length x ≤ max_sample_file_bytes) same short,
      with_error-eq-ok unreadable (system.contents path) r
          ∙ ap ok (sym (take_whole max_sample_file_bytes all short) ∙ same),
      (
        before,
        opened,
        with_error-eq-ok unreadable (system.stat path) b,
        with_error-eq-ok unreadable (system.open_stat path) o,
        regular,
        small,
        regular',
        small',
      ),
    )
