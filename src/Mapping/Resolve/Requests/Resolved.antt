-- ===== src/Mapping/Resolve/Requests/Resolved.antt =====
-- What `Resolve` of internal/mapping/resolve.go hands to the isolated evaluator.
use bloblang_lsp.Common.{
  ℕ, ◌≤◌, Text, false, not, Option, none, some, List, [], ◌∷◌, ◌≡◌, ◌⊎◌, inl, inr, refl, sym, ap,
  ◌∙◌, subst, arith, ltb, Bool-cases,
}
use bloblang_lsp.Common.Strings.{is_nil}
use bloblang_lsp.Common.Result.{
  ok, ◌>>=◌, with_error, Yields, Yields-then, Yields-bind, Yields-mono, Yields-eq,
}
use bloblang_lsp.Benthos.Sample.{Sample, System}
use bloblang_lsp.Mapping.Resolve.{
  Request, Host, or_error, check_size, max_request_bytes, request_size, read_request_file, no_path,
  unread, in_mapping_path, in_input_path, in_sample_path, bad_input, bad_sample, no_sample,
  bad_sample_input, unencodable,
}
use bloblang_lsp.Mapping.Resolve.Inputs.{decode_input_file}
use bloblang_lsp.Mapping.Resolve.Imports.{Parser, supplied}
use bloblang_lsp.Mapping.Resolve.Imports.Replay.{IsRun, Extends, Replays, snapshot_imports-Replays}
use bloblang_lsp.Mapping.Resolve.Requests.{
  Located, check_request, without_paths, locate, input_from_file, check_inline, find_sample,
  root_from_sample, with_sample, input_from_sample, with_input, with_imports, resolve,
}

-- The size of a request is known and within the limit.
abbrev pub Fits : {S : Type 0} → Host S → Request S → Type 0
Fits host r = (n : ℕ) × (host.request_bytes r ≡ some n) × (n ≤ max_request_bytes)

module _ {S : Type 0} (host : Host S) (system : System S) where
  request_size-Fits : (r : Request S) → Yields (λ n. Fits host r) (request_size host r)
  unfolding request_size
  request_size-Fits r = go (host.request_bytes r) refl
    where
      sized : (n : ℕ) → host.request_bytes r ≡ some n → Yields (λ _. Fits host r) (check_size n)
      sized n e = elim (Bool-cases (ltb max_request_bytes n)) [
        | inl h ↦ rw h tt
        | inr h ↦ rw h (n, e, ground (arith, h))
      ]

      go :
          (o : Option ℕ)
          → host.request_bytes r ≡ o
          → Yields (λ _. Fits host r) (or_error unencodable o >>= check_size)
      go none e = tt
      go (some n) e = sized n e

  -- The imports and the mapping's path stay.
  abbrev Stays : Request S → Request S → Type 0
  Stays r r' = (r'.imports ≡ r.imports) × (r'.mapping_path ≡ r.mapping_path)

  locate-Stays : (r : Request S) → Yields (λ l. Stays r l.request) (locate host system r)
  locate-Stays r = elim (Bool-cases (not (is_nil r.mapping_path))) [
    | inl e ↦ rw e (
        Yields-then (λ l. Stays r l.request)
          (or_error (no_path in_mapping_path) (host.abs r.mapping_path)) _
          (λ path.
            Yields-then (λ l. Stays r l.request)
              (with_error (unread in_mapping_path) (read_request_file system path)) _
              (λ bytes. (refl, refl))))
    | inr e ↦ elim (Bool-cases (not (is_nil r.sample_path))) [
      | inl d ↦
          rw (e, d)
            (Yields-then (λ l. Stays r l.request)
              (or_error (no_path in_sample_path) host.working_dir) _ (λ dir. (refl, refl)))
      | inr d ↦ rw (e, d) (refl, refl)
    ]
  ]

  input_from_file-Stays : (r : Request S) → Yields (Stays r) (input_from_file host system r)
  input_from_file-Stays r =
      Yields-then (Stays r) (or_error (no_path in_input_path) (host.abs r.input_path)) _ (λ path.
        Yields-then (Stays r) (with_error (unread in_input_path) (read_request_file system path)) _
          (λ bytes.
            Yields-then (Stays r)
              (with_error bad_input (decode_input_file host system bytes (host.ext_of path))) _
              (λ input. (refl, refl))))

  with_sample-Stays :
      (r : Request S) (sample : Sample S) → Yields (Stays r) (with_sample host system r sample)
  with_sample-Stays r sample =
      Yields-then (Stays r) (or_error bad_sample_input (host.marshal sample.input)) _ (λ input.
        Yields-then (Stays r) (root_from_sample host system r sample) _ (λ root. (refl, refl)))

  input_from_sample-Stays :
      (l : Located S) → Yields (Stays l.request) (input_from_sample host system l)
  input_from_sample-Stays l =
      Yields-then (Stays l.request) (check_inline host system l.request) _ (λ u.
        Yields-then (Stays l.request) (with_error bad_sample (find_sample host system l)) _
          (λ found.
            Yields-then (Stays l.request) (or_error no_sample found)
              (with_sample host system l.request) (with_sample-Stays l.request)))

  with_input-Stays : (l : Located S) → Yields (Stays l.request) (with_input host system l)
  with_input-Stays l = elim (Bool-cases (not (is_nil l.request.input_path))) [
    | inl e ↦ rw e (input_from_file-Stays l.request)
    | inr e ↦ elim (Bool-cases (is_nil l.request.input)) [
      | inl d ↦ rw (e, d) (input_from_sample-Stays l)
      | inr d ↦ rw (e, d) (refl, refl)
    ]
  ]

  module _ (idempotent : (name : Text) → host.to_slash (host.to_slash name) ≡ host.to_slash name)
      (parser : Parser) where
    -- The imports answer what those of the request do and, if it names a mapping, all that the parser
    -- asks for.
    abbrev pub Imported : Request S → Request S → Type 0
    Imported r r' =
        Extends host.to_slash r.imports r'.imports
        × ((r.mapping_path ≡ [])
            ⊎ ((answers : List (Text × Text)) × IsRun (parser r'.source)
                  (supplied host.to_slash r'.imports) [] answers))

    -- A request as the evaluator wants it: without paths, within the limit, and with its imports.
    abbrev pub IsResolved : Request S → Request S → Type 0
    IsResolved r r' = (r' ≡ without_paths r') × Fits host r' × Imported r r'

    nothing : (t : Text) → not (is_nil t) ≡ false → t ≡ []
    nothing [] h = refl
    nothing (c ∷ t) h = cc

    replayed :
        (base_dir : Text) (r filled c : Request S)
        → Stays r filled
        → Replays host system base_dir idempotent parser filled c
        → Imported r c
    replayed base_dir r filled c (imports, _) (extends, (answers, run), made) = (
      λ name bytes h.
          extends name bytes
            (subst (λ m. supplied host.to_slash m name ≡ some bytes) (sym imports) h),
      inr (
        answers,
        subst (λ t. IsRun (parser t) (supplied host.to_slash c.imports) [] answers)
            (sym (ap (λ x. x.source) made)) run,
      ),
    )

    with_imports-Imported :
        (base_dir : Text) (r filled : Request S)
        → Stays r filled
        → Yields (Imported r) (with_imports host system parser base_dir filled)
    with_imports-Imported base_dir r filled (imports, path) =
        elim (Bool-cases (not (is_nil filled.mapping_path))) [
          | inl e ↦ rw e (
              Yields-mono (Replays host system base_dir idempotent parser filled) (Imported r) _
                (snapshot_imports-Replays host system base_dir idempotent parser filled)
                (λ c. replayed base_dir r filled c (imports, path)))
          | inr e ↦ rw e (
            λ name bytes h. subst (λ m. supplied host.to_slash m name ≡ some bytes) (sym imports) h,
            inl (sym path ∙ nothing filled.mapping_path e),
          )
        ]

    resolve-Yields : (r : Request S) → Yields (IsResolved r) (resolve host system parser r)
    unfolding resolve
    resolve-Yields r = Yields-then (IsResolved r) (check_request r) _ (λ u.
        Yields-bind (λ l. Stays r l.request) (IsResolved r) (locate host system r) _
          (locate-Stays r)
          (λ l same.
            Yields-bind (Stays r) (IsResolved r) (with_input host system l) _
              (Yields-mono (Stays l.request) (Stays r) (with_input host system l)
                (with_input-Stays l) (λ filled (imports, path). (imports ∙ same.0, path ∙ same.1)))
              (λ filled stays.
                Yields-bind (Imported r) (IsResolved r)
                  (with_imports host system parser l.base_dir filled) _
                  (with_imports-Imported l.base_dir r filled stays)
                  (λ complete imported.
                    Yields-bind (λ _. Fits host (without_paths complete)) (IsResolved r)
                      (request_size host (without_paths complete)) _
                      (request_size-Fits (without_paths complete))
                      (λ n fits. (refl, fits, imported))))))

-- A resolved request has no paths left and fits the limit of 4 MiB. Its imports answer all that the
-- given ones did and, if the request names a mapping, every name that the parser asks for when it
-- has only these imports: the evaluation meets no import that is not there.
pub resolve-IsResolved :
    {S : Type 0} (host : Host S) (system : System S)
    (idempotent : (name : Text) → host.to_slash (host.to_slash name) ≡ host.to_slash name)
    (parser : Parser) (r : Request S) (r' : Request S)
    → resolve host system parser r ≡ ok r'
    → IsResolved host system idempotent parser r r'
resolve-IsResolved host system idempotent parser r r' h =
    Yields-eq (IsResolved host system idempotent parser r) (resolve host system parser r)
      (resolve-Yields host system idempotent parser r) h
