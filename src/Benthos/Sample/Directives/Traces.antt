-- ===== src/Benthos/Sample/Directives/Traces.antt =====
-- What a sample of internal/benthos/sample.go says of where it came from.
use bloblang_lsp.Common.{
  ℕ, zero, suc, ◌+◌, Text, Bool, true, false, Option, none, some, List, [], ◌∷◌, ◌++◌, ◌≡◌, ◌≢◌,
  refl, sym, if◌then◌else◌, Bool-cases, inl, inr, codes, text_eq, text_is_eq, length, contains, All,
  All-append,
}
use bloblang_lsp.Common.Dict.{Dict}
use bloblang_lsp.Common.Strings.{
  has_prefix, has_suffix, trim_prefix, trim_suffix, trim_left, trim_right, trim_space, before,
  after_byte, join, is_nil,
}
use bloblang_lsp.Common.Result.{
  Result, ok, err, with_error, Yields, Yields-bind, Yields-self, Yields-with_error, Yields-eq,
  Yields-then,
}
use bloblang_lsp.Benthos.Sample.{
  Value, Entries, Sample, SampleContext, SampleError, LineError, System, in_file, lookup_entry,
  object_of,
}
use bloblang_lsp.Benthos.Sample.Decoding.{
  decode_sample_value, Part, whole, root, input, meta, set_root, set_input, set_meta, set_env,
  meta_object, apply_sample, apply_object, required_root, required_input, optional_root, apply_env,
  optional_meta, required_meta, apply_entries,
}
use bloblang_lsp.Benthos.Sample.Files.{read_sample_file, envelope_of, loaded_from, load_sample}
use bloblang_lsp.Benthos.Sample.Directives.{
  is_quote, block, Reading, LineStep, skipped, ended, failed, applied, handle_directive,
  load_directive, absolute, apply_directive, step_of, run_directive, directive_step, line_step,
  after_line, read_directives, is_explicit, part_named, load_sibling, sample_of, extract_from_lines,
  empty_context, is_comment, without_line,
}

abbrev pub last_or : Text → List Text → Text
last_or d [] = d
last_or d (p ∷ ps) = last_or p ps

last_or-append : (d p : Text) (ps : List Text) → last_or d (ps ++ p ∷ []) ≡ p
last_or-append d p [] = refl
last_or-append d p (q ∷ ps) = last_or-append q p ps

abbrev pub is_some {ℓ} : {A : Type ℓ} → Option A → Bool
is_some none = false
is_some (some _) = true

module _ {S : Type 0} (system : System S) where
  abbrev pub IsRead : Text → Type 0
  IsRead path = (bytes : Text) × (read_sample_file system path ≡ ok bytes)

  -- The source is the file that was loaded last, or the mapping itself; each file on the list of
  -- dependencies was read within the limits; the presence flags are true to the values.
  pub record IsTraced (s : Sample S) : Type 0 where
    pub origin : s.source ≡ last_or (codes "inline") s.dependencies
    pub read : All IsRead s.dependencies
    pub rooted : s.has_root ≡ is_some s.root

  abbrev IsSound : SampleContext S → Type 0
  IsSound c = IsTraced c.sample × (c.has_input ≡ is_some c.sample.input)

  set_root-IsSound : (c : SampleContext S) (v : Value S) → IsSound c → IsSound (set_root c v)
  set_root-IsSound c v (t, g) = (record { origin = t.origin; read = t.read; rooted = refl }, g)

  optional_root-IsSound :
      (c : SampleContext S) (o : Option (Value S)) → IsSound c → IsSound (optional_root c o)
  optional_root-IsSound c none h = h
  optional_root-IsSound c (some v) h = set_root-IsSound c v h

  set_input-IsSound : (c : SampleContext S) (v : Value S) → IsSound c → IsSound (set_input c v)
  set_input-IsSound c v (t, g) =
      (record { origin = t.origin; read = t.read; rooted = t.rooted }, refl)

  required_input-IsSound :
      (c : SampleContext S) (o : Option (Value S)) → IsSound c → Yields IsSound (required_input c o)
  required_input-IsSound c none h = tt
  required_input-IsSound c (some v) h = set_input-IsSound c v h

  required_root-IsSound :
      (c : SampleContext S) (o : Option (Value S)) → IsSound c → Yields IsSound (required_root c o)
  required_root-IsSound c none h = tt
  required_root-IsSound c (some v) h = set_root-IsSound c v h

  set_meta-IsSound :
      (c : SampleContext S) (m : Option (Entries S)) → IsSound c → IsSound (set_meta c m)
  set_meta-IsSound c m (t, g) = (record { origin = t.origin; read = t.read; rooted = t.rooted }, g)

  set_env-IsSound :
      (c : SampleContext S) (m : Option (Dict Text Text)) → IsSound c → IsSound (set_env c m)
  set_env-IsSound c m (t, g) = (record { origin = t.origin; read = t.read; rooted = t.rooted }, g)

  apply_object-IsSound :
      (c : SampleContext S) (es : Entries S) (part : Part)
      → IsSound c
      → Yields IsSound (apply_object c es part)
  apply_object-IsSound c es whole h =
      Yields-bind IsSound IsSound
        (required_input (optional_root c (lookup_entry (codes "root") es))
          (lookup_entry (codes "input") es))
        _
        (required_input-IsSound (optional_root c (lookup_entry (codes "root") es))
          (lookup_entry (codes "input") es)
          (optional_root-IsSound c (lookup_entry (codes "root") es) h))
        λ c₁ k. Yields-then IsSound (apply_env (lookup_entry (codes "env") es)) _ λ env.
          Yields-then IsSound (optional_meta (lookup_entry (codes "meta") es)) _
            λ m. set_meta-IsSound (set_env c₁ env) m (set_env-IsSound c₁ env k)
  apply_object-IsSound c es root h = required_root-IsSound c (lookup_entry (codes "root") es) h
  apply_object-IsSound c es input h = required_input-IsSound c (lookup_entry (codes "input") es) h
  apply_object-IsSound c es meta h =
      Yields-then IsSound (required_meta (lookup_entry (codes "meta") es)) _
        λ m. set_meta-IsSound c m h

  apply_sample-IsSound :
      (c : SampleContext S) (v : Value S) (part : Part)
      → IsSound c
      → Yields IsSound (apply_sample c v part)
  unfolding apply_sample
  apply_sample-IsSound c v part h = go (object_of v)
    where
      go : (o : Option (Entries S)) → Yields IsSound (apply_entries c o part)
      go none = tt
      go (some es) = apply_object-IsSound c es part h

  loaded-IsSound :
      (c : SampleContext S) (path : Text) → IsRead path → IsSound c → IsSound (loaded_from path c)
  loaded-IsSound c path read (t, g) = (
    record {
      origin = sym (last_or-append (codes "inline") path c.sample.dependencies);
      read = All-append IsRead c.sample.dependencies (path ∷ []) t.read (read, tt);
      rooted = t.rooted;
    },
    g,
  )

  load_sample-IsSound :
      (c : SampleContext S) (path : Text) (part : Part)
      → IsSound c
      → Yields IsSound (load_sample system c path part)
  unfolding load_sample
  load_sample-IsSound c path part h =
      Yields-bind (λ bytes. read_sample_file system path ≡ ok bytes) IsSound
        (read_sample_file system path) _ (Yields-self (read_sample_file system path))
        λ bytes e.
          Yields-then IsSound (with_error (in_file path) (decode_sample_value system bytes)) _ λ v.
            Yields-then IsSound (with_error (in_file path) (envelope_of (object_of v))) _
              λ envelope.
                Yields-bind IsSound IsSound
                  (with_error (in_file path) (apply_sample c envelope part)) _
                  (Yields-with_error IsSound (in_file path) (apply_sample c envelope part)
                    (apply_sample-IsSound c envelope part h))
                  λ c' k. loaded-IsSound c' path (bytes, e) k

  module _ (base_dir : Text) where
    handle_directive-IsSound :
        (c : SampleContext S) (part : Part) (raw : Text)
        → IsSound c
        → Yields IsSound (handle_directive system base_dir c part raw)
    handle_directive-IsSound c root raw h =
        Yields-then IsSound (decode_sample_value system raw) _ λ v. set_root-IsSound c v h
    handle_directive-IsSound c input raw h =
        Yields-then IsSound (decode_sample_value system raw) _ λ v. set_input-IsSound c v h
    handle_directive-IsSound c meta raw h =
        Yields-then IsSound (decode_sample_value system raw) _
          λ v. Yields-then IsSound (meta_object (object_of v)) _ λ m. set_meta-IsSound c m h
    handle_directive-IsSound c whole raw h =
        Yields-then IsSound (decode_sample_value system raw) _ λ v. apply_sample-IsSound c v whole h

    load_directive-IsSound :
        (c : SampleContext S) (part : Part) (p : Text) (start : ℕ)
        → IsSound c
        → Yields IsSound (load_directive system base_dir c part p start)
    unfolding load_directive
    load_directive-IsSound c part [] start h = tt
    load_directive-IsSound c part (x ∷ p) start h =
        Yields-bind IsSound IsSound (load_sample system c (absolute system base_dir (x ∷ p)) part) _
          (load_sample-IsSound c (absolute system base_dir (x ∷ p)) part h)
          λ c' (t, g). (record { origin = t.origin; read = t.read; rooted = t.rooted }, g)

    apply_directive-IsSound :
        (c : SampleContext S) (part : Part) (name raw : Text) (start : ℕ)
        → IsSound c
        → Yields IsSound (apply_directive system base_dir c part name raw start)
    unfolding apply_directive
    apply_directive-IsSound c part name raw start h =
        elim (Bool-cases (has_suffix (codes "_from") name)) [
          | inl e ↦
              rw e (
                load_directive-IsSound c part (trim_right is_quote (trim_left is_quote raw)) start
                  h)
          | inr e ↦ rw e (handle_directive-IsSound c part raw h)
        ]

    abbrev Keeps : LineStep S → Type 0
    Keeps (applied r taken) = IsSound r.context
    Keeps (failed e) = Unit
    Keeps skipped = Unit
    Keeps ended = Unit

    step_of-Keeps :
        (r : Reading S) (name : Text) (start taken : ℕ) (x : Result SampleError (SampleContext S))
        → Yields IsSound x
        → Keeps (step_of system base_dir r name start taken x)
    step_of-Keeps r name start taken (ok c) (t, g) =
        (record { origin = t.origin; read = t.read; rooted = t.rooted }, g)
    step_of-Keeps r name start taken (err e) h = tt

    run_directive-Keeps :
        (r : Reading S) (part : Option Part) (name raw : Text) (start taken : ℕ)
        → IsSound r.context
        → Keeps (run_directive system base_dir r part name raw start taken)
    run_directive-Keeps r none name raw start taken h = tt
    run_directive-Keeps r (some part) name raw start taken h =
        elim (Bool-cases (contains r.seen name)) [
          | inl e ↦ rw e tt
          | inr e ↦ elim (Bool-cases (is_nil (trim_space raw))) [
            | inl d ↦ rw (e, d) tt
            | inr d ↦
                rw (e, d)
                  (step_of-Keeps r name start taken
                    (apply_directive system base_dir r.context part name raw start)
                    (apply_directive-IsSound r.context part name raw start h))
          ]
        ]

    directive_step-Keeps :
        (r : Reading S) (i : ℕ) (body : Text) (ls : List Text)
        → IsSound r.context
        → Keeps (directive_step system base_dir r i body ls)
    unfolding directive_step
    directive_step-Keeps r i body ls h =
        let name = before (codes " ") body in
        let raw = trim_space (after_byte b' ' body) in
        let part = part_named (trim_suffix (codes "_from") name) in
        elim (Bool-cases (text_eq raw (codes "|"))) [
          | inl e ↦ rw e (
              run_directive-Keeps r part name (join (codes "\n") (block ls)) i (length (block ls))
                h)
          | inr e ↦ rw e (run_directive-Keeps r part name raw i 0 h)
        ]

    line_step-Keeps :
        (r : Reading S) (i : ℕ) (l : Text) (ls : List Text)
        → IsSound r.context
        → Keeps (line_step system base_dir r i l ls)
    unfolding line_step
    line_step-Keeps r i l ls h = elim (Bool-cases (is_comment (trim_space l))) [
      | inl e ↦ rw e tt
      | inr e ↦ elim (Bool-cases (has_prefix (codes "#!") (trim_space l))) [
        | inr d ↦ rw (e, d) tt
        | inl d ↦
            rw (e, d)
              (directive_step-Keeps r i (trim_space (trim_prefix (codes "#!") (trim_space l))) ls h)
      ]
    ]

    after_line-IsSound :
        (r : Reading S) (i : ℕ) (f : Reading S → ℕ → Result LineError (Reading S)) (x : LineStep S)
        → IsSound r.context
        → Keeps x
        → ((r' : Reading S) (taken : ℕ)
            → IsSound r'.context
            → Yields (λ s. IsSound s.context) (f r' taken))
        → Yields (λ s. IsSound s.context) (after_line system base_dir r i f x)
    after_line-IsSound r i f skipped h k next = next r 0 h
    after_line-IsSound r i f ended h k next = h
    after_line-IsSound r i f (failed e) h k next = tt
    after_line-IsSound r i f (applied r' taken) h k next = next r' taken k

    read_directives-IsSound :
        (r : Reading S) (i skip : ℕ) (ls : List Text)
        → IsSound r.context
        → Yields (λ s. IsSound s.context) (read_directives system base_dir r i skip ls)
    unfolding read_directives
    read_directives-IsSound r i skip [] h = h
    read_directives-IsSound r i (suc skip) (l ∷ ls) h = read_directives-IsSound r (i + 1) skip ls h
    read_directives-IsSound r i zero (l ∷ ls) h =
        after_line-IsSound r i (λ r' taken. read_directives system base_dir r' (i + 1) taken ls)
          (line_step system base_dir r i l ls) h (line_step-Keeps r i l ls h)
          (λ r' taken k. read_directives-IsSound r' (i + 1) taken ls k)

  load_sibling-IsSound :
      (paths : List Text) (explicit : Bool) → Yields IsSound (load_sibling system paths explicit)
  load_sibling-IsSound paths true = (record { origin = refl; read = tt; rooted = refl }, refl)
  load_sibling-IsSound [] false = (record { origin = refl; read = tt; rooted = refl }, refl)
  load_sibling-IsSound (p ∷ []) false =
      load_sample-IsSound empty_context p whole
        (record { origin = refl; read = tt; rooted = refl }, refl)
  load_sibling-IsSound (p ∷ q ∷ ps) false = tt

  abbrev IsFound : Option (Sample S) → Type 0
  IsFound none = Unit
  IsFound (some s) = IsTraced s × (s.input ≢ none)

  sample_of-IsFound : (c : SampleContext S) → IsSound c → IsFound (sample_of c)
  sample_of-IsFound c (t, g) = go c.has_input c.sample.input refl g
    where
      go :
          (b : Bool) (o : Option (Value S))
          → c.sample.input ≡ o
          → b ≡ is_some o
          → IsFound (if b then some c.sample else none)
      go false o e h = tt
      go true none e h = cc
      go true (some v) e h = (t, λ n. cc (n, e))

  -- A sample that is found has an input; its source is the file that was loaded last, or else the
  -- mapping; every file it depends on was read within the limits; and it has a root exactly when it
  -- says so.
  pub extract_from_lines-IsTraced :
      (base_dir : Text) (paths lines : List Text) (s : Sample S)
      → extract_from_lines system base_dir paths lines ≡ ok (some s)
      → IsTraced s × (s.input ≢ none)
  unfolding extract_from_lines
  extract_from_lines-IsTraced base_dir paths lines s e =
      Yields-eq IsFound (extract_from_lines system base_dir paths lines) found e
    where
      found : Yields IsFound (extract_from_lines system base_dir paths lines)
      found =
          let sibling = load_sibling system paths (is_explicit lines) in
          Yields-bind IsSound IsFound (with_error (without_line system) sibling) _
            (Yields-with_error IsSound (without_line system) sibling
              (load_sibling-IsSound paths (is_explicit lines)))
            λ c h.
              Yields-bind (λ r. IsSound r.context) IsFound
                (read_directives system base_dir (record { context = c; seen = [] }) 0 0 lines) _
                (read_directives-IsSound base_dir (record { context = c; seen = [] }) 0 0 lines h)
                λ r k. sample_of-IsFound r.context k
