-- ===== src/Mapping/Resolve/Imports/Replay.antt =====
-- What the evaluator of internal/mapping/runner.go finds in the imports that
-- internal/mapping/resolve.go has kept.
use bloblang_lsp.Common.{
  ℕ, zero, suc, ◌+◌, ◌-◌, Text, Bool, true, false, Option, none, some, List, [], ◌∷◌, ◌++◌, ◌≡◌,
  refl, sym, ap, ◌∙◌, subst, ltb, if◌then◌else◌, Bool-cases, length, text_eq, text_eq_iff,
  text_eq_refl, text_is_eq, inl, inr, ◌⊎◌,
}
use bloblang_lsp.Common.Dict.{Dict, lookup, insert, lookup-insert}
use bloblang_lsp.Common.Result.{
  Result, ok, ◌>>=◌, with_error, Yields, Yields-then, Yields-bind, Yields-mono,
}
use bloblang_lsp.Benthos.Sample.{System}
use bloblang_lsp.Mapping.Resolve.{
  Request, Host, ResolveError, read_request_file, bad_import, request_size, max_request_bytes,
}
use bloblang_lsp.Mapping.Resolve.Imports.{
  Snapshot, Parser, or_else, supplied, keep, read_import, import_file, out_of_reads, answer, walk,
  max_import_reads, snapshot_imports,
}

-- A run of the parser with an importer, from some answers to all answers.
pub data IsRun (next : List (Text × Text) → Option Text) (importer : Text → Option Text)
    : List (Text × Text) → List (Text × Text) → Type 0 where
  ended : {answers : List (Text × Text)} → next answers ≡ none → IsRun next importer answers answers
  asks :
      {answers later : List (Text × Text)} {name bytes : Text}
      → next answers ≡ some name
      → importer name ≡ some bytes
      → IsRun next importer (answers ++ (name, bytes) ∷ []) later
      → IsRun next importer answers later

or_else-none : (a b : Option Text) → or_else a b ≡ none → (a ≡ none) × (b ≡ none)
or_else-none none b h = (refl, h)
or_else-none (some x) b h = cc

or_else-first : (a b : Option Text) {x : Text} → or_else a none ≡ some x → or_else a b ≡ some x
or_else-first none b h = cc
or_else-first (some y) b h = h

module _ (to_slash : Text → Text) where
  -- All that some imports answer, others answer in the same way.
  abbrev pub Extends : Dict Text Text → Dict Text Text → Type 0
  Extends m n =
      (name bytes : Text)
      → supplied to_slash m name ≡ some bytes
      → supplied to_slash n name ≡ some bytes

  supplied-insert :
      (m : Dict Text Text) (name bytes : Text)
      → supplied to_slash m name ≡ none
      → supplied to_slash (insert (to_slash name) bytes m) name ≡ some bytes
  unfolding supplied
  supplied-insert m name bytes absent =
      rw
        (
          lookup-insert (to_slash name) name bytes m,
          lookup-insert (to_slash name) (to_slash name) bytes m,
          text_eq_refl (to_slash name),
        )
        (place (text_eq (to_slash name) name))
    where
      place :
          (b : Bool) → or_else (if b then some bytes else lookup name m) (some bytes) ≡ some bytes
      place true = refl
      place false = rw (or_else-none (lookup name m) (lookup (to_slash name) m) absent).0 refl

  module _ (idempotent : (name : Text) → to_slash (to_slash name) ≡ to_slash name) where
    Extends-insert :
        (m : Dict Text Text) (name bytes : Text)
        → supplied to_slash m name ≡ none
        → Extends m (insert (to_slash name) bytes m)
    unfolding supplied
    Extends-insert m name bytes absent other found h =
        rw
          (
            lookup-insert (to_slash name) other bytes m,
            lookup-insert (to_slash name) (to_slash other) bytes m,
          )
          (place (Bool-cases (text_eq (to_slash name) other)))
      where
        new : lookup (to_slash name) m ≡ none
        new = (or_else-none (lookup name m) (lookup (to_slash name) m) absent).1

        distinct : text_eq (to_slash name) other ≡ true → ⊥
        distinct e =
            let same : to_slash name ≡ other = (text_eq_iff (to_slash name) other).0 e in
            let first : lookup other m ≡ none = subst (λ k. lookup k m ≡ none) same new in
            let second : lookup (to_slash other) m ≡ none =
              subst (λ k. lookup k m ≡ none) (sym (idempotent name) ∙ ap to_slash same) new in
            cc (rw (first, second) at h)

        slashed :
            (b : Bool)
            → text_eq (to_slash name) (to_slash other) ≡ b
            → or_else (lookup other m) (if b then some bytes else lookup (to_slash other) m)
              ≡ some found
        slashed true e =
            let second : lookup (to_slash other) m ≡ none =
              subst (λ k. lookup k m ≡ none) ((text_eq_iff (to_slash name) (to_slash other)).0 e)
                new in
            or_else-first (lookup other m) (some bytes) (rw second at h)
        slashed false e = h

        place :
            (text_eq (to_slash name) other ≡ true) ⊎ (text_eq (to_slash name) other ≡ false)
            → or_else (if text_eq (to_slash name) other then some bytes else lookup other m) (
                if text_eq (to_slash name) (to_slash other)
                then some bytes
                else lookup (to_slash other) m)
              ≡ some found
        place (inl e) = absurd (distinct e)
        place (inr e) = rw e (slashed (text_eq (to_slash name) (to_slash other)) refl)

module _ {S : Type 0} (host : Host S) (system : System S) (base_dir : Text) where
  module _
      (idempotent : (name : Text) → host.to_slash (host.to_slash name) ≡ host.to_slash name) where
    -- A read answers as the imports will from then on, and they go on answering what they did.
    abbrev Kept : Snapshot → Text → Snapshot × Text → Type 0
    Kept s name (s', bytes) =
        Extends host.to_slash s.imports s'.imports
        × (supplied host.to_slash s'.imports name ≡ some bytes)

    keep-Kept :
        (s : Snapshot) (name bytes : Text)
        → supplied host.to_slash s.imports name ≡ none
        → Yields (Kept s name) (keep host system base_dir s name bytes)
    keep-Kept s name bytes absent =
        elim (Bool-cases (ltb s.remaining (length name + length bytes))) [
          | inl e ↦ rw e tt
          | inr e ↦ rw e (
            Extends-insert host.to_slash idempotent s.imports name bytes absent,
            supplied-insert host.to_slash s.imports name bytes absent,
          )
        ]

    read_import-Kept :
        (s : Snapshot) (name : Text) (o : Option Text)
        → supplied host.to_slash s.imports name ≡ o
        → Yields (Kept s name) (read_import host system base_dir s name o)
    read_import-Kept s name (some bytes) e = (λ other found h. h, e)
    read_import-Kept s name none e =
        Yields-then (Kept s name)
          (with_error (bad_import name)
            (read_request_file system (import_file host system base_dir name)))
          (keep host system base_dir s name) (λ bytes. keep-Kept s name bytes e)

    module _ (next : List (Text × Text) → Option Text) where
      -- What a run of the parser leaves.
      abbrev Walked : List (Text × Text) → Snapshot → Snapshot × List (Text × Text) → Type 0
      Walked answers s (s', later) =
          Extends host.to_slash s.imports s'.imports
          × IsRun next (supplied host.to_slash s'.imports) answers later

      -- One read, with what the rest of the run leaves.
      answer-Walked :
          (answers : List (Text × Text)) (s : Snapshot)
          (continue : List (Text × Text)
            → Snapshot
            → Result ResolveError (Snapshot × List (Text × Text)))
          (o : Option Text)
          → next answers ≡ o
          → ((all : List (Text × Text)) (s' : Snapshot) → Yields (Walked all s') (continue all s'))
          → Yields (Walked answers s) (answer host system base_dir answers s continue o)
      answer-Walked answers s continue none e walked = (λ name bytes h. h, ended e)
      answer-Walked answers s continue (some name) e walked =
          Yields-bind (Kept s name) (Walked answers s)
            (read_import host system base_dir s name (supplied host.to_slash s.imports name))
            (λ r. continue (answers ++ (name, r.1) ∷ []) r.0)
            (read_import-Kept s name (supplied host.to_slash s.imports name) refl) onwards
        where
          onwards :
              (r : Snapshot × Text)
              → Kept s name r
              → Yields (Walked answers s) (continue (answers ++ (name, r.1) ∷ []) r.0)
          onwards (s', bytes) (extends, given) =
              Yields-mono (Walked (answers ++ (name, bytes) ∷ []) s') (Walked answers s)
                (continue (answers ++ (name, bytes) ∷ []) s')
                (walked (answers ++ (name, bytes) ∷ []) s')
                (λ (later, all) (further, run).
                  (λ n b h. further n b (extends n b h), asks e (further name bytes given) run))

      out_of_reads-Walked :
          (answers : List (Text × Text)) (s : Snapshot) (o : Option Text)
          → next answers ≡ o
          → Yields (Walked answers s) (out_of_reads host system base_dir answers s o)
      out_of_reads-Walked answers s none e = (λ name bytes h. h, ended e)
      out_of_reads-Walked answers s (some name) e = tt

      walk-Walked :
          (left : ℕ) (answers : List (Text × Text)) (s : Snapshot)
          → Yields (Walked answers s) (walk host system base_dir next left answers s)
      unfolding walk
      walk-Walked zero answers s = out_of_reads-Walked answers s (next answers) refl
      walk-Walked (suc left) answers s =
          answer-Walked answers s (walk host system base_dir next left) (next answers) refl
            (λ all s'. walk-Walked left all s')

    -- What a snapshot leaves: imports that answer what the given ones did and, to the parser, all that
    -- it asks for.
    abbrev pub Replays : Parser → Request S → Request S → Type 0
    Replays parser r r' =
        Extends host.to_slash r.imports r'.imports
        × ((answers : List (Text × Text)) × IsRun (parser r.source)
              (supplied host.to_slash r'.imports) [] answers)
        × (r' ≡ record r { imports = r'.imports })

    pub snapshot_imports-Replays :
        (parser : Parser) (r : Request S)
        → Yields (Replays parser r) (snapshot_imports host system base_dir parser r)
    unfolding snapshot_imports
    snapshot_imports-Replays parser r =
        Yields-then (Replays parser r) (request_size host r)
          (λ size.
            walk host system base_dir (parser r.source) max_import_reads []
              (record { imports = r.imports; remaining = max_request_bytes - size })
            >>= λ (s, _). ok (record r { imports = s.imports }))
          (λ size.
            Yields-bind
              (Walked (parser r.source) []
                (record { imports = r.imports; remaining = max_request_bytes - size }))
              (Replays parser r)
              (walk host system base_dir (parser r.source) max_import_reads []
                (record { imports = r.imports; remaining = max_request_bytes - size }))
              (λ (s, _). ok (record r { imports = s.imports }))
              (walk-Walked (parser r.source) max_import_reads []
                (record { imports = r.imports; remaining = max_request_bytes - size }))
              (λ (s, answers) (extends, run). (extends, (answers, run), refl)))
