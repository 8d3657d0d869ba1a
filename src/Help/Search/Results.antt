-- ===== src/Help/Search/Results.antt =====
-- The results that the hits of a query leave in a search of internal/help/index.go.
use bloblang_lsp.Common.{
  ℕ, zero, suc, ◌+◌, Text, Bool, true, false, ◌||◌, Option, none, some, List, [], ◌∷◌, ◌++◌, ◌≡◌,
  ◌⊎◌, inl, inr, refl, sym, ap, ◌∙◌, ltb, if◌then◌else◌, Bool-cases, length, map, contains,
  Distinct, All, contains-append_one, Distinct-append_one, append_assoc, append-nil, text_eq,
  text_eq_refl, text_is_eq,
}
use bloblang_lsp.Common.Dict.{lookup, lookup-insert}
use bloblang_lsp.Help.Index.{Documentation}
use bloblang_lsp.Help.Ranking.{Evidence}
use bloblang_lsp.Help.Search.{
  QueryMeta, Match, SearchResult, SearchState, Costs, add_match, result_of, cost_of, record_hit,
  take_hits,
}

abbrev pub Hits : Type 0
Hits = List (Documentation × List Evidence)

-- The identifiers of the results, and of the hits.
abbrev pub ids_of : List SearchResult → List Text
ids_of results = map (λ r. r.id) results

abbrev pub hit_ids : Hits → List Text
hit_ids hits = map (λ h. h.0.id) hits

abbrev is_some : Option ℕ → Bool
is_some none = false
is_some (some _) = true

-- The results stand once each, and the positions know which there are.
pub record IsIndexed (s : SearchState) : Type 0 where
  pub distinct : Distinct (ids_of s.results)
  pub known : (id : Text) → is_some (lookup id s.positions) ≡ contains (ids_of s.results) id

-- A later state has all the results, and the same answers so far.
abbrev pub Grows : SearchState → SearchState → Type 0
Grows s s' =
    ((id : Text) → contains (ids_of s.results) id ≡ true → contains (ids_of s'.results) id ≡ true)
    × (s'.queries ≡ s.queries)

add_match-ids : (m : Match) (i : ℕ) (rs : List SearchResult) → ids_of (add_match m i rs) ≡ ids_of rs
add_match-ids m i [] = refl
add_match-ids m zero (r ∷ rs) = refl
add_match-ids m (suc i) (r ∷ rs) = ap (λ xs. r.id ∷ xs) (add_match-ids m i rs)

ids_of-append :
    (rs : List SearchResult) (r : SearchResult) → ids_of (rs ++ r ∷ []) ≡ ids_of rs ++ r.id ∷ []
ids_of-append [] r = refl
ids_of-append (x ∷ rs) r = ap (λ xs. x.id ∷ xs) (ids_of-append rs r)

found_or :
    (b c : Bool) (o : Option ℕ) (n : ℕ)
    → is_some o ≡ c
    → is_some (if b then some n else o) ≡ (c || b)
found_or true true o n h = refl
found_or true false o n h = refl
found_or false true o n h = h
found_or false false o n h = h

module _ (costs : Costs) where
  -- A hit that is recorded.
  record_hit-Indexed :
      (s : SearchState) (o : Option ℕ) (r : SearchResult) (m : Match)
      → IsIndexed s
      → lookup r.id s.positions ≡ o
      → IsIndexed (record_hit costs s o r m)
        × Grows s (record_hit costs s o r m)
        × (contains (ids_of (record_hit costs s o r m).results) r.id ≡ true)
  record_hit-Indexed s (some i) r m inv e =
      let same = add_match-ids m i s.results in
      (
        record { distinct = rw same inv.distinct; known = λ id. rw same (inv.known id) },
        (λ id h. rw same h, refl),
        rw same (sym (inv.known r.id) ∙ ap is_some e),
      )
  record_hit-Indexed s none r m inv e =
      let more = ids_of-append s.results r in
      let absent : contains (ids_of s.results) r.id ≡ false = sym (inv.known r.id) ∙ ap is_some e in
      (
        record {
          distinct = rw more (Distinct-append_one (ids_of s.results) r.id inv.distinct absent);
          known = λ id.
              rw
                (
                  more,
                  contains-append_one (ids_of s.results) r.id id,
                  lookup-insert r.id id (length s.results) s.positions,
                )
                (found_or (text_eq r.id id) (contains (ids_of s.results) id) (lookup id s.positions)
                  (length s.results) (inv.known id));
        },
        (λ id h. rw (more, contains-append_one (ids_of s.results) r.id id, h) refl, refl),
        rw (more, contains-append_one (ids_of s.results) r.id r.id, absent, text_eq_refl r.id) refl,
      )

  -- What the hits of a query leave: the first of them are answered, all of them unless there is more.
  abbrev pub Taken : Hits → SearchState → QueryMeta → SearchState × QueryMeta → Type 0
  Taken hits s meta (s', meta') =
      IsIndexed s'
      × Grows s s'
      × (meta'.id ≡ meta.id)
      × (meta'.error ≡ meta.error)
      × ((taken : List Text) × (left : List Text) × (hit_ids hits ≡ taken ++ left)
          × (meta'.result_ids ≡ meta.result_ids ++ taken)
          × ((meta'.has_more ≡ true) ⊎ ((left ≡ []) × (meta'.has_more ≡ meta.has_more)))
          × All (λ id. contains (ids_of s'.results) id ≡ true) taken)

  Grows-trans : (s t u : SearchState) → Grows s t → Grows t u → Grows s u
  Grows-trans s t u (f, e) (g, d) = (λ id h. g id (f id h), d ∙ e)

  pub take_hits-Taken :
      (id : Text) (hits : Hits) (s : SearchState) (meta : QueryMeta) (i : ℕ)
      → IsIndexed s
      → Taken hits s meta (take_hits costs id s meta i hits)
  unfolding take_hits
  take_hits-Taken id [] s meta i inv = (
    inv,
    (λ id h. h, refl),
    refl,
    refl,
    ([], [], refl, sym (append-nil meta.result_ids), inr (refl, refl), tt),
  )
  take_hits-Taken id ((doc, evidence) ∷ hits) s meta i inv =
      let m : Match = record { query_id = id; rank = i + 1; evidence = evidence } in
      let position = lookup doc.id s.positions in
      let s₁ = record_hit costs s position (result_of doc m) m in
      let meta₁ : QueryMeta = record meta { result_ids = meta.result_ids ++ doc.id ∷ [] } in
      let now = record_hit-Indexed s position (result_of doc m) m inv refl in
      elim (Bool-cases (ltb s.budget (cost_of costs position (result_of doc m) m + 1))) [
        | inl e ↦ rw e (
          record { distinct = inv.distinct; known = inv.known },
          (λ id h. h, refl),
          refl,
          refl,
          (
            [],
            hit_ids ((doc, evidence) ∷ hits),
            refl,
            sym (append-nil meta.result_ids),
            inl refl,
            tt,
          ),
        )
        | inr e ↦ rw e (
            on s₁ meta₁ (take_hits costs id s₁ meta₁ (suc i) hits) (now.1, now.2) refl refl refl
              (take_hits-Taken id hits s₁ meta₁ (suc i) now.0))
      ]
    where
      on :
          (s₁ : SearchState) (meta₁ : QueryMeta) (r : SearchState × QueryMeta)
          → Grows s s₁ × (contains (ids_of s₁.results) doc.id ≡ true)
          → meta₁.id ≡ meta.id
          → meta₁.error ≡ meta.error
          → meta₁ ≡ record meta { result_ids = meta.result_ids ++ doc.id ∷ [] }
          → Taken hits s₁ meta₁ r
          → Taken ((doc, evidence) ∷ hits) s meta r
      on s₁ meta₁ (s', meta') (grows, here) same_id same_error e
            (inv', grows', a, b, (taken, left, parts, ids, more, all)) =
          (
            inv',
            Grows-trans s s₁ s' grows grows',
            a ∙ same_id,
            b ∙ same_error,
            (
              doc.id ∷ taken,
              left,
              ap (λ xs. doc.id ∷ xs) parts,
              ids
                  ∙ ap (λ x. x.result_ids ++ taken) e
                  ∙ append_assoc meta.result_ids (doc.id ∷ []) taken,
              has_more more,
              (grows'.0 doc.id here, all),
            ),
          )
        where
          has_more :
              (meta'.has_more ≡ true) ⊎ ((left ≡ []) × (meta'.has_more ≡ meta₁.has_more))
              → (meta'.has_more ≡ true) ⊎ ((left ≡ []) × (meta'.has_more ≡ meta.has_more))
          has_more (inl h) = inl h
          has_more (inr (h, k)) = inr (h, k ∙ ap (λ x. x.has_more) e)
