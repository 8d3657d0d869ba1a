-- ===== src/Help/Search/Answers.antt =====
-- What a search of internal/help/index.go answers.
use bloblang_lsp.Common.{
  ℕ, zero, suc, Text, true, false, none, some, List, [], ◌∷◌, ◌++◌, ◌≡◌, ◌⊎◌, inl, inr, refl, sym,
  ap, ◌∙◌, subst, arith, ltb, Bool-cases, length, map, take, contains, Distinct, All, All-mono,
  append_assoc, append-nil, text_is_eq,
}
use bloblang_lsp.Common.Dict.{lookup}
use bloblang_lsp.Common.Result.{Result, ok, ◌>>=◌, >>=-eq-ok}
use bloblang_lsp.Help.Excerpts.{Unicode}
use bloblang_lsp.Help.Index.{Index}
use bloblang_lsp.Help.Search.{
  Query, SearchRequest, QueryMeta, invalid_query, SearchResult, SearchState, RequestError, Costs,
  valid_ids, search_limit, take_hits, add_meta, is_bad_query, search_query, search_queries,
  empty_search, query_hits, search, max_queries,
}
use bloblang_lsp.Help.Search.Results.{Hits, ids_of, hit_ids, IsIndexed, Taken, take_hits-Taken}

module _ (costs : Costs) where
  -- A query's answer: an error for a bad text, and else the first hits in their order, each of which
  -- is among the results; they are all the hits unless it says that there are more.
  abbrev pub IsAnswer : ℕ → List SearchResult → Query → Hits → QueryMeta → Type 0
  IsAnswer limit results q hits meta =
      (meta.id ≡ q.id)
      × (((is_bad_query costs q ≡ true)
            × (meta.error ≡ some invalid_query)
            × (meta.result_ids ≡ []))
          ⊎ ((is_bad_query costs q ≡ false)
              × (meta.error ≡ none)
              × ((left : List Text) × (hit_ids (take limit hits) ≡ meta.result_ids ++ left))
              × ((meta.has_more ≡ true) ⊎ (meta.result_ids ≡ hit_ids hits))))
      × All (λ id. contains (ids_of results) id ≡ true) meta.result_ids

  take-all : {A : Type 0} (n : ℕ) (xs : List A) → ltb n (length xs) ≡ false → take n xs ≡ xs
  take-all zero [] h = refl
  take-all zero (x ∷ xs) h = absurd (ground (arith, h))
  take-all (suc n) [] h = refl
  take-all (suc n) (x ∷ xs) h = ap (λ ys. x ∷ ys) (take-all n xs (ground (arith, h)))

  -- A state that answers one query more.
  abbrev Answers : ℕ → SearchState → Query → Hits → SearchState → Type 0
  Answers limit s q hits s' =
      IsIndexed s'
      × ((id : Text)
          → contains (ids_of s.results) id ≡ true
          → contains (ids_of s'.results) id ≡ true)
      × ((meta : QueryMeta) × (s'.queries ≡ s.queries ++ meta ∷ [])
          × IsAnswer limit s'.results q hits meta)

  search_query-Answers :
      (limit : ℕ) (s : SearchState) (q : Query) (hits : Hits)
      → IsIndexed s
      → Answers limit s q hits (search_query costs limit s q hits)
  unfolding search_query
  search_query-Answers limit s q hits inv = elim (Bool-cases (is_bad_query costs q)) [
    | inl e ↦
        let same : search_query costs limit s q hits ≡ add_meta costs (s, refused) = rw e refl in
        subst (Answers limit s q hits) (sym same) (
          record { distinct = inv.distinct; known = inv.known },
          λ id h. h,
          (refused, refl, (refl, inl (e, refl, refl), tt)),
        )
    | inr e ↦
        let same : search_query costs limit s q hits
            ≡ add_meta costs (take_hits costs q.id s start 0 (take limit hits)) =
          rw e refl in
        subst (Answers limit s q hits) (sym same) (
          answered (take_hits costs q.id s start 0 (take limit hits)) e
            (take_hits-Taken costs q.id (take limit hits) s start 0 inv))
  ]
    where
      refused : QueryMeta
      refused = record { id = q.id; result_ids = []; has_more = false; error = some invalid_query }

      start : QueryMeta
      start = record {
        id = q.id;
        result_ids = [];
        has_more = ltb limit (length hits);
        error = none;
      }

      answered :
          (r : SearchState × QueryMeta)
          → is_bad_query costs q ≡ false
          → Taken costs (take limit hits) s start r
          → Answers limit s q hits (add_meta costs r)
      answered (s', meta) e (inv', (grows, same), a, b, (taken, left, parts, ids, more, all)) = (
        record { distinct = inv'.distinct; known = inv'.known },
        grows,
        (
          meta,
          ap (λ xs. xs ++ meta ∷ []) same,
          (
            a,
            inr (
              e,
              b,
              (left, parts ∙ ap (λ xs. xs ++ left) (sym ids)),
              complete more (Bool-cases (ltb limit (length hits))),
            ),
            rw ids all,
          ),
        ),
      )
        where
          complete :
              (meta.has_more ≡ true) ⊎ ((left ≡ []) × (meta.has_more ≡ ltb limit (length hits)))
              → (ltb limit (length hits) ≡ true) ⊎ (ltb limit (length hits) ≡ false)
              → (meta.has_more ≡ true) ⊎ (meta.result_ids ≡ hit_ids hits)
          complete (inl h) c = inl h
          complete (inr (h, k)) (inl c) = inl (k ∙ c)
          complete (inr (h, k)) (inr c) = inr (
              ids
              ∙ sym (append-nil taken)
              ∙ ap (λ xs. taken ++ xs) (sym h)
              ∙ sym parts
              ∙ ap hit_ids (take-all limit hits c))

  -- The answers to the queries, one for each and in their order.
  abbrev pub AllAnswers :
      ℕ → List SearchResult → (Query → Hits) → List Query → List QueryMeta → Type 0
  AllAnswers limit results hits [] [] = Unit
  AllAnswers limit results hits [] (_ ∷ _) = ⊥
  AllAnswers limit results hits (_ ∷ _) [] = ⊥
  AllAnswers limit results hits (q ∷ qs) (meta ∷ metas) =
      IsAnswer limit results q (hits q) meta × AllAnswers limit results hits qs metas

  abbrev IsAnswered : (Query → Hits) → ℕ → List Query → SearchState → SearchState → Type 0
  IsAnswered hits limit qs s s' =
      IsIndexed s'
      × ((id : Text)
          → contains (ids_of s.results) id ≡ true
          → contains (ids_of s'.results) id ≡ true)
      × ((metas : List QueryMeta) × (s'.queries ≡ s.queries ++ metas)
          × AllAnswers limit s'.results hits qs metas)

  search_queries-IsAnswered :
      (hits : Query → Hits) (limit : ℕ) (qs : List Query) (s : SearchState)
      → IsIndexed s
      → IsAnswered hits limit qs s (search_queries costs hits limit s qs)
  unfolding search_queries
  search_queries-IsAnswered hits limit [] s inv =
      (inv, λ id h. h, ([], sym (append-nil s.queries), tt))
  search_queries-IsAnswered hits limit (q ∷ qs) s inv =
      let (inv₁, grows₁, (meta, made, answer)) = search_query-Answers limit s q (hits q) inv in
      let (inv', grows', (metas, more, rest)) =
        search_queries-IsAnswered hits limit qs (search_query costs limit s q (hits q)) inv₁ in
      (
        inv',
        λ id h. grows' id (grows₁ id h),
        (
          meta ∷ metas,
          more ∙ ap (λ xs. xs ++ metas) made ∙ append_assoc s.queries (meta ∷ []) metas,
          ((answer.0, answer.1, All-mono _ _ meta.result_ids grows' answer.2), rest),
        ),
      )

-- A search that is accepted answers every query once, in the order of the request: with an error for
-- a text that is not allowed, and else with the first of its hits in their order, all of them unless
-- it says that there are more. Every answer is among the results, which have different identifiers.
pub search-IsAnswered :
    (costs : Costs) (unicode : Unicode) (idx : Index) (req : SearchRequest) (s : SearchState)
    → search costs unicode idx req ≡ ok s
    → Distinct (ids_of s.results)
      × ((limit : ℕ) × (search_limit req.limit_per_query ≡ ok limit)
          × AllAnswers costs limit s.results
              (query_hits costs unicode idx req.include_deprecated)
              req.queries
              s.queries)
unfolding search
search-IsAnswered costs unicode idx req s h =
    let hits : Query → Hits = query_hits costs unicode idx req.include_deprecated in
    let answer : ℕ → Result RequestError SearchState =
      λ limit. ok (search_queries costs hits limit (empty_search costs) req.queries) in
    let (_, _, h₁) =
      >>=-eq-ok (valid_ids (map (λ q. q.id) req.queries) max_queries)
        (λ _. search_limit req.limit_per_query >>= answer) h in
    let (limit, e, h₂) = >>=-eq-ok (search_limit req.limit_per_query) answer h₁ in
    let made : search_queries costs hits limit (empty_search costs) req.queries ≡ s = cc h₂ in
    let (inv, _, (metas, all, answers)) =
      subst (IsAnswered costs hits limit req.queries (empty_search costs)) made (
        search_queries-IsAnswered costs hits limit req.queries (empty_search costs)
          (record { distinct = tt; known = λ id. unfold lookup in refl })) in
    (inv.distinct, (limit, e, rw all answers))
