-- ===== src/Help/Search.antt =====
-- The requests of internal/help/index.go: Search and Get. Texts are valid UTF-8.
pub mod Results
pub mod Answers
use bloblang_lsp.Common.{
  ℕ, zero, suc, ◌+◌, ◌-◌, ◌*◌, Text, Bool, true, false, not, ◌&&◌, ◌||◌, Option, none, some, List,
  [], ◌∷◌, ◌++◌, ◌==◌, ltb, leb, if◌then◌else◌, codes, length, map, take, get_elem?, contains,
  text_eq, text_is_eq,
}
use bloblang_lsp.Common.Dict.{Dict, lookup, insert}
use bloblang_lsp.Common.Int.{ℤ, pos, negsuc}
use bloblang_lsp.Common.Strings.{is_nil, trim_space, before}
use bloblang_lsp.Common.Result.{Result, ok, err, ◌>>=◌}
use bloblang_lsp.Lsp.Positions.{byte_length}
use bloblang_lsp.Help.Excerpts.{Unicode, clip}
use bloblang_lsp.Help.Index.{Documentation, Entry, Index}
use bloblang_lsp.Help.Ranking.{Evidence, Ranked, rank}

abbrev pub max_queries : ℕ
max_queries = 8

abbrev max_limit_per_query : ℕ
max_limit_per_query = 10

abbrev max_query_bytes : ℕ
max_query_bytes = 256

abbrev max_id_bytes : ℕ
max_id_bytes = 64

abbrev max_document_ids : ℕ
max_document_ids = 16

abbrev response_budget : ℕ
response_budget = 512 * 1024 - 16 * 1024

abbrev default_limit : ℕ
default_limit = 5

pub record Query : Type 0 where
  pub id : Text
  pub text : Text

pub record SearchRequest : Type 0 where
  pub queries : List Query
  pub limit_per_query : ℤ
  pub include_deprecated : Bool

pub record GetRequest : Type 0 where
  pub ids : List Text
  pub include_deprecated : Bool

pub data QueryError : Type 0 where
  invalid_query not_found response_limit : QueryError

pub record QueryMeta : Type 0 where
  pub id : Text
  pub result_ids : List Text
  pub has_more : Bool
  pub error : Option QueryError

pub record Match : Type 0 where
  pub query_id : Text
  pub rank : ℕ
  pub evidence : List Evidence

pub record SearchResult : Type 0 where
  pub id : Text
  pub kind : Text
  pub name : Text
  pub signature : Text
  pub summary : Text
  pub status : Text
  pub matches : List Match

-- The response under construction, with the rest of the budget and, in a search, the positions of
-- the results.
pub record SearchState : Type 0 where
  pub results : List SearchResult
  pub positions : Dict Text ℕ
  pub budget : ℕ
  pub queries : List QueryMeta
  pub truncated : Bool

pub record GetState : Type 0 where
  pub documents : List Documentation
  pub remaining : ℕ
  pub answered : List QueryMeta
  pub cut : Bool

pub data RequestError : Type 0 where
  bad_count bad_limit unencodable : RequestError
  bad_id duplicate_id : Text → RequestError

-- The lengths that json.Marshal gives, with none for its error.
pub record Costs : Type 0 where
  pub match_cost : Match → ℕ
  pub result_cost : SearchResult → ℕ
  pub document_cost : Documentation → Option ℕ

-- The loop of `validIDs` over what is left.
abbrev check_ids : List Text → List Text → Result RequestError (Unit {0})
check_ids seen [] = ok tt
check_ids seen (id ∷ ids) =
    let rest = check_ids (id ∷ seen) ids in
    if is_nil (trim_space id) || ltb max_id_bytes (byte_length id)
    then err (bad_id id)
    else if contains seen id
    then err (duplicate_id id)
    else rest

unfoldable pub valid_ids : List Text → ℕ → Result RequestError (Unit {0})
unfolding trim_space
valid_ids ids maximum =
    if is_nil ids || ltb maximum (length ids) then err bad_count else check_ids [] ids

abbrev pub search_limit : ℤ → Result RequestError ℕ
search_limit (negsuc _) = err bad_limit
search_limit (pos n) =
    if n == 0 then ok default_limit else if ltb max_limit_per_query n then err bad_limit else ok n

-- `results[position].matches` with one more.
abbrev pub add_match : Match → ℕ → List SearchResult → List SearchResult
add_match m position [] = []
add_match m zero (r ∷ rs) = record r { matches = r.matches ++ m ∷ [] } ∷ rs
add_match m (suc position) (r ∷ rs) = r ∷ add_match m position rs

abbrev pub result_of : Documentation → Match → SearchResult
result_of doc m = record {
  id = doc.id;
  kind = doc.kind;
  name = doc.name;
  signature = clip doc.signature 512;
  summary = clip (before (codes "\n") doc.description) 320;
  status = doc.status;
  matches = m ∷ [];
}

module _ (costs : Costs) where
  abbrev pub cost_of : Option ℕ → SearchResult → Match → ℕ
  cost_of none r m = costs.result_cost r
  cost_of (some _) r m = costs.match_cost m

  abbrev pub record_hit : SearchState → Option ℕ → SearchResult → Match → SearchState
  record_hit s none r m = record s {
    results = s.results ++ r ∷ [];
    positions = insert r.id (length s.results) s.positions;
    budget = s.budget - (cost_of none r m + 1);
  }
  record_hit s (some position) r m = record s {
    results = add_match m position s.results;
    budget = s.budget - (cost_of (some position) r m + 1);
  }

  -- The hits of a query, from a rank on; a hit that does not fit ends the query.
  unfoldable pub take_hits :
      Text
      → SearchState
      → QueryMeta
      → ℕ
      → List (Documentation × List Evidence)
      → SearchState × QueryMeta
  unfolding lookup insert clip before
  take_hits id s meta i [] = (s, meta)
  take_hits id s meta i ((doc, evidence) ∷ hits) =
      let m : Match = record { query_id = id; rank = i + 1; evidence = evidence } in
      let position = lookup doc.id s.positions in
      let rest =
        take_hits id (record_hit s position (result_of doc m) m)
          (record meta { result_ids = meta.result_ids ++ doc.id ∷ [] }) (suc i) hits in
      if ltb s.budget (cost_of position (result_of doc m) m + 1)
      then (record s { truncated = true }, record meta { has_more = true })
      else rest

  abbrev pub add_meta : SearchState × QueryMeta → SearchState
  add_meta (s, meta) = record s { queries = s.queries ++ meta ∷ [] }

  abbrev pub is_bad_query : Query → Bool
  is_bad_query q = is_nil (trim_space q.text) || ltb max_query_bytes (byte_length q.text)

  -- One query, with its hits in their order.
  unfoldable pub search_query :
      ℕ → SearchState → Query → List (Documentation × List Evidence) → SearchState
  unfolding take_hits trim_space
  search_query limit s q hits =
      if is_bad_query q
      then add_meta
          (s, record { id = q.id; result_ids = []; has_more = false; error = some invalid_query })
      else add_meta (
          take_hits q.id s
            (record {
              id = q.id;
              result_ids = [];
              has_more = ltb limit (length hits);
              error = none;
            })
            0 (take limit hits))

  unfoldable pub search_queries :
      (Query → List (Documentation × List Evidence)) → ℕ → SearchState → List Query → SearchState
  unfolding search_query
  search_queries hits limit s [] = s
  search_queries hits limit s (q ∷ qs) =
      search_queries hits limit (search_query limit s q (hits q)) qs

  abbrev pub empty_search : SearchState
  empty_search = record {
    results = [];
    positions = [];
    budget = response_budget;
    queries = [];
    truncated = false;
  }

  -- The documents of the hits.
  abbrev entry_doc : Option Entry → List Evidence → List (Documentation × List Evidence)
  entry_doc none evidence = []
  entry_doc (some e) evidence = (e.doc, evidence) ∷ []

  abbrev hit_docs : List Entry → List Ranked → List (Documentation × List Evidence)
  hit_docs entries [] = []
  hit_docs entries (h ∷ hs) =
      entry_doc (get_elem? entries h.index) h.evidence ++ hit_docs entries hs

  abbrev pub query_hits : Unicode → Index → Bool → Query → List (Documentation × List Evidence)
  query_hits unicode idx deprecated q = hit_docs idx.entries (rank unicode idx q.text deprecated)

  unfoldable pub search : Unicode → Index → SearchRequest → Result RequestError SearchState
  unfolding valid_ids search_queries rank
  search unicode idx req = do
    _ ← valid_ids (map (λ q. q.id) req.queries) max_queries
    limit ← search_limit req.limit_per_query
    ok (
        search_queries (query_hits unicode idx req.include_deprecated) limit empty_search
          req.queries)

  -- One identifier of `Get`.
  abbrev find_doc : Bool → Option Entry → Option Documentation
  find_doc deprecated none = none
  find_doc deprecated (some e) =
      if not deprecated && text_eq e.doc.status (codes "deprecated") then none else some e.doc

  abbrev entry_at : Index → Option ℕ → Option Entry
  entry_at idx none = none
  entry_at idx (some position) = get_elem? idx.entries position

  abbrev refuse : GetState → Text → QueryError → Bool → GetState
  refuse s id e truncated = record s {
    answered =
        s.answered ++ record { id = id; result_ids = []; has_more = false; error = some e } ∷ [];
    cut = s.cut || truncated;
  }

  abbrev pub give : GetState → Text → Documentation → ℕ → GetState
  give s id doc size =
      if ltb s.remaining (size + 1) then refuse s id response_limit true else record s {
        documents = s.documents ++ doc ∷ [];
        remaining = s.remaining - (size + 1);
        answered =
            s.answered
            ++ record { id = id; result_ids = id ∷ []; has_more = false; error = none } ∷ [];
      }

  abbrev give_encoded : GetState → Text → Documentation → Option ℕ → Result RequestError GetState
  give_encoded s id doc none = err unencodable
  give_encoded s id doc (some size) = ok (give s id doc size)

  abbrev get_one : GetState → Text → Option Documentation → Result RequestError GetState
  get_one s id none = ok (refuse s id not_found false)
  get_one s id (some doc) = give_encoded s id doc (costs.document_cost doc)

  unfoldable pub get_all : Index → Bool → GetState → List Text → Result RequestError GetState
  unfolding lookup
  get_all idx deprecated s [] = ok s
  get_all idx deprecated s (id ∷ ids) =
      get_one s id (find_doc deprecated (entry_at idx (lookup id idx.by_id))) >>= λ s'.
      get_all idx deprecated s' ids

  unfoldable pub get : Index → GetRequest → Result RequestError GetState
  unfolding get_all valid_ids
  get idx req = do
    _ ← valid_ids req.ids max_document_ids
    get_all idx req.include_deprecated
        (record { documents = []; remaining = response_budget; answered = []; cut = false }) req.ids
