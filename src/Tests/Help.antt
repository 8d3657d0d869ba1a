-- ===== src/Tests/Help.antt =====
-- The search of internal/help over a registry with two functions.
use bloblang_lsp.Common.{
  ℕ, Text, false, some, List, [], ◌∷◌, ◌≡◌, ◌⊎◌, ◌<◌, ◌+◌, refl, codes, ltb, ◌&&◌, Distinct, map,
  text_is_eq,
}
use bloblang_lsp.Common.Dict.{lookup, insert}
use bloblang_lsp.Common.Int.{pos}
use bloblang_lsp.Common.Sorting.{insert_sorted, sort}
use bloblang_lsp.Common.Strings.{join, trim_space, trim_suffix, has_suffix}
use bloblang_lsp.Common.Result.{Result, ok, err}
use bloblang_lsp.Benthos.Completion.{FunctionData}
use bloblang_lsp.Help.Distance.{cell, fill_row, fill_rows, edit_distance}
use bloblang_lsp.Help.Distance.Edits.{Edits, IsLeast}
use bloblang_lsp.Help.Distance.Words.{edit_distance-IsLeast}
use bloblang_lsp.Help.Excerpts.{
  Unicode, normalize_word, words, add_terms, token_map, terms_of, query_terms,
}
use bloblang_lsp.Help.Index.{
  Index, documentation, function_documentation, field, fields_of, add, add_all, number_entries,
  new_index,
}
use bloblang_lsp.Help.Ranking.{
  name_match, field_matches, weigh, match_fields, rank_entry, collect_hits, rank,
}
use bloblang_lsp.Help.Search.{
  Query, SearchRequest, SearchState, GetState, RequestError, Costs, valid_ids, search_limit,
  take_hits, search_query, search_queries, query_hits, empty_search, search, get, get_all,
}
use bloblang_lsp.Help.Search.Results.{ids_of}
use bloblang_lsp.Help.Search.Answers.{AllAnswers, search-IsAnswered}

-- A swap of neighbours is one edit, and a word that is too long is not compared.
swapped : edit_distance (codes "uppercaes") (codes "uppercase") 2 ≡ 1
unfolding edit_distance fill_rows fill_row cell
swapped = refl

too_long : edit_distance (codes "uppercase") (codes "up") 2 ≡ 3
unfolding edit_distance
too_long = refl

edit_distance-IsLeast_example :
    IsLeast (codes "caes") (codes "case") (edit_distance (codes "caes") (codes "case") 1)
    ⊎ ((edit_distance (codes "caes") (codes "case") 1 ≡ 1 + 1)
        × ((m : ℕ) → Edits (codes "caes") (codes "case") m → 1 < m))
edit_distance-IsLeast_example = edit_distance-IsLeast (codes "caes") (codes "case") 1

-- Words are of lower-case letters.
abbrev unicode : Unicode
unicode = record { to_lower = λ s. s; is_word = λ c. ltb 96 c && ltb c 123 }

abbrev function : Text → Text → FunctionData
function name description = record {
  name = name;
  status = codes "stable";
  category = [];
  description = description;
  params = record { definitions = []; variadic = false };
  examples = [];
  version = [];
}

abbrev idx : Index
idx =
    new_index unicode
      (function (codes "uuid") (codes "makes an id")
        ∷ function (codes "now") (codes "gives the times")
        ∷ [])
      []

abbrev costs : Costs
costs = record { match_cost = λ _. 10; result_cost = λ _. 100; document_cost = λ _. some 1000 }

abbrev query : Text → Text → Query
query id text = record { id = id; text = text }

abbrev request : SearchRequest
request = record {
  queries =
      query (codes "a") (codes "time")
      ∷ query (codes "b") (codes " ")
      ∷ query (codes "c") (codes "uudi")
      ∷ [];
  limit_per_query = pos 1;
  include_deprecated = false;
}

abbrev or_empty : Result RequestError SearchState → SearchState
or_empty (ok s) = s
or_empty (err _) = empty_search costs

abbrev found : SearchState
found = or_empty (search costs unicode idx request)

found-ok : search costs unicode idx request ≡ ok found
unfolding search valid_ids
found-ok = refl

-- The first query finds a word of a description, the third a name with two letters swapped.
answers :
    map {B = List Text} (λ m. m.result_ids) found.queries
    ≡ (codes "function:now" ∷ []) ∷ [] ∷ (codes "function:uuid" ∷ []) ∷ []
unfolding search valid_ids search_queries search_query take_hits rank collect_hits rank_entry
    name_match edit_distance fill_rows fill_row cell match_fields field_matches weigh query_terms
    terms_of words normalize_word sort insert_sorted new_index add_all add fields_of field token_map
    add_terms function_documentation documentation number_entries lookup insert trim_suffix
    trim_space join has_suffix
answers = refl

search-IsAnswered_example :
    Distinct (ids_of found.results)
    × ((limit : ℕ) × (search_limit (pos 1) ≡ ok limit)
        × AllAnswers costs limit found.results
            (query_hits costs unicode idx false)
            request.queries
            found.queries)
search-IsAnswered_example = search-IsAnswered costs unicode idx request found found-ok

abbrev given_ids : Result RequestError GetState → List (List Text)
given_ids (ok s) = map (λ m. m.result_ids) s.answered
given_ids (err _) = []

-- Of two identifiers one is known.
given :
    given_ids (
      get costs idx
        (record { ids = codes "function:now" ∷ codes "now" ∷ []; include_deprecated = false }))
    ≡ (codes "function:now" ∷ []) ∷ [] ∷ []
unfolding get valid_ids get_all lookup insert new_index add_all add fields_of field token_map
    add_terms words normalize_word function_documentation documentation number_entries sort
    insert_sorted trim_space join has_suffix trim_suffix
given = refl
