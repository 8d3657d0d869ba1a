-- ===== src/Help/Ranking.antt =====
-- The ranking of internal/help/rank.go.
use bloblang_lsp.Common.{
  ℕ, suc, ◌+◌, ◌-◌, ◌*◌, max, Text, Bool, not, ◌&&◌, ◌||◌, Option, none, some, List, [], ◌∷◌, ◌++◌,
  ◌==◌, ltb, leb, if◌then◌else◌, codes, length, map, text_eq, text_is_eq,
}
use bloblang_lsp.Common.Dict.{Dict, lookup, insert}
use bloblang_lsp.Common.Strings.{is_nil, has_prefix, trim_prefix, trim_suffix, trim_space}
use bloblang_lsp.Lsp.Positions.{byte_length}
use bloblang_lsp.Help.Distance.{edit_distance}
use bloblang_lsp.Help.Excerpts.{Unicode, normalize_word, query_terms, is_identifier, excerpt}
use bloblang_lsp.Help.Index.{Documentation, SearchField, Entry, Index}
use bloblang_lsp.Common.Sorting.{text_ltb, sort}

pub record Evidence : Type 0 where
  pub field : Text
  pub match_type : Text
  pub query_terms : List Text
  pub matched_terms : List Text
  pub excerpt : Text
  pub edit_distance : Option ℕ

-- `index` is the place of the entry, which stands beside it.
pub record Ranked : Type 0 where
  pub index : ℕ
  pub score : ℕ
  pub evidence : List Evidence

-- What the name gives: a score and the evidence.
abbrev name_evidence : Text → Documentation → Text → Option ℕ → Evidence
name_evidence text doc match_type distance = record {
  field = codes "name";
  match_type = match_type;
  query_terms = trim_space text ∷ [];
  matched_terms = doc.name ∷ [];
  excerpt = doc.name;
  edit_distance = distance;
}

-- A term that a field has, and the words of the query and of the field.
pub record TermMatch : Type 0 where
  pub key : Text
  pub term : Text
  pub actual : Text

pub record FieldMatch : Type 0 where
  pub evidence : Evidence
  pub weight : ℕ

module _ (unicode : Unicode) where
  abbrev fuzzy_limit : Text → ℕ
  fuzzy_limit name = if leb 7 (byte_length name) then 2 else 1

  abbrev fuzzy_match : Text → Documentation → ℕ → ℕ → Option (ℕ × Evidence)
  fuzzy_match text doc limit distance =
      if leb distance limit
      then some (800000 - 1000 * distance, name_evidence text doc (codes "fuzzy") (some distance))
      else none

  unfoldable pub name_match : Text → Text → Documentation → Option (ℕ × Evidence)
  unfolding edit_distance trim_space
  name_match text name doc =
      if text_eq name doc.name || text_eq name doc.id
      then some (1000000, name_evidence text doc (codes "exact") none)
      else if leb 2 (byte_length name) && has_prefix name doc.name
      then some (900000, name_evidence text doc (codes "prefix") none)
      else if leb 4 (byte_length name) && is_identifier unicode name
      then fuzzy_match text doc (fuzzy_limit name) (edit_distance name doc.name (fuzzy_limit name))
      else none

  abbrev prepend_match : Text → Text → Option Text → List TermMatch → List TermMatch
  prepend_match key term none rest = rest
  prepend_match key term (some actual) rest =
      record { key = key; term = term; actual = actual } ∷ rest

  unfoldable pub field_matches : SearchField → List Text → List TermMatch
  unfolding normalize_word lookup
  field_matches f [] = []
  field_matches f (t ∷ ts) =
      let key = normalize_word unicode t in
      prepend_match key t (lookup key f.terms) (field_matches f ts)

  abbrev value_or_zero : Option ℕ → ℕ
  value_or_zero none = 0
  value_or_zero (some n) = n

  -- The best weight for each key; its keys are those of `coverage`.
  unfoldable pub weigh : ℕ → Dict Text ℕ → List TermMatch → Dict Text ℕ
  unfolding lookup insert
  weigh weight best [] = best
  weigh weight best (m ∷ ms) =
      weigh weight (insert m.key (max (value_or_zero (lookup m.key best)) weight) best) ms

  abbrev field_match : SearchField → List TermMatch → List FieldMatch
  field_match f [] = []
  field_match f (m ∷ ms) =
      record {
        evidence = record {
          field = f.name;
          match_type = codes "token";
          query_terms = map (λ x. x.term) (m ∷ ms);
          matched_terms = map (λ x. x.actual) (m ∷ ms);
          excerpt = excerpt f.text (map (λ x. x.actual) (m ∷ ms)) 240;
          edit_distance = none;
        };
        weight = f.weight * length (m ∷ ms);
      }
      ∷ []

  -- The loop over the fields: the matches of each, and the best weights.
  unfoldable pub match_fields :
      List Text → Dict Text ℕ → List SearchField → List FieldMatch × Dict Text ℕ
  unfolding field_matches weigh
  match_fields terms best [] = ([], best)
  match_fields terms best (f ∷ fs) =
      let matches = field_matches f terms in
      let (rest, all) = match_fields terms (weigh f.weight best matches) fs in
      (field_match f matches ++ rest, all)

  abbrev pub total : Dict Text ℕ → ℕ
  total [] = 0
  total ((_, n) ∷ m) = n + total m

  -- The loop that adds evidence up to three.
  abbrev add_evidence : Bool → List Evidence → List FieldMatch → List Evidence
  add_evidence named evidence [] = evidence
  add_evidence named evidence (f ∷ fs) =
      add_evidence named
        (if leb 3 (length evidence) || (text_eq f.evidence.field (codes "name") && named)
          then evidence
          else evidence ++ f.evidence ∷ [])
        fs

  abbrev name_score : Option (ℕ × Evidence) → ℕ
  name_score none = 0
  name_score (some (score, _)) = score

  abbrev name_evidences : Option (ℕ × Evidence) → List Evidence
  name_evidences none = []
  name_evidences (some (_, e)) = e ∷ []

  abbrev hit_of : ℕ → Option (ℕ × Evidence) → List FieldMatch × Dict Text ℕ → Ranked
  hit_of i name (fields, best) = record {
    index = i;
    score = name_score name + (length best * 100 + total best);
    evidence =
        add_evidence (not (is_nil (name_evidences name))) (name_evidences name)
          (sort (λ (a : FieldMatch) (b : FieldMatch). ltb b.weight a.weight) fields);
  }

  abbrev query_name : Text → Text
  query_name text =
      trim_prefix (codes ".") (trim_suffix (codes "()") (unicode.to_lower (trim_space text)))

  -- What one entry gives: a hit with a score, or nothing.
  unfoldable pub rank_entry : Text → Bool → ℕ → Entry → Option Ranked
  unfolding name_match match_fields query_terms trim_suffix trim_space sort
  rank_entry text deprecated i e =
      let hit =
        hit_of i (name_match text (query_name text) e.doc)
          (match_fields (query_terms unicode text) [] e.fields) in
      if text_eq e.doc.status (codes "deprecated") && not deprecated
      then none
      else if ltb 0 hit.score
      then some hit
      else none

  abbrev prepend_hit : Option Ranked → Text → List (Ranked × Text) → List (Ranked × Text)
  prepend_hit none id hits = hits
  prepend_hit (some h) id hits = (h, id) ∷ hits

  -- The hits, each with its entry's identifier.
  unfoldable pub collect_hits : Text → Bool → ℕ → List Entry → List (Ranked × Text)
  unfolding rank_entry
  collect_hits text deprecated i [] = []
  collect_hits text deprecated i (e ∷ es) =
      prepend_hit (rank_entry text deprecated i e) e.doc.id
        (collect_hits text deprecated (suc i) es)

abbrev ranks_before : Ranked × Text → Ranked × Text → Bool
ranks_before (a, x) (b, y) = if a.score == b.score then text_ltb x y else ltb b.score a.score

unfoldable pub rank : Unicode → Index → Text → Bool → List Ranked
unfolding collect_hits sort
rank unicode idx text deprecated =
    map (λ h. h.0) (sort ranks_before (collect_hits unicode text deprecated 0 idx.entries))
