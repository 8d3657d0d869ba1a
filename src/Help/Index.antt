-- ===== src/Help/Index.antt =====
-- The index of internal/help/index.go over the documentation of the runtime; the types are those of
-- internal/help/types.go.
use bloblang_lsp.Common.{
  ℕ, suc, Text, Bool, not, List, [], ◌∷◌, ◌++◌, if◌then◌else◌, codes, map, text_eq, text_is_eq,
}
use bloblang_lsp.Common.Dict.{Dict, insert}
use bloblang_lsp.Common.Sorting.{text_ltb, sort}
use bloblang_lsp.Common.Strings.{is_nil, join}
use bloblang_lsp.Benthos.Completion as Completion
use bloblang_lsp.Benthos.Completion.{Param, Params, FunctionData, MethodData, is_optional_param}
use bloblang_lsp.Help.Excerpts.{Unicode, token_map}

pub record Parameter : Type 0 where
  pub name : Text
  pub value_type : Text
  pub description : Text
  pub optional : Bool
  pub default : Text

pub record Example : Type 0 where
  pub summary : Text
  pub mapping : Text
  pub results : List (Text × Text)
  pub skip_testing : Bool

pub record Category : Type 0 where
  pub name : Text
  pub description : Text
  pub examples : List Example

pub record Documentation : Type 0 where
  pub id : Text
  pub kind : Text
  pub name : Text
  pub signature : Text
  pub description : Text
  pub status : Text
  pub since : Text
  pub variadic : Bool
  pub parameters : List Parameter
  pub examples : List Example
  pub categories : List Category

pub record SearchField : Type 0 where
  pub name : Text
  pub text : Text
  pub weight : ℕ
  pub terms : Dict Text Text

pub record Entry : Type 0 where
  pub doc : Documentation
  pub fields : List SearchField

pub record Index : Type 0 where
  pub entries : List Entry
  pub by_id : Dict Text ℕ

abbrev example_of : Completion.Example → Example
example_of e = record {
  summary = e.summary;
  mapping = e.mapping;
  results = e.results;
  skip_testing = e.skip_testing;
}

abbrev examples_of : List Completion.Example → List Example
examples_of source = map example_of source

abbrev parameter_of : Param → Parameter
parameter_of p = record {
  name = p.name;
  value_type = p.value_type;
  description = p.description;
  optional = is_optional_param p;
  default = p.default_marshalled;
}

abbrev parameter_label : Param → Text
parameter_label p =
    p.name
    ++ ((if is_optional_param p then codes "?" else [])
        ++ (codes ": "
            ++ (p.value_type
                ++ (if not (is_nil p.default_marshalled)
                    then codes " = " ++ p.default_marshalled
                    else []))))

abbrev signature_of : Text → Params → Text
signature_of name params =
    name
    ++ (codes "("
        ++ (join (codes ", ") (
              map parameter_label params.definitions
              ++ (if params.variadic then codes "..." ∷ [] else []))
            ++ codes ")"))

unfoldable pub documentation :
    (kind name description status since : Text) → Params → List Completion.Example → Documentation
unfolding join
documentation kind name description status since params examples = record {
  id = kind ++ (codes ":" ++ name);
  kind = kind;
  name = name;
  signature = signature_of name params;
  description = description;
  status = status;
  since = since;
  variadic = params.variadic;
  parameters = map parameter_of params.definitions;
  examples = examples_of examples;
  categories = [];
}

unfoldable pub function_documentation : FunctionData → Documentation
unfolding documentation
function_documentation d =
    let doc =
      documentation (codes "function") d.name d.description d.status d.version d.params
        d.examples in
    if not (is_nil d.category)
    then record doc {
      categories = record { name = d.category; description = []; examples = [] } ∷ [];
    }
    else doc

abbrev category_of : Completion.Category → Category
category_of c = record {
  name = c.category;
  description = c.description;
  examples = examples_of c.examples;
}

unfoldable method_documentation : MethodData → Documentation
unfolding documentation
method_documentation d =
    let doc =
      documentation (codes "method") d.name d.description d.status d.version d.params d.examples in
    record doc { categories = map category_of d.categories }

module _ (unicode : Unicode) where
  -- A field, unless its text is empty.
  unfoldable pub field : Text → Text → ℕ → List SearchField
  unfolding token_map
  field name text weight =
      if not (is_nil text)
      then record { name = name; text = text; weight = weight; terms = token_map unicode text } ∷ []
      else []

  abbrev parameter_fields : List Parameter → List SearchField
  parameter_fields [] = []
  parameter_fields (p ∷ ps) =
      field (codes "parameters") (p.name ++ (codes ": " ++ p.description)) 15 ++ parameter_fields ps

  abbrev example_fields : List Example → List SearchField
  example_fields [] = []
  example_fields (x ∷ xs) =
      field (codes "examples") (x.summary ++ (codes "\n" ++ x.mapping)) 5 ++ example_fields xs

  abbrev category_fields : List Category → List SearchField
  category_fields [] = []
  category_fields (c ∷ cs) =
      field (codes "categories") (c.name ++ (codes "\n" ++ c.description)) 10
      ++ (example_fields c.examples ++ category_fields cs)

  unfoldable pub fields_of : Documentation → List SearchField
  unfolding field
  fields_of doc =
      field (codes "name") doc.name 80
      ++ (field (codes "signature") doc.signature 40
          ++ (field (codes "description") doc.description 25
              ++ (parameter_fields doc.parameters
                  ++ (example_fields doc.examples ++ category_fields doc.categories))))

  -- `add`
  unfoldable pub add : List Entry → Documentation → List Entry
  unfolding fields_of
  add entries doc =
      if text_eq doc.status (codes "hidden")
      then entries
      else entries ++ record { doc = doc; fields = fields_of doc } ∷ []

  unfoldable pub add_all : List Entry → List Documentation → List Entry
  unfolding add
  add_all entries [] = entries
  add_all entries (d ∷ ds) = add_all (add entries d) ds

abbrev by_identifier : Entry → Entry → Bool
by_identifier a b = text_ltb a.doc.id b.doc.id

unfoldable pub number_entries : ℕ → Dict Text ℕ → List Entry → Dict Text ℕ
unfolding insert
number_entries i m [] = m
number_entries i m (e ∷ es) = number_entries (suc i) (insert e.doc.id i m) es

unfoldable pub new_index : Unicode → List FunctionData → List MethodData → Index
unfolding add_all sort number_entries function_documentation method_documentation
new_index unicode functions methods =
    let entries = sort by_identifier (
      add_all unicode (add_all unicode [] (map function_documentation functions))
        (map method_documentation methods)) in
    record { entries = entries; by_id = number_entries 0 [] entries }
