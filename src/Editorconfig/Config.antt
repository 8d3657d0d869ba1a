-- ===== src/Editorconfig/Config.antt =====
-- The configuration file of internal/editorconfig/config.go: the registered rules, the settings,
-- their validation and their lookup.
pub mod Valid
use bloblang_lsp.Common.{
  ℕ, Text, Bool, true, false, not, ◌&&◌, ◌||◌, Option, none, some, List, [], ◌∷◌, if◌then◌else◌,
  codes, text_eq, text_is_eq,
}
use bloblang_lsp.Common.Dict.{Dict, lookup}
use bloblang_lsp.Common.Int.{ℤ, pos, negsuc, below, above, is_zero}
use bloblang_lsp.Common.Result.{Result, ok, err, ◌>>=◌}
use bloblang_lsp.Common.Strings.{all_space}

-- `has_options` stands for options that are not nil; only the schema reads their values.
pub record Rule : Type 0 where
  pub id : Text
  pub default_severity : Text
  pub has_options : Bool
  pub safe_quick_fix : Bool

abbrev rule : Text → Text → Bool → Bool → Rule
rule id severity options fix = record {
  id = id;
  default_severity = severity;
  has_options = options;
  safe_quick_fix = fix;
}

abbrev pub rules : List Rule
rules =
    rule (codes "correctness/environment/require-fallback") (codes "warn") false false
    ∷ rule (codes "correctness/variables/no-unused-let") (codes "warn") false false
    ∷ rule (codes "style/assignments/prefer-grouped") (codes "warn") true false
    ∷ rule (codes "style/objects/prefer-with") (codes "hint") false false
    ∷ rule (codes "style/objects/prefer-without") (codes "warn") false false
    ∷ rule (codes "style/objects/combine-without") (codes "warn") false true
    ∷ rule (codes "style/arrays/prefer-any") (codes "hint") false false
    ∷ []

pub record RuleSetting : Type 0 where
  pub severity : Text
  pub min_assignments : ℤ

-- The groups of fields of the program's `Config` stand side by side; `schema` is not read.
pub record Config : Type 0 where
  pub print_width : ℤ
  pub preview_format : Text
  pub lint_enabled : Bool
  pub lint_rules : Dict Text RuleSetting
  pub exclude : List Text
  pub respect_gitignore : Bool

abbrev pub default_config : Config
default_config = record {
  print_width = pos 80;
  preview_format = codes "yaml";
  lint_enabled = true;
  lint_rules = [];
  exclude = [];
  respect_gitignore = true;
}

unfoldable pub valid_severity : Text → Bool
valid_severity s =
    text_eq s (codes "off")
    || text_eq s (codes "hint")
    || text_eq s (codes "info")
    || text_eq s (codes "warn")
    || text_eq s (codes "error")

pub data ConfigError : Type 0 where
  unreadable undecodable trailing_content bad_print_width bad_preview_format empty_pattern :
      ConfigError
  too_few_assignments : ConfigError
  bad_min_assignments unknown_rule bad_severity : Text → ConfigError

-- What encoding/json makes of the bytes of a setting: a string, an object decoded strictly onto the
-- setting with whether it has the field "minAssignments", or neither.
pub data SettingBytes : Type 0 where
  quoted : Option Text → SettingBytes
  fields : Option RuleSetting → Bool → SettingBytes

-- `UnmarshalJSON`
abbrev pub checked_setting : RuleSetting → Bool → Result ConfigError RuleSetting
checked_setting r given =
    if given && below r.min_assignments 3 then err too_few_assignments else ok r

unfoldable pub unmarshal_setting : RuleSetting → SettingBytes → Result ConfigError RuleSetting
unmarshal_setting r (quoted none) = err undecodable
unmarshal_setting r (quoted (some s)) = ok (record r { severity = s })
unmarshal_setting r (fields none given) = err undecodable
unmarshal_setting r (fields (some r') given) = checked_setting r' given

-- The search of the registry.
unfoldable pub find_rule : Text → List Rule → Option Rule
find_rule id [] = none
find_rule id (r ∷ rs) = let rest = find_rule id rs in if text_eq r.id id then some r else rest

abbrev pub blank_pattern : List Text → Bool
blank_pattern [] = false
blank_pattern (p ∷ ps) = all_space p || blank_pattern ps

-- The checks of one configured rule, by the registry's rule of that name.
abbrev pub check_setting : Text → RuleSetting → Option Rule → Option ConfigError
check_setting id r none = some (unknown_rule id)
check_setting id r (some rule) =
    if not (is_zero r.min_assignments) && (not rule.has_options || below r.min_assignments 3)
    then some (bad_min_assignments id)
    else if not (valid_severity r.severity)
    then some (bad_severity id)
    else none

abbrev pub or_later : Option ConfigError → Option ConfigError → Option ConfigError
or_later (some e) later = some e
or_later none later = later

unfoldable pub check_rules : Dict Text RuleSetting → Option ConfigError
unfolding find_rule
check_rules [] = none
check_rules ((id, r) ∷ m) = or_later (check_setting id r (find_rule id rules)) (check_rules m)

unfoldable pub check_config : Config → Option ConfigError
check_config c =
    if below c.print_width 20 || above c.print_width 1000
    then some bad_print_width
    else if not (text_eq c.preview_format (codes "yaml"))
        && not (text_eq c.preview_format (codes "json"))
    then some bad_preview_format
    else if blank_pattern c.exclude
    then some empty_pattern
    else check_rules c.lint_rules

-- A file that is missing, cannot be read, or has these bytes.
pub data FileRead : Type 0 where
  missing failed : FileRead
  bytes : Text → FileRead

-- `decode` is the strict decoding of some bytes onto a configuration, with whether content
-- follows. The result comes with the error, if there is one.
module _ (decode : Config → Text → Option (Config × Bool)) where
  abbrev pub accept : Config → Option ConfigError → Config × Option ConfigError
  accept c none = (c, none)
  accept c (some e) = (default_config, some e)

  abbrev pub accept_decoded : Option (Config × Bool) → Config × Option ConfigError
  accept_decoded none = (default_config, some undecodable)
  accept_decoded (some (c, true)) = (default_config, some trailing_content)
  accept_decoded (some (c, false)) = accept c (check_config c)

  unfoldable pub load : FileRead → Config × Option ConfigError
  unfolding check_config
  load missing = (default_config, none)
  load failed = (default_config, some unreadable)
  load (bytes b) = accept_decoded (decode default_config b)

-- `Setting`
abbrev pub default_setting : Option Rule → RuleSetting
default_setting none = record { severity = codes "off"; min_assignments = pos 0 }
default_setting (some rule) = record { severity = rule.default_severity; min_assignments = pos 3 }

abbrev pub setting_or : Option RuleSetting → RuleSetting → RuleSetting
setting_or (some r) d = r
setting_or none d = d

unfoldable pub setting : Config → Text → RuleSetting
unfolding find_rule lookup
setting c id = setting_or (lookup id c.lint_rules) (default_setting (find_rule id rules))
