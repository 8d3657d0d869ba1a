-- ===== src/Editorconfig/Config/Valid.antt =====
-- What the loaded configuration of internal/editorconfig/config.go guarantees its readers.
use mathlib.Core.Option.{some-injective}
use bloblang_lsp.Common.{
  ◌≤◌, Text, Bool, true, false, not, ◌&&◌, ◌||◌, Option, none, some, List, [], ◌∷◌, ◌≡◌, ◌≢◌, ◌⊎◌,
  inl, inr, refl, arith, subst, if◌then◌else◌, Bool-cases, codes, text_eq, text_eq_iff, text_is_eq,
  All,
}
use bloblang_lsp.Common.Dict.{Dict, lookup, lookup-All}
use bloblang_lsp.Common.Int.{ℤ, pos, negsuc, below, above, is_zero}
use bloblang_lsp.Common.Strings.{all_space}
use bloblang_lsp.Editorconfig.Config.{
  Rule, rules, RuleSetting, Config, default_config, valid_severity, ConfigError, find_rule,
  blank_pattern, check_setting, or_later, check_rules, check_config, FileRead, missing, failed,
  bytes, accept, accept_decoded, load, default_setting, setting_or, setting,
}

abbrev Within : ℤ → Type 0
Within (pos n) = (20 ≤ n) × (n ≤ 1000)
Within (negsuc n) = ⊥

-- At least three assignments, where the number is given, and only for a rule with options.
abbrev Assignments : Rule → ℤ → Type 0
Assignments rule (pos n) = n ≢ 0 → (rule.has_options ≡ true) × (3 ≤ n)
Assignments rule (negsuc n) = ⊥

abbrev IsSetting : Text × RuleSetting → Type 0
IsSetting (id, r) =
    (rule : Rule) × (find_rule id rules ≡ some rule)
    × (valid_severity r.severity ≡ true)
    × Assignments rule r.min_assignments

-- A configuration that the documentation allows.
pub record IsValid (c : Config) : Type 0 where
  pub width : Within c.print_width
  pub format : (c.preview_format ≡ codes "yaml") ⊎ (c.preview_format ≡ codes "json")
  pub patterns : All (λ p. all_space p ≡ false) c.exclude
  pub known : All IsSetting c.lint_rules

width_bounds : (w : ℤ) → (below w 20 || above w 1000) ≡ false → Within w
width_bounds (pos n) h = ground (arith, h)
width_bounds (negsuc n) h = cc

option_count :
    (rule : Rule) (k : ℤ)
    → (not (is_zero k) && (not rule.has_options || below k 3)) ≡ false
    → Assignments rule k
option_count rule (pos n) h = λ nonzero. (ground (arith, h, nonzero), ground (arith, h, nonzero))
option_count rule (negsuc n) h = ground (arith, h)

eq_true_of : (b : Bool) → not b ≡ false → b ≡ true
eq_true_of true h = refl
eq_true_of false h = cc

-- The checks that passed, one after the other.
passed :
    (b : Bool) (e : ConfigError) (rest : Option ConfigError)
    → (if b then some e else rest) ≡ none
    → (b ≡ false) × (rest ≡ none)
passed true e rest h = cc
passed false e rest h = (refl, h)

check_setting-IsSetting :
    (id : Text) (r : RuleSetting) (o : Option Rule)
    → find_rule id rules ≡ o
    → check_setting id r o ≡ none
    → IsSetting (id, r)
check_setting-IsSetting id r none e h = cc
check_setting-IsSetting id r (some rule) e h =
    let (a, later) = passed _ _ _ h in
    let (b, _) = passed _ _ _ later in
    (rule, e, eq_true_of (valid_severity r.severity) b, option_count rule r.min_assignments a)

or_later-none : (a b : Option ConfigError) → or_later a b ≡ none → (a ≡ none) × (b ≡ none)
or_later-none none b h = (refl, h)
or_later-none (some e) b h = cc

check_rules-IsSetting : (m : Dict Text RuleSetting) → check_rules m ≡ none → All IsSetting m
unfolding check_rules
check_rules-IsSetting [] h = tt
check_rules-IsSetting ((id, r) ∷ m) h =
    let (a, b) = or_later-none (check_setting id r (find_rule id rules)) (check_rules m) h in
    (check_setting-IsSetting id r (find_rule id rules) refl a, check_rules-IsSetting m b)

patterns_of : (ps : List Text) → blank_pattern ps ≡ false → All (λ p. all_space p ≡ false) ps
patterns_of [] h = tt
patterns_of (p ∷ ps) h = (ground (arith, h), patterns_of ps (ground (arith, h)))

format_of :
    (s : Text)
    → (not (text_eq s (codes "yaml")) && not (text_eq s (codes "json"))) ≡ false
    → (s ≡ codes "yaml") ⊎ (s ≡ codes "json")
format_of s h = elim (Bool-cases (text_eq s (codes "yaml"))) [
  | inl e ↦ inl ((text_eq_iff s (codes "yaml")).0 e)
  | inr e ↦ inr ((text_eq_iff s (codes "json")).0 (ground (arith, e, h)))
]

check_config-IsValid : (c : Config) → check_config c ≡ none → IsValid c
unfolding check_config
check_config-IsValid c h =
    let (a, h₁) = passed _ _ _ h in
    let (b, h₂) = passed _ _ _ h₁ in
    let (d, h₃) = passed _ _ _ h₂ in
    record {
      width = width_bounds c.print_width a;
      format = format_of c.preview_format b;
      patterns = patterns_of c.exclude d;
      known = check_rules-IsSetting c.lint_rules h₃;
    }

default_config-IsValid : IsValid default_config
default_config-IsValid = record {
  width = omega arith;
  format = inl refl;
  patterns = tt;
  known = tt;
}

-- Whatever the file holds and whether or not it can be read, the configuration that the program
-- goes on with is one that the documentation allows; with an error it is the default.
pub load-IsValid :
    (decode : Config → Text → Option (Config × Bool)) (file : FileRead)
    → IsValid (load decode file).0
      × (((load decode file).1 ≡ none) ⊎ ((load decode file).0 ≡ default_config))
unfolding load
load-IsValid decode missing = (default_config-IsValid, inl refl)
load-IsValid decode failed = (default_config-IsValid, inr refl)
load-IsValid decode (bytes b) = go (decode default_config b)
  where
    checked :
        (c : Config) (o : Option ConfigError)
        → check_config c ≡ o
        → IsValid (accept decode c o).0
          × (((accept decode c o).1 ≡ none) ⊎ ((accept decode c o).0 ≡ default_config))
    checked c none e = (check_config-IsValid c e, inl refl)
    checked c (some x) e = (default_config-IsValid, inr refl)

    go :
        (o : Option (Config × Bool))
        → IsValid (accept_decoded decode o).0
          × (((accept_decoded decode o).1 ≡ none) ⊎ ((accept_decoded decode o).0 ≡ default_config))
    go none = (default_config-IsValid, inr refl)
    go (some (c, true)) = (default_config-IsValid, inr refl)
    go (some (c, false)) = checked c (check_config c) refl

find_rule-All :
    (P : Rule → Type 0) (id : Text) (rs : List Rule) {r : Rule}
    → All P rs
    → find_rule id rs ≡ some r
    → P r
unfolding find_rule
find_rule-All P id [] h e = cc
find_rule-All P id (x ∷ rs) h e = elim (Bool-cases (text_eq x.id id)) [
  | inl t ↦ subst P (some-injective _ _ (rw t at e)) h.0
  | inr t ↦ find_rule-All P id rs h.1 (rw t at e)
]

abbrev HasSeverity : Rule → Type 0
HasSeverity r = valid_severity r.default_severity ≡ true

rules-HasSeverity : All HasSeverity rules
unfolding valid_severity
rules-HasSeverity = (refl, (refl, (refl, (refl, (refl, (refl, (refl, tt)))))))

off_valid : valid_severity (codes "off") ≡ true
unfolding valid_severity
off_valid = refl

-- In a configuration that the documentation allows, the setting of every name has one of the five
-- severities, and a name that is not in the registry is off.
setting-valid :
    (c : Config) (id : Text)
    → IsValid c
    → (valid_severity (setting c id).severity ≡ true)
      × ((find_rule id rules ≢ none) ⊎ ((setting c id).severity ≡ codes "off"))
unfolding setting
setting-valid c id v = configured (lookup id c.lint_rules) refl
  where
    by_default :
        (o : Option Rule)
        → find_rule id rules ≡ o
        → (valid_severity (default_setting o).severity ≡ true)
          × ((find_rule id rules ≢ none) ⊎ ((default_setting o).severity ≡ codes "off"))
    by_default none e = (off_valid, inr refl)
    by_default (some r) e =
        (find_rule-All HasSeverity id rules rules-HasSeverity e, inl (λ h. cc (e, h)))

    configured :
        (o : Option RuleSetting)
        → lookup id c.lint_rules ≡ o
        → (valid_severity (setting_or o (default_setting (find_rule id rules))).severity ≡ true)
          × ((find_rule id rules ≢ none)
              ⊎ ((setting_or o (default_setting (find_rule id rules))).severity ≡ codes "off"))
    configured none e = by_default (find_rule id rules) refl
    configured (some r) e =
        let (rule, found, valid, _) = lookup-All IsSetting id c.lint_rules v.known e in
        (valid, inl (λ h. cc (found, h)))
