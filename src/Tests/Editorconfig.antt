-- ===== src/Tests/Editorconfig.antt =====
-- The configuration of internal/editorconfig over a file system with one configuration file.
use bloblang_lsp.Common.{
  Text, Bool, true, false, Option, none, some, [], ◌∷◌, ◌++◌, ◌≡◌, ◌↔◌, ◌⊎◌, refl, codes, text_eq,
  if◌then◌else◌,
}
use bloblang_lsp.Common.Int.{pos}
use bloblang_lsp.Common.Strings.{has_prefix}
use bloblang_lsp.Common.Result.{ok, err}
use bloblang_lsp.Editorconfig.Config.{
  Config, default_config, bytes, load, check_config, check_rules, find_rule, valid_severity,
  unmarshal_setting, quoted, fields, too_few_assignments,
}
use bloblang_lsp.Editorconfig.Config.Valid.{IsValid, load-IsValid}
use bloblang_lsp.Editorconfig.Source.{
  Paths, found, absent, SourceContext, contains_dir, resolve_source, deepest_root, git_root,
  search_config, config_path, config, import_path, mapping_path,
}
use bloblang_lsp.Editorconfig.Source.Nearest.{IsNearest, config_path-IsNearest}

abbrev narrow : Config
narrow = record default_config {
  print_width = pos 40;
  lint_rules =
      (
        codes "style/objects/prefer-with",
        record { severity = codes "off"; min_assignments = pos 0 },
      )
      ∷ [];
}

-- The text "{}" decodes to the narrow configuration, and every other text to the given one.
abbrev decode : Config → Text → Option (Config × Bool)
decode c b = if text_eq b (codes "{}") then some (narrow, false) else some (c, true)

loads : load decode (bytes (codes "{}")) ≡ (narrow, none)
unfolding load check_config check_rules find_rule valid_severity
loads = refl

load-IsValid_example :
    IsValid (load decode (bytes (codes "{}"))).0
    × (((load decode (bytes (codes "{}"))).1 ≡ none)
        ⊎ ((load decode (bytes (codes "{}"))).0 ≡ default_config))
load-IsValid_example = load-IsValid decode (bytes (codes "{}"))

-- A decoded number below three is refused, an explicit string sets the severity alone.
unmarshals :
    (unmarshal_setting
        (record { severity = codes "warn"; min_assignments = pos 3 })
        (quoted (some (codes "off")))
      ≡ ok (record { severity = codes "off"; min_assignments = pos 3 }))
    × (unmarshal_setting
          (record { severity = codes "warn"; min_assignments = pos 3 })
          (fields (some (record { severity = codes "warn"; min_assignments = pos 2 })) true)
        ≡ err too_few_assignments)
unfolding unmarshal_setting
unmarshals = (refl, refl)

abbrev base : Text
base = codes "/a"

-- One configuration and one Git marker, both in the directory "/a".
abbrev paths : Paths
paths = record {
  clean = λ p. p;
  join_path = λ d p. d ++ (codes "/" ++ p);
  is_abs = λ p. has_prefix (codes "/") p;
  parents = λ p. codes "/a/b" ∷ base ∷ codes "/" ∷ [];
  rel = λ root p. if text_eq root p then some (codes ".") else some (codes "b");
  stat = λ p.
      if text_eq p (codes "/a/.bloblangrc.json")
      then found
      else if text_eq p (codes "/a/.git")
      then found
      else absent;
  read = λ p. bytes (codes "{}");
}

abbrev source : SourceContext
source = record { dir = codes "/a/b"; root = base }

resolves : resolve_source paths (codes "/a/b") [] ≡ source
unfolding resolve_source deepest_root git_root
resolves = refl

resolves_in_workspace : resolve_source paths (codes "/a/b") ([] ∷ base ∷ codes "/" ∷ []) ≡ source
unfolding resolve_source deepest_root git_root contains_dir
resolves_in_workspace = refl

configures : config paths decode source ≡ (narrow, none)
unfolding config config_path search_config load check_config check_rules find_rule valid_severity
configures = refl

locates : mapping_path paths source (codes ".git") ≡ codes "/a/.git"
unfolding mapping_path import_path
locates = refl

config_path-IsNearest_example :
    (config_path paths source ≡ ok (some (codes "/a/.bloblangrc.json")))
    ↔ IsNearest paths base (paths.parents (codes "/a/b")) (codes "/a/.bloblangrc.json")
config_path-IsNearest_example = config_path-IsNearest paths source (codes "/a/.bloblangrc.json")
