-- ===== src/Benthos/Completion/Items/Optional.antt =====
-- The test of internal/benthos/cache.go for a parameter that is optional or has a default.
use bloblang_lsp.Common.{
  Text, Bool, true, false, not, ◌||◌, List, [], ◌∷◌, ◌≡◌, ◌≢◌, ◌↔◌, ◌⊎◌, inl, inr, refl, arith,
  if◌then◌else◌, Bool-cases, subst, text_is_eq,
}
use bloblang_lsp.Common.Strings.{is_nil}
use mathlib.Core.List.Memᴰ
use bloblang_lsp.Common.Members.{Memᴰ, Memᴰ-one_or_two}
use bloblang_lsp.Benthos.Completion.{
  Param, Params, is_optional_param, has_optional, has_optional_params,
}
use bloblang_lsp.Benthos.Completion.Items.{CompletionItem}

-- A parameter that need not be given, because it is marked so or has a default.
abbrev pub HasOptional : List Param → Type 0
HasOptional ps = (p : Param) × Memᴰ p ps × ((p.is_optional ≡ true) ⊎ (p.default_marshalled ≢ []))

is_optional_param_iff :
    (p : Param)
    → (is_optional_param p ≡ true) ↔ ((p.is_optional ≡ true) ⊎ (p.default_marshalled ≢ []))
is_optional_param_iff p = go p.is_optional p.default_marshalled
  where
    go : (b : Bool) (t : Text) → ((b || not (is_nil t)) ≡ true) ↔ ((b ≡ true) ⊎ (t ≢ []))
    go true t = (λ h. inl refl, λ h. refl)
    go false [] = (λ h. cc, λ h. elim h [ inl e ↦ cc | inr e ↦ absurd (e refl) ])
    go false (c ∷ t) = (λ h. inr (λ e. cc), λ h. refl)

has_optional_iff : (ps : List Param) → (has_optional ps ≡ true) ↔ HasOptional ps
has_optional_iff [] = (λ h. cc, λ (p, m, o). absurd (Memᴰ.not-nil m))
has_optional_iff (p ∷ ps) = (to (has_optional_iff ps), back (has_optional_iff ps))
  where
    to :
        (has_optional ps ≡ true) ↔ HasOptional ps
        → has_optional (p ∷ ps) ≡ true
        → HasOptional (p ∷ ps)
    to rest h = elim (Bool-cases (is_optional_param p)) [
      | inl e ↦ (p, Memᴰ.head refl, (is_optional_param_iff p).0 e)
      | inr e ↦ let (q, m, o) = rest.0 (ground (arith, h, e)) in (q, Memᴰ.tail m, o)
    ]

    back :
        (has_optional ps ≡ true) ↔ HasOptional ps
        → HasOptional (p ∷ ps)
        → has_optional (p ∷ ps) ≡ true
    back rest (q, m, o) = elim (Memᴰ.cases_cons m) [
      | inl same ↦ ground (
        arith,
        (is_optional_param_iff p).1
            (subst (λ z. (z.is_optional ≡ true) ⊎ (z.default_marshalled ≢ [])) same o),
      )
      | inr later ↦ ground (arith, rest.1 (q, later, o))
    ]

pub one_or_two :
    (item first second : CompletionItem) (params : Params)
    → Memᴰ item (first ∷ (if has_optional_params params then second ∷ [] else []))
      ↔ ((item ≡ first) ⊎ (HasOptional params.definitions × (item ≡ second)))
one_or_two item first second params =
    let both = Memᴰ-one_or_two item first second (has_optional_params params) in
    let optional = has_optional_iff params.definitions in
    (
      λ m. elim (both.0 m) [ inl e ↦ inl e | inr (o, e) ↦ inr (optional.0 o, e) ],
      λ s. elim s [ inl e ↦ both.1 (inl e) | inr (o, e) ↦ both.1 (inr (optional.1 o, e)) ],
    )
