-- ===== src/Lsp/Lifecycle/Contexts.antt =====
-- Which contexts of internal/lsp/lifecycle.go are cancelled: exactly those that are no open
-- document's newest one.
use bloblang_lsp.Common.{
  ℕ, ◌+◌, ◌%◌, ◌^◌, ◌≤◌, ◌<◌, Text, true, false, Option, none, some, List, [], ◌∷◌, ◌≡◌, refl,
  arith, text_is_eq, text_eq_iff, nat_eq, contains, All, All-mono, if◌then◌else◌, Bool-cases, inl,
  inr, text_eq, ◌==◌,
}
use bloblang_lsp.Common.Dict.{
  Dict, lookup, insert, remove, lookup-insert, lookup-remove, All-insert, All-remove,
}
use bloblang_lsp.Lsp.Lifecycle.{
  Lifecycle, initial, cancel, cancel_all, begin_document_version, did_close, shutdown,
}

-- The version that goes with a context.
abbrev pub version_of : Option ℕ → Option ℕ
version_of none = none
version_of (some c) = some (c % 2 ^ 64)

pub record IsValid (l : Lifecycle) : Type 0 where
  -- the newest context of an open document is live
  pub live : (uri : Text) (c : ℕ) → lookup uri l.contexts ≡ some c → contains l.cancelled c ≡ false
  pub created_bound :
      (uri : Text) (c : ℕ) → lookup uri l.contexts ≡ some c → (0 < c) × (c ≤ l.created)
  pub cancelled_bound : (c : ℕ) → contains l.cancelled c ≡ true → c ≤ l.created
  pub entries_bound : All (λ e. e.1 ≤ l.created) l.contexts
  pub owner_unique :
      (u v : Text) (c : ℕ) → lookup u l.contexts ≡ some c → lookup v l.contexts ≡ some c → u ≡ v
  -- every other context is cancelled
  pub owned :
      (c : ℕ)
      → 0 < c
      → c ≤ l.created
      → contains l.cancelled c ≡ false
      → (uri : Text) × (lookup uri l.contexts ≡ some c)
  pub versions : (uri : Text) → lookup uri l.latest_version ≡ version_of (lookup uri l.contexts)
  pub next_exact : l.next_version ≡ l.created % 2 ^ 64

pub initial-IsValid : IsValid initial
unfolding lookup
initial-IsValid = record {
  live = λ uri c h. cc;
  created_bound = λ uri c h. cc;
  cancelled_bound = λ c h. cc;
  entries_bound = tt;
  owner_unique = λ u v c h k. cc;
  owned = λ c p b h. absurd (omega arith);
  versions = λ uri. refl;
  next_exact = omega arith;
}

module _ (l : Lifecycle) (uri : Text) (v : IsValid l) where
  begin-live :
      (old : Option ℕ)
      → lookup uri l.contexts ≡ old
      → (j : Text) (c : ℕ)
      → (if text_eq uri j then some (l.created + 1) else lookup j l.contexts) ≡ some c
      → contains (cancel old l.cancelled) c ≡ false
  begin-live none e j c h = ground (arith, v.live j c, v.cancelled_bound c)
  begin-live (some d) e j c h = ground (
    arith,
    v.live j c,
    v.cancelled_bound c,
    v.created_bound uri d e,
    v.owner_unique uri j c,
    text_eq_iff uri j,
  )

  begin-cancelled_bound :
      (old : Option ℕ)
      → lookup uri l.contexts ≡ old
      → (c : ℕ) → contains (cancel old l.cancelled) c ≡ true
      → c ≤ l.created
  begin-cancelled_bound none e c h = v.cancelled_bound c h
  begin-cancelled_bound (some d) e c h =
      ground (arith, v.cancelled_bound c, v.created_bound uri d e)

  -- A context that stays live belongs to another document.
  still_owned :
      (old : Option ℕ)
      → lookup uri l.contexts ≡ old
      → (c : ℕ) → 0 < c
      → c ≤ l.created
      → contains (cancel old l.cancelled) c ≡ false
      → (j : Text) × (lookup j l.contexts ≡ some c) × (text_eq uri j ≡ false)
  still_owned none e c p b h =
      let (j, own) = v.owned c p b h in (j, own, ground (arith, text_eq_iff uri j))
  still_owned (some d) e c p b h =
      let (j, own) = v.owned c p b (ground arith) in (j, own, ground (arith, text_eq_iff uri j))

  other_live :
      (old : Option ℕ)
      → lookup uri l.contexts ≡ old
      → (j : Text) (c : ℕ) → lookup j l.contexts ≡ some c
      → text_eq uri j ≡ false
      → contains (cancel old l.cancelled) c ≡ false
  other_live none e j c h n = v.live j c h
  other_live (some d) e j c h n =
      ground (arith, v.live j c, v.owner_unique uri j c, text_eq_iff uri j)

  begin-owned :
      (c : ℕ)
      → 0 < c
      → c ≤ l.created + 1
      → contains (cancel (lookup uri l.contexts) l.cancelled) c ≡ false
      → (j : Text) × (lookup j (insert uri (l.created + 1) l.contexts) ≡ some c)
  begin-owned c p b h = elim (Bool-cases (c == l.created + 1)) [
    | inl e ↦ (
      uri,
      rw (lookup-insert uri uri (l.created + 1) l.contexts) (ground (arith, text_eq_iff uri uri)),
    )
    | inr e ↦
        let (j, own, ne) = still_owned (lookup uri l.contexts) refl c p (ground arith) h in
        (j, rw (lookup-insert uri j (l.created + 1) l.contexts) (ground arith))
  ]

  pub begin_document_version-IsValid : IsValid (begin_document_version l uri)
  unfolding begin_document_version
  begin_document_version-IsValid = record {
    live = λ j c h.
        begin-live (lookup uri l.contexts) refl j c
          (rw (lookup-insert uri j (l.created + 1) l.contexts) at h);
    created_bound = λ j c h.
        ground (arith, lookup-insert uri j (l.created + 1) l.contexts, v.created_bound j c);
    cancelled_bound = λ c h. omega (arith, begin-cancelled_bound (lookup uri l.contexts) refl c h);
    entries_bound =
        All-insert (λ e. e.1 ≤ l.created + 1) uri (l.created + 1) l.contexts (omega arith)
          (All-mono (λ e. e.1 ≤ l.created) (λ e. e.1 ≤ l.created + 1) l.contexts
            (λ e h. omega arith) v.entries_bound);
    owner_unique = λ j k c h₁ h₂. ground (
      arith,
      lookup-insert uri j (l.created + 1) l.contexts,
      lookup-insert uri k (l.created + 1) l.contexts,
      text_eq_iff uri j,
      text_eq_iff uri k,
      v.created_bound j c,
      v.created_bound k c,
      v.owner_unique j k c,
    );
    owned = begin-owned;
    versions = λ j. ground (
      arith,
      lookup-insert uri j (l.created + 1) l.contexts,
      lookup-insert uri j ((l.next_version + 1) % 2 ^ 64) l.latest_version,
      v.versions j,
      v.next_exact,
    );
    next_exact = omega (arith, v.next_exact);
  }

  -- The owner of a document other than the closed one.
  remove-some :
      (j : Text) (c : ℕ)
      → lookup j (remove uri l.contexts) ≡ some c
      → (text_eq uri j ≡ false) × (lookup j l.contexts ≡ some c)
  remove-some j c h = ground (arith, lookup-remove uri j l.contexts)

  pub did_close-IsValid : IsValid (did_close l uri)
  unfolding did_close
  did_close-IsValid = record {
    live = λ j c h.
        let (ne, own) = remove-some j c h in other_live (lookup uri l.contexts) refl j c own ne;
    created_bound = λ j c h. v.created_bound j c (remove-some j c h).1;
    cancelled_bound = begin-cancelled_bound (lookup uri l.contexts) refl;
    entries_bound = All-remove (λ e. e.1 ≤ l.created) uri l.contexts v.entries_bound;
    owner_unique =
        λ j k c h₁ h₂. v.owner_unique j k c (remove-some j c h₁).1 (remove-some k c h₂).1;
    owned = λ c p b h.
        let (j, own, ne) = still_owned (lookup uri l.contexts) refl c p b h in
        (j, rw (lookup-remove uri j l.contexts) (ground arith));
    versions = λ j.
        ground (
          arith,
          lookup-remove uri j l.contexts,
          lookup-remove uri j l.latest_version,
          v.versions j,
        );
    next_exact = v.next_exact;
  }

cancel_all-bound :
    (n : ℕ) (m : Dict Text ℕ) (cs : List ℕ)
    → All (λ e. e.1 ≤ n) m
    → ((c : ℕ) → contains cs c ≡ true → c ≤ n)
    → (c : ℕ) → contains (cancel_all m cs) c ≡ true
    → c ≤ n
cancel_all-bound n [] cs b k c h = k c h
cancel_all-bound n ((u, d) ∷ m) cs b k c h = ground (arith, cancel_all-bound n m cs b.1 k c)

cancel_all-base :
    (m : Dict Text ℕ) (cs : List ℕ) (c : ℕ)
    → contains (cancel_all m cs) c ≡ false
    → contains cs c ≡ false
cancel_all-base [] cs c h = h
cancel_all-base ((u, d) ∷ m) cs c h = ground (arith, cancel_all-base m cs c)

cancel_all-lookup :
    (m : Dict Text ℕ) (cs : List ℕ) (c : ℕ) (uri : Text)
    → lookup uri m ≡ some c
    → contains (cancel_all m cs) c ≡ true
unfolding lookup
cancel_all-lookup [] cs c uri h = cc
cancel_all-lookup ((u, d) ∷ m) cs c uri h = ground (arith, cancel_all-lookup m cs c uri)

pub shutdown-IsValid : (l : Lifecycle) → IsValid l → IsValid (shutdown l)
unfolding shutdown lookup
shutdown-IsValid l v = record {
  live = λ uri c h. cc;
  created_bound = λ uri c h. cc;
  cancelled_bound =
      cancel_all-bound l.created l.contexts l.cancelled v.entries_bound v.cancelled_bound;
  entries_bound = tt;
  owner_unique = λ u w c h k. cc;
  owned = λ c p b h.
      let (uri, own) = v.owned c p b (cancel_all-base l.contexts l.cancelled c h) in
      absurd (ground (arith, cancel_all-lookup l.contexts l.cancelled c uri own));
  versions = λ uri. refl;
  next_exact = v.next_exact;
}
