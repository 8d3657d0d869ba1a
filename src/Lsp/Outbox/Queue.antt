-- ===== src/Lsp/Outbox/Queue.antt =====
-- The outbox of internal/lsp/diagnostic_outbox.go as an ordered queue with one entry for each
-- document: `order` and `pending` always agree, and the operations are those of the queue.
use bloblang_lsp.Common.{
  ℕ, Text, Bool, true, false, Option, none, some, List, [], ◌∷◌, if◌then◌else◌, ◌≡◌, refl, ap,
  arith, text_is_eq, text_eq_iff, contains, Distinct, contains-append_one, Distinct-append_one, sym,
  ◌∙◌, subst, fun_ext, Bool-cases, inl, inr, text_eq_refl, text_eq,
}
use bloblang_lsp.Common.Dict.{
  Dict, lookup, insert, remove, lookup-insert, lookup-remove, table, updated, table-append_one,
  table-updated_absent, insert-table_absent, insert-table_present,
}
use bloblang_lsp.Lsp.Outbox.{
  Publication, Outbox, publication, get_or_zero, append_new, enqueue, next, stop, empty, take_first,
}

module _ {D : Type 0} where
  abbrev pub is_pending : Option (Publication D) → Bool
  is_pending none = false
  is_pending (some _) = true

  -- The queue holds each document once, and `pending` has a publication for exactly these.
  pub record IsValid (o : Outbox D) : Type 0 where
    pub distinct : Distinct o.order
    pub agree : (uri : Text) → contains o.order uri ≡ is_pending (lookup uri o.pending)

  -- What the sender will read for a document.
  abbrev pub pending_for : Outbox D → Text → Publication D
  pending_for o uri = get_or_zero (lookup uri o.pending)

  -- The queue: the documents in order, each with its publication.
  abbrev pub view : Outbox D → Dict Text (Publication D)
  view o = table (pending_for o) o.order

  pub empty-IsValid : IsValid (empty {D = D})
  unfolding lookup
  empty-IsValid = record { distinct = tt; agree = λ uri. refl }

  append_new-Distinct :
      (o : Outbox D) (uri : Text)
      → IsValid o
      → Distinct (append_new uri (lookup uri o.pending) o.order)
  append_new-Distinct o uri v = go (lookup uri o.pending) refl
    where
      go :
          (q : Option (Publication D))
          → lookup uri o.pending ≡ q
          → Distinct (append_new uri q o.order)
      go none e = Distinct-append_one o.order uri v.distinct (v.agree uri ∙ ap is_pending e)
      go (some p) e = v.distinct

  append_new-contains :
      (o : Outbox D) (uri j : Text) (p : Publication D)
      → IsValid o
      → contains (append_new uri (lookup uri o.pending) o.order) j
        ≡ is_pending (if text_eq uri j then some p else lookup j o.pending)
  append_new-contains o uri j p v =
      ground (arith, v.agree uri, v.agree j, text_eq_iff uri j, contains-append_one o.order uri j)

  -- Every enqueue keeps the outbox valid.
  pub enqueue-IsValid :
      (o : Outbox D) (uri : Text) (ds : List D) (g : Option ℕ)
      → IsValid o
      → IsValid (enqueue o uri ds g)
  unfolding enqueue
  enqueue-IsValid o uri ds g v = elim (Bool-cases o.stopped) [
    | inl e ↦ simp e v
    | inr e ↦ simp e (record {
      distinct = append_new-Distinct o uri v;
      agree = λ j.
          append_new-contains o uri j _ v ∙ ap is_pending (sym (lookup-insert uri j _ o.pending));
    })
  ]

  take_first-IsValid :
      (o : Outbox D) (l : List Text) → o.order ≡ l → IsValid o → IsValid (take_first o l).1
  take_first-IsValid o [] e v = v
  take_first-IsValid o (uri ∷ rest) e v =
      let distinct : Distinct (uri ∷ rest) = subst Distinct e v.distinct in
      let agree : (j : Text) → contains (uri ∷ rest) j ≡ is_pending (lookup j o.pending) =
        λ j. ap (λ l. contains l j) (sym e) ∙ v.agree j in
      record {
        distinct = distinct.1;
        agree =
            λ j. rw (lookup-remove uri j o.pending) (ground (arith, agree j, text_eq_iff uri j));
      }

  -- Taking the first publication keeps the outbox valid.
  pub next-IsValid : (o : Outbox D) → IsValid o → IsValid (next o).1
  unfolding next
  next-IsValid o v = take_first-IsValid o o.order refl v

  pub stop-IsValid : (o : Outbox D) → IsValid (stop o)
  unfolding stop lookup
  stop-IsValid o = record { distinct = tt; agree = λ uri. refl }

  -- What a lookup in the new map gives, as a function of the document.
  pending-insert :
      (o : Outbox D) (uri : Text) (p : Publication D)
      → (λ j. get_or_zero (lookup j (insert uri p o.pending))) ≡ updated (pending_for o) uri p
  pending-insert o uri p = fun_ext λ j. rw (lookup-insert uri j p o.pending) (ground arith)

  enqueue-view_open :
      (o : Outbox D) (uri : Text) (p : Publication D)
      → IsValid o
      → table (updated (pending_for o) uri p) (append_new uri (lookup uri o.pending) o.order)
        ≡ insert uri p (view o)
  enqueue-view_open o uri p v = go (lookup uri o.pending) refl
    where
      go :
          (q : Option (Publication D))
          → lookup uri o.pending ≡ q
          → table (updated (pending_for o) uri p) (append_new uri q o.order) ≡ insert uri p (view o)
      go none e =
          let absent : contains o.order uri ≡ false = v.agree uri ∙ ap is_pending e in
          rw (
            table-append_one (updated (pending_for o) uri p) o.order uri,
            table-updated_absent (pending_for o) uri p o.order absent,
            insert-table_absent (pending_for o) uri p o.order absent,
            text_eq_refl uri,
          )
      go (some q) e = sym (
          insert-table_present (pending_for o) uri p o.order (v.agree uri ∙ ap is_pending e)
            v.distinct)

  -- On an outbox that is not stopped, an enqueue puts the publication in the document's place in
  -- the queue, or at the end when the document has none; a stopped outbox ignores it.
  pub enqueue-view :
      (o : Outbox D) (uri : Text) (ds : List D) (g : Option ℕ)
      → IsValid o
      → view (enqueue o uri ds g)
        ≡ (if o.stopped then view o else insert uri (publication uri ds g) (view o))
  unfolding enqueue
  enqueue-view o uri ds g v = elim (Bool-cases o.stopped) [
    | inl e ↦ simp e
    | inr e ↦
        simp (e, pending-insert o uri (publication uri ds g))
          (enqueue-view_open o uri (publication uri ds g) v)
  ]

  -- What `next` makes of the queue.
  abbrev pub pop_front :
      Dict Text (Publication D) → Option (Publication D) × Dict Text (Publication D)
  pop_front [] = (none, [])
  pop_front ((uri, p) ∷ q) = (some p, q)

  -- Removing a document changes the publication of no other.
  table-remove :
      (o : Outbox D) (uri : Text) (xs : List Text)
      → contains xs uri ≡ false
      → table (λ j. get_or_zero (lookup j (remove uri o.pending))) xs ≡ table (pending_for o) xs
  table-remove o uri [] h = refl
  table-remove o uri (x ∷ xs) h = ground (
    arith,
    lookup-remove uri x o.pending,
    text_eq_iff x uri,
    text_eq_iff uri x,
    table-remove o uri xs,
  )

  take_first-view :
      (o : Outbox D) (l : List Text)
      → o.order ≡ l
      → Distinct l
      → ◌≡◌ {A = Option (Publication D) × Dict Text (Publication D)}
          ((take_first o l).0, view (take_first o l).1)
          (pop_front (table (pending_for o) l))
  take_first-view o [] e d = ap (λ l. (none, table (pending_for o) l)) e
  take_first-view o (uri ∷ rest) e d =
      ap (λ q. (some (pending_for o uri), q)) (table-remove o uri rest d.0)

  -- The fields that have no part in the queue.
  abbrev pub flags : Outbox D → Bool × Bool × Bool × Bool
  flags o = (o.started, o.wake, o.cancelled, o.stopped)

  take_first-flags : (o : Outbox D) (l : List Text) → flags (take_first o l).1 ≡ flags o
  take_first-flags o [] = refl
  take_first-flags o (uri ∷ rest) = refl

  -- On a valid outbox `next` returns the publication at the front of the queue and leaves the other
  -- documents queued as they were, or nothing when the queue is empty. The outbox stays valid, so a
  -- publication is pending for exactly the documents still queued, and its other fields do not change.
  pub next-view :
      (o : Outbox D)
      → IsValid o
      → ◌≡◌ {A = Option (Publication D) × Dict Text (Publication D)}
          ((next o).0, view (next o).1)
          (pop_front (view o))
        × IsValid (next o).1
        × (flags (next o).1 ≡ flags o)
  unfolding next
  next-view o v =
      (take_first-view o o.order refl v.distinct, next-IsValid o v, take_first-flags o o.order)
