-- ===== src/Lsp/Outbox/Sender/Progress.antt =====
-- No wake-up of internal/lsp/diagnostic_outbox.go is lost, and the sender alone empties the queue.
use bloblang_lsp.Common.{
  Text, Bool, true, false, List, [], ◌∷◌, ◌++◌, ◌≡◌, refl, ◌≢◌, ap, sym, ◌∙◌, if◌then◌else◌, subst,
  append_assoc, append-nil, text_is_eq,
}
use bloblang_lsp.Common.Dict.{Dict, table}
use bloblang_lsp.Lsp.Lifecycle.{Lifecycle}
use bloblang_lsp.Lsp.Outbox.{Publication, Outbox, next, take_first}
use bloblang_lsp.Lsp.Outbox.Queue.{IsValid, view, pending_for, next-IsValid}
use bloblang_lsp.Lsp.Outbox.Sender.{
  waiting, draining, holding, checked, sending, System, is_current, initial, after_next, wake_step,
  next_step, check_step, decide_step, publish_step, Runs, still, moved, Runs-trans, woken, taken,
  checks, decides, publishes, Reach,
}
use bloblang_lsp.Lsp.Outbox.Sender.Live.{
  initial-IsLive, Reach-IsLive, no_lost_wakeup, not_cancelled,
}
use bloblang_lsp.Lsp.Outbox.Queue.{next-view, pop_front}
use mathlib.Core.Path.{ap₂}

module _ {D : Type 0} where
  -- The publications that the sender passes on, in the order of the queue.
  pub keep_one : Lifecycle → Publication D → List (Publication D)
  keep_one l p = if is_current l p then p ∷ [] else []

  pub keep : Lifecycle → Dict Text (Publication D) → List (Publication D)
  keep l [] = []
  keep l ((uri, p) ∷ q) = keep_one l p ++ keep l q

  -- From its check of a publication the sender comes back to the queue, with the publication sent
  -- exactly when it was current.
  pub decided :
      (s : System D) (p : Publication D) (current : Bool)
      → s.phase ≡ checked p current
      → s.outbox.cancelled ≡ false
      → (t : System D) × Runs s t
        × (t.phase ≡ draining)
        × (t.outbox ≡ s.outbox)
        × (t.life ≡ s.life)
        × (t.sent ≡ s.sent ++ (if current then p ∷ [] else []))
  unfolding decide_step publish_step
  decided s p true h c =
      let t = decide_step s p true in
      let to_send : t.phase ≡ sending p = simp c in
      (
        publish_step t p,
        moved (moved still (decides p true h)) (publishes p to_send),
        refl,
        refl,
        refl,
        refl,
      )
  decided s p false h c = (
    decide_step s p false,
    moved still (decides p false h),
    refl,
    refl,
    refl,
    sym (append-nil s.sent),
  )

  pub one_round :
      (s : System D) (uri : Text) (uris : List Text)
      → s.outbox.order ≡ uri ∷ uris
      → s.phase ≡ draining
      → s.outbox.cancelled ≡ false
      → (t : System D) × Runs s t
        × (t.phase ≡ draining)
        × (t.outbox ≡ (next s.outbox).1)
        × (t.life ≡ s.life)
        × (t.sent ≡ s.sent ++ keep_one s.life (pending_for s.outbox uri))
  unfolding next_step next check_step keep_one
  one_round s uri uris e h c =
      let p = pending_for s.outbox uri in
      let s₁ = next_step s in
      let holds : s₁.phase ≡ holding p = ap (λ l. after_next (take_first s.outbox l).0) e in
      let s₂ = check_step s₁ p in
      let off : s₂.outbox.cancelled ≡ false =
        subst (λ l. (take_first s.outbox l).1.cancelled ≡ false) (sym e) c in
      let (t, r, ph, ob, li, se) = decided s₂ p (is_current s.life p) refl off in
      (t, Runs-trans (moved (moved still (taken h)) (checks p holds)) r, ph, ob, li, se)

  -- The queue behind its first document.
  view-next :
      (o : Outbox D) (uri : Text) (uris : List Text)
      → IsValid o
      → o.order ≡ uri ∷ uris
      → view (next o).1 ≡ table (pending_for o) uris
  view-next o uri uris v e =
      ap (λ r. r.1) (next-view o v).0 ∙ ap (λ l. (pop_front (table (pending_for o) l)).1) e

  next-order :
      (o : Outbox D) (uri : Text) (uris : List Text)
      → o.order ≡ uri ∷ uris
      → (next o).1.order ≡ uris
  unfolding next
  next-order o uri uris e = ap (λ l. (take_first o l).1.order) e

  next-cancelled : (o : Outbox D) → (next o).1.cancelled ≡ o.cancelled
  unfolding next
  next-cancelled o = go o.order
    where
      go : (l : List Text) → (take_first o l).1.cancelled ≡ o.cancelled
      go [] = refl
      go (uri ∷ uris) = refl

  -- The sender at work, left alone, empties the queue and goes to sleep. It sends exactly the
  -- publications that are current, in the order of the queue.
  pub drained :
      (l : List Text) (s : System D)
      → s.outbox.order ≡ l
      → IsValid s.outbox
      → s.phase ≡ draining
      → s.outbox.cancelled ≡ false
      → (t : System D) × Runs s t
        × (t.phase ≡ waiting)
        × (t.outbox.order ≡ [])
        × (t.sent ≡ s.sent ++ keep s.life (view s.outbox))
  unfolding keep
  drained [] s e v h c = (
    next_step s,
    moved still (taken h),
    unfold next_step next in ap (λ l. after_next (take_first s.outbox l).0) e,
    unfold next_step next in ap (λ l. (take_first s.outbox l).1.order) e ∙ e,
    unfold next_step next in
        sym (append-nil s.sent)
        ∙ ap (λ l. s.sent ++ keep s.life (table (pending_for s.outbox) l)) (sym e),
  )
  drained (uri ∷ uris) s e v h c =
      let (m, run, at, ob, li, se) = one_round s uri uris e h c in
      let valid : IsValid m.outbox = subst IsValid (sym ob) (next-IsValid s.outbox v) in
      let order : m.outbox.order ≡ uris =
        ap (λ (o : Outbox D). o.order) ob ∙ next-order s.outbox uri uris e in
      let off : m.outbox.cancelled ≡ false =
        ap (λ (o : Outbox D). o.cancelled) ob ∙ next-cancelled s.outbox ∙ c in
      let (t, run', asleep, empty, sent) = drained uris m order valid at off in
      let queue : view m.outbox ≡ table (pending_for s.outbox) uris =
        ap view ob ∙ view-next s.outbox uri uris v e in
      let all : view s.outbox ≡ table (pending_for s.outbox) (uri ∷ uris) =
        ap (table (pending_for s.outbox)) e in
      (
        t,
        Runs-trans run run',
        asleep,
        empty,
        cc (
          sent,
          se,
          ap₂ keep li queue,
          all,
          append_assoc s.sent (keep_one s.life (pending_for s.outbox uri))
              (keep s.life (table (pending_for s.outbox) uris)),
        ),
      )

  -- In every reachable state where the sender sleeps over a queue that is not empty, it can wake
  -- up and, left alone, empties the queue, sending exactly what is current, in order.
  pub queue_served :
      {s : System D}
      → Reach initial s
      → s.phase ≡ waiting
      → s.outbox.order ≢ []
      → (t : System D) × Runs s t
        × (t.phase ≡ waiting)
        × (t.outbox.order ≡ [])
        × (t.sent ≡ s.sent ++ keep s.life (view s.outbox))
  queue_served {s} r asleep work =
      let v = Reach-IsLive initial-IsLive r in
      let awake = (no_lost_wakeup r).0 asleep work in
      let s₁ = wake_step s in
      let valid : IsValid s₁.outbox = record {
        distinct = v.valid.distinct;
        agree = v.valid.agree;
      } in
      let (t, run, at, empty, sent) =
        drained s.outbox.order s₁ refl valid refl (not_cancelled v work) in
      (t, Runs-trans (moved still (woken asleep awake)) run, at, empty, sent)
