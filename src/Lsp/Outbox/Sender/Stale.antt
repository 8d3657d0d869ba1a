-- ===== src/Lsp/Outbox/Sender/Stale.antt =====
-- The sender of internal/lsp/diagnostic_outbox.go never publishes for a version that was replaced.
use bloblang_lsp.Common.{
  ℕ, ◌+◌, ◌^◌, ◌≤◌, ◌<◌, Text, Bool, true, false, ◌&&◌, Option, none, some, List, [], ◌∷◌, ◌++◌,
  ◌≡◌, refl, ap, sym, ◌∙◌, arith, not, ◌||◌, if◌then◌else◌, text_eq, text_eq_iff, ◌==◌,
}
use bloblang_lsp.Lsp.Lifecycle.{Lifecycle, host_document_uri}
use bloblang_lsp.Lsp.Lifecycle.Versions.{IsReplaced, handle-created-le, handle-IsReplaced}
use bloblang_lsp.Lsp.Outbox.{Publication}
use bloblang_lsp.Lsp.Outbox.Sender.{
  Phase, draining, checked, sending, System, is_current, started_phase, after_next, enqueue_step,
  request_step, next_step, check_step, decide_step, publish_step, SenderStep, Step, sends, enqueued,
  requested, woken, done, taken, checks, decides, publishes, Reach, here, onward,
}

module _ {D : Type 0} (u : Text) (g : ℕ) where
  -- A publication that was made for version `g` of the document `u`.
  pub made_for : Publication D → Bool
  made_for p = p.check_generation && (text_eq (host_document_uri p.uri) u && p.generation == g)

  pub count_made : List (Publication D) → ℕ
  count_made [] = 0
  count_made (p ∷ ps) = (if made_for p then 1 else 0) + count_made ps

  -- The sender has already let such a publication through its check.
  abbrev pub let_through : Phase D → Bool
  let_through (checked p current) = current && made_for p
  let_through (sending p) = made_for p
  let_through _ = false

  count_made-append_one :
      (ps : List (Publication D)) (p : Publication D)
      → made_for p ≡ false
      → count_made (ps ++ p ∷ []) ≡ count_made ps
  unfolding count_made
  count_made-append_one [] p h = ground arith
  count_made-append_one (q ∷ ps) p h = omega (arith, count_made-append_one ps p h)

  record IsQuiet (n : ℕ) (s : System D) : Type 0 where
    life : IsReplaced u g s.life
    phase : let_through s.phase ≡ false
    count : count_made s.sent ≡ n

  current-made_for :
      (l : Lifecycle) (p : Publication D)
      → IsReplaced u g l
      → (is_current l p && made_for p) ≡ false
  unfolding is_current made_for
  current-made_for l p r =
      let old = r.replaced in ground (arith, text_eq_iff (host_document_uri p.uri) u)

  phase-started :
      (p : Phase D) (b : Bool) → let_through p ≡ false → let_through (started_phase b p) ≡ false
  phase-started p true h = h
  phase-started p false h = refl

  phase-enqueue :
      (p : Phase D) (stopped started : Bool)
      → let_through p ≡ false
      → let_through (if stopped then p else started_phase started p) ≡ false
  phase-enqueue p true started h = h
  phase-enqueue p false started h = phase-started p started h

  phase-next : (q : Option (Publication D)) → let_through (after_next q) ≡ false
  phase-next none = refl
  phase-next (some p) = refl

  phase-decide :
      (p : Publication D) (current cancelled : Bool)
      → (current && made_for p) ≡ false
      → let_through (if not current || cancelled then draining else sending p) ≡ false
  phase-decide p true true h = refl
  phase-decide p true false h = h
  phase-decide p false cancelled h = refl

  Sender-IsQuiet : {n : ℕ} {s t : System D} → SenderStep s t → IsQuiet n s → IsQuiet n t
  unfolding next_step check_step decide_step publish_step
  Sender-IsQuiet (woken p w) q = record { life = q.life; phase = refl; count = q.count }
  Sender-IsQuiet (done p c) q = record { life = q.life; phase = refl; count = q.count }
  Sender-IsQuiet {s} (taken p) q = record { life = q.life; phase = phase-next _; count = q.count }
  Sender-IsQuiet {s} (checks p h) q = record {
    life = q.life;
    phase = current-made_for s.life p q.life;
    count = q.count;
  }
  Sender-IsQuiet {s} (decides p current h) q = record {
    life = q.life;
    phase = phase-decide p current s.outbox.cancelled (ap let_through (sym h) ∙ q.phase);
    count = q.count;
  }
  Sender-IsQuiet {s} (publishes p h) q = record {
    life = q.life;
    phase = refl;
    count = count_made-append_one s.sent p (ap let_through (sym h) ∙ q.phase) ∙ q.count;
  }

  Step-IsQuiet :
      {n : ℕ} {s t : System D} → Step s t → IsQuiet n s → t.life.created < 2 ^ 64 → IsQuiet n t
  unfolding enqueue_step request_step
  Step-IsQuiet {s} (enqueued uri ds d) q b = record {
    life = q.life;
    phase = phase-enqueue s.phase s.outbox.stopped s.outbox.started q.phase;
    count = q.count;
  }
  Step-IsQuiet {s} (requested e) q b = record {
    life = handle-IsReplaced u g s.life e q.life b;
    phase = q.phase;
    count = q.count;
  }
  Step-IsQuiet (sends st) q b = Sender-IsQuiet st q

  Sender-life : {s t : System D} → SenderStep s t → t.life ≡ s.life
  unfolding next_step check_step decide_step publish_step
  Sender-life (woken p w) = refl
  Sender-life _ = refl

  Step-created-le : {s t : System D} → Step s t → s.life.created ≤ t.life.created
  unfolding enqueue_step request_step
  Step-created-le (enqueued uri ds d) = omega arith
  Step-created-le {s} (requested e) = handle-created-le s.life e
  Step-created-le (sends st) = omega (arith, ap (λ (l : Lifecycle). l.created) (Sender-life st))

  Reach-IsQuiet :
      {n : ℕ} {s t : System D} → IsQuiet n s → Reach s t → t.life.created < 2 ^ 64 → IsQuiet n t
  Reach-IsQuiet q here b = q
  Reach-IsQuiet q (onward r st) b =
      Step-IsQuiet st (Reach-IsQuiet q r (omega (arith, Step-created-le st))) b

  -- Once version `g` of a document was replaced or closed, and no publication made for it has
  -- passed the sender's check, none is published from then on, however the requests and the
  -- sender interleave, as long as fewer than 2^64 versions were given out.
  pub replaced_not_published :
      {s t : System D}
      → IsReplaced u g s.life
      → let_through s.phase ≡ false
      → Reach s t
      → t.life.created < 2 ^ 64
      → count_made t.sent ≡ count_made s.sent
  replaced_not_published {s} r h reach b =
      let q : IsQuiet (count_made s.sent) s = record { life = r; phase = h; count = refl } in
      (Reach-IsQuiet q reach b).count
