-- ===== src/Lsp/Outbox/Sender/Live.antt =====
-- No wake-up of internal/lsp/diagnostic_outbox.go is lost: whatever is queued, the sender is awake
-- or about to be.
use bloblang_lsp.Common.{
  ℕ, Text, Bool, true, false, not, ◌||◌, Option, List, [], ◌∷◌, ◌≡◌, refl, ◌≢◌, ap, sym, ◌∙◌, arith,
  if◌then◌else◌, subst, text_is_eq,
}
use bloblang_lsp.Lsp.Lifecycle
use bloblang_lsp.Lsp.Lifecycle.{Lifecycle, Event, handle}
use bloblang_lsp.Lsp.Outbox.{Publication, Outbox, enqueue, stop, take_first}
use bloblang_lsp.Lsp.Outbox.Queue.{
  IsValid, enqueue-IsValid, next-IsValid, stop-IsValid, empty-IsValid,
}
use bloblang_lsp.Lsp.Outbox.Sender.{
  Phase, absent, waiting, draining, sending, returned, System, initial, started_phase, after_next,
  stop_on, enqueue_step, request_step, next_step, check_step, decide_step, publish_step, SenderStep,
  Step, sends, enqueued, requested, woken, done, taken, checks, decides, publishes, Reach, here,
  onward,
}

abbrev pub is_empty {ℓ} : {A : Type ℓ} → List A → Bool
is_empty [] = true
is_empty (x ∷ xs) = false

not_empty {ℓ} : {A : Type ℓ} (xs : List A) → xs ≢ [] → is_empty xs ≡ false
not_empty [] h = absurd (h refl)
not_empty (x ∷ xs) h = refl

module _ {D : Type 0} where
  -- What the sender's place says of the outbox: it is not started yet, it is asleep and has a
  -- wake-up for whatever is queued, or it returned after a stop.
  abbrev pub Stands : Phase D → Outbox D → Type 0
  Stands absent o = (o.started ≡ false) × (is_empty o.order ≡ true)
  Stands waiting o = (o.started ≡ true) × ((o.wake || is_empty o.order) ≡ true)
  Stands returned o = (o.started ≡ true) × (o.stopped ≡ true)
  Stands _ o = o.started ≡ true

  pub record IsLive (s : System D) : Type 0 where
    pub valid : IsValid s.outbox
    pub stands : Stands s.phase s.outbox
    pub stopped_empty : s.outbox.stopped ≡ true → is_empty s.outbox.order ≡ true
    pub cancelled_stopped : s.outbox.cancelled ≡ true → s.outbox.stopped ≡ true

  pub initial-IsLive : IsLive (initial {D = D})
  initial-IsLive = record {
    valid = empty-IsValid;
    stands = (refl, refl);
    stopped_empty = λ h. refl;
    cancelled_stopped = λ h. cc;
  }

  enqueue-Stands :
      (p : Phase D) (o : Outbox D) (uri : Text) (ds : List D) (g : Option ℕ)
      → Stands p o
      → Stands (if o.stopped then p else started_phase o.started p) (enqueue o uri ds g)
  unfolding enqueue
  enqueue-Stands absent o uri ds g h = ground arith
  enqueue-Stands waiting o uri ds g h = ground arith
  enqueue-Stands returned o uri ds g h = ground arith
  enqueue-Stands _ o uri ds g h = ground arith

  stop-Stands : (p : Phase D) (o : Outbox D) → Stands p o → Stands p (stop o)
  unfolding stop
  stop-Stands absent o h = ground arith
  stop-Stands waiting o h = ground arith
  stop-Stands returned o h = ground arith
  stop-Stands _ o h = ground arith

  next-Stands :
      (o : Outbox D) (l : List Text)
      → o.order ≡ l
      → o.started ≡ true
      → Stands (after_next (take_first o l).0) (take_first o l).1
  next-Stands o [] e h = ground arith
  next-Stands o (uri ∷ rest) e h = h

  decide-Stands :
      (p : Publication D) (o : Outbox D) (current : Bool)
      → o.started ≡ true
      → Stands (if not current || o.cancelled then draining else sending p) o
  decide-Stands p o current h = ground arith

  next-stopped_empty :
      (o : Outbox D) (l : List Text)
      → o.order ≡ l
      → (o.stopped ≡ true → is_empty o.order ≡ true)
      → (take_first o l).1.stopped ≡ true
      → is_empty (take_first o l).1.order ≡ true
  next-stopped_empty o [] e h k = h k
  next-stopped_empty o (uri ∷ rest) e h k = ground (arith, ap is_empty e, h k)

  next_step-IsLive : (s : System D) → IsLive s → s.phase ≡ draining → IsLive (next_step s)
  unfolding next_step
  next_step-IsLive s v p = record {
    valid = next-IsValid s.outbox v.valid;
    stands = next-Stands s.outbox s.outbox.order refl (subst (λ q. Stands q s.outbox) p v.stands);
    stopped_empty = next-stopped_empty s.outbox s.outbox.order refl v.stopped_empty;
    cancelled_stopped = go s.outbox.order;
  }
    where
      go :
          (l : List Text)
          → (take_first s.outbox l).1.cancelled ≡ true
          → (take_first s.outbox l).1.stopped ≡ true
      go [] h = v.cancelled_stopped h
      go (uri ∷ rest) h = v.cancelled_stopped h

  Sender-IsLive : {s t : System D} → SenderStep s t → IsLive s → IsLive t
  unfolding check_step decide_step publish_step
  Sender-IsLive {s} (woken p w) v = record {
    valid = record { distinct = v.valid.distinct; agree = v.valid.agree };
    stands = (subst (λ q. Stands q s.outbox) p v.stands).0;
    stopped_empty = v.stopped_empty;
    cancelled_stopped = v.cancelled_stopped;
  }
  Sender-IsLive {s} (done p c) v = record {
    valid = v.valid;
    stands = ((subst (λ q. Stands q s.outbox) p v.stands).0, v.cancelled_stopped c);
    stopped_empty = v.stopped_empty;
    cancelled_stopped = v.cancelled_stopped;
  }
  Sender-IsLive {s} (taken p) v = next_step-IsLive s v p
  Sender-IsLive {s} (checks p h) v = record {
    valid = v.valid;
    stands = subst (λ q. Stands q s.outbox) h v.stands;
    stopped_empty = v.stopped_empty;
    cancelled_stopped = v.cancelled_stopped;
  }
  Sender-IsLive {s} (decides p current h) v = record {
    valid = v.valid;
    stands = decide-Stands p s.outbox current (subst (λ q. Stands q s.outbox) h v.stands);
    stopped_empty = v.stopped_empty;
    cancelled_stopped = v.cancelled_stopped;
  }
  Sender-IsLive {s} (publishes p h) v = record {
    valid = v.valid;
    stands = subst (λ q. Stands q s.outbox) h v.stands;
    stopped_empty = v.stopped_empty;
    cancelled_stopped = v.cancelled_stopped;
  }

  enqueue-flags :
      (o : Outbox D) (uri : Text) (ds : List D) (g : Option ℕ)
      → ((enqueue o uri ds g).stopped ≡ o.stopped) × ((enqueue o uri ds g).cancelled ≡ o.cancelled)
  unfolding enqueue
  enqueue-flags o uri ds g = ground arith

  enqueue-stopped_empty :
      (o : Outbox D) (uri : Text) (ds : List D) (g : Option ℕ)
      → (o.stopped ≡ true → is_empty o.order ≡ true)
      → (enqueue o uri ds g).stopped ≡ true
      → is_empty (enqueue o uri ds g).order ≡ true
  unfolding enqueue
  enqueue-stopped_empty o uri ds g h = ground arith

  stop_on-IsLive :
      (p : Phase D) (o : Outbox D) (e : Event)
      → IsValid o
      → Stands p o
      → (o.stopped ≡ true → is_empty o.order ≡ true)
      → (o.cancelled ≡ true → o.stopped ≡ true)
      → IsValid (stop_on e o)
        × Stands p (stop_on e o)
        × ((stop_on e o).stopped ≡ true → is_empty (stop_on e o).order ≡ true)
        × ((stop_on e o).cancelled ≡ true → (stop_on e o).stopped ≡ true)
  stop_on-IsLive p o Lifecycle.Event.shut_down v h k c =
      (stop-IsValid o, stop-Stands p o h, unfold stop in λ e. refl, unfold stop in λ e. refl)
  stop_on-IsLive p o _ v h k c = (v, h, k, c)

  Step-IsLive : {s t : System D} → Step s t → IsLive s → IsLive t
  unfolding enqueue_step request_step
  Step-IsLive {s} (enqueued uri ds g) v =
      let (stopped, cancelled) = enqueue-flags s.outbox uri ds g in
      record {
        valid = enqueue-IsValid s.outbox uri ds g v.valid;
        stands = enqueue-Stands s.phase s.outbox uri ds g v.stands;
        stopped_empty = enqueue-stopped_empty s.outbox uri ds g v.stopped_empty;
        cancelled_stopped = λ h. stopped ∙ v.cancelled_stopped (sym cancelled ∙ h);
      }
  Step-IsLive {s} (requested e) v =
      let (valid, stands, empty, off) =
        stop_on-IsLive s.phase s.outbox e v.valid v.stands v.stopped_empty v.cancelled_stopped in
      record { valid = valid; stands = stands; stopped_empty = empty; cancelled_stopped = off }
  Step-IsLive (sends st) v = Sender-IsLive st v

  pub Reach-IsLive : {s t : System D} → IsLive s → Reach s t → IsLive t
  Reach-IsLive v here = v
  Reach-IsLive v (onward r st) = Step-IsLive st (Reach-IsLive v r)

  -- In every reachable state: a sender that waits while documents are queued has a wake-up waiting
  -- for it, and while documents are queued the sender was started and has not returned.
  pub no_lost_wakeup :
      {s : System D}
      → Reach initial s
      → (s.phase ≡ waiting → s.outbox.order ≢ [] → s.outbox.wake ≡ true)
        × (s.outbox.order ≢ [] → (s.phase ≢ absent) × (s.phase ≢ returned))
  no_lost_wakeup {s} r =
      let v = Reach-IsLive initial-IsLive r in
      let stands_at =
        λ (p : Phase D) (e : s.phase ≡ p). subst (λ q. Stands q s.outbox) e v.stands in
      (
        λ e work. ground (arith, (stands_at waiting e).1, not_empty s.outbox.order work),
        λ work. (
          λ e. ground (arith, (stands_at absent e).1, not_empty s.outbox.order work),
          λ e.
              ground
                (arith, v.stopped_empty (stands_at returned e).1, not_empty s.outbox.order work),
        ),
      )

  -- A stop empties the queue, so the sender's context is live while there is work.
  pub not_cancelled : {s : System D} → IsLive s → s.outbox.order ≢ [] → s.outbox.cancelled ≡ false
  not_cancelled {s} v work =
      let stopped_empty = v.stopped_empty in
      let cancelled_stopped = v.cancelled_stopped in ground (arith, not_empty s.outbox.order work)
