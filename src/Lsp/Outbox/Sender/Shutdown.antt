-- ===== src/Lsp/Outbox/Sender/Shutdown.antt =====
-- What `Shutdown` of internal/lsp/handler.go leaves of the sender.
use bloblang_lsp.Common.{
  ℕ, ◌+◌, ◌≤◌, Bool, true, false, not, ◌||◌, Option, none, some, [], ◌∷◌, ◌≡◌, refl, ap, arith,
  if◌then◌else◌, length, length-append,
}
use bloblang_lsp.Lsp.Lifecycle.{Lifecycle, Event, updated, closed, watched, shut_down, handle}
use bloblang_lsp.Lsp.Outbox.{Publication}
use bloblang_lsp.Lsp.Outbox.Sender.{
  Phase, draining, checked, sending, System, is_current, started_phase, after_next, enqueue_step,
  request_step, next_step, check_step, decide_step, publish_step, SenderStep, Step, sends, enqueued,
  requested, woken, done, taken, checks, decides, publishes, Reach, here, onward,
}

-- A stopped server stays stopped: every request that could change that is refused.
pub handle-stopped : (l : Lifecycle) (e : Event) → l.stopped ≡ true → (handle l e).stopped ≡ true
unfolding handle
handle-stopped l (updated uri accepted) h = ground arith
handle-stopped l (closed uri) h = h
handle-stopped l (watched uris) h = simp (h, h)
handle-stopped l shut_down h = refl

module _ {D : Type 0} where
  -- 1 if the sender has passed its check with a publication that it has not handed over yet.
  abbrev pub in_flight : Phase D → ℕ
  in_flight (checked p current) = if current then 1 else 0
  in_flight (sending p) = 1
  in_flight _ = 0

  record IsEnding (n : ℕ) (s : System D) : Type 0 where
    off : s.life.stopped ≡ true
    budget : length s.sent + in_flight s.phase ≤ n

  in_flight-enqueue :
      (p : Phase D) (stopped started : Bool)
      → in_flight (if stopped then p else started_phase started p) ≤ in_flight p
  in_flight-enqueue p true started = omega arith
  in_flight-enqueue p false true = omega arith
  in_flight-enqueue p false false = omega arith

  in_flight-next : (q : Option (Publication D)) → in_flight (after_next q) ≡ 0
  in_flight-next none = refl
  in_flight-next (some p) = refl

  in_flight-decide :
      (p : Publication D) (current cancelled : Bool)
      → in_flight (if not current || cancelled then draining else sending p)
        ≤ in_flight (checked p current)
  in_flight-decide p true true = omega arith
  in_flight-decide p true false = omega arith
  in_flight-decide p false cancelled = omega arith

  stopped-not_current :
      (l : Lifecycle) (p : Publication D) → l.stopped ≡ true → is_current l p ≡ false
  unfolding is_current
  stopped-not_current l p h = ground arith

  Sender-IsEnding : {n : ℕ} {s t : System D} → SenderStep s t → IsEnding n s → IsEnding n t
  unfolding next_step check_step decide_step publish_step
  Sender-IsEnding (woken p w) v = record { off = v.off; budget = omega (arith, v.budget) }
  Sender-IsEnding (done p c) v = record { off = v.off; budget = omega (arith, v.budget) }
  Sender-IsEnding (taken p) v = record {
    off = v.off;
    budget = omega (arith, v.budget, in_flight-next _);
  }
  Sender-IsEnding {s} (checks p h) v = record {
    off = v.off;
    budget = rw (stopped-not_current s.life p v.off) (omega (arith, v.budget));
  }
  Sender-IsEnding {s} (decides p current h) v = record {
    off = v.off;
    budget = omega (arith, v.budget, ap in_flight h, in_flight-decide p current s.outbox.cancelled);
  }
  Sender-IsEnding {s} (publishes p h) v = record {
    off = v.off;
    budget = omega (arith, v.budget, ap in_flight h, length-append s.sent (p ∷ []));
  }

  Step-IsEnding : {n : ℕ} {s t : System D} → Step s t → IsEnding n s → IsEnding n t
  unfolding enqueue_step request_step
  Step-IsEnding {s} (enqueued uri ds g) v = record {
    off = v.off;
    budget = omega (arith, v.budget, in_flight-enqueue s.phase s.outbox.stopped s.outbox.started);
  }
  Step-IsEnding {s} (requested e) v = record {
    off = handle-stopped s.life e v.off;
    budget = v.budget;
  }
  Step-IsEnding (sends st) v = Sender-IsEnding st v

  Reach-IsEnding : {n : ℕ} {s t : System D} → IsEnding n s → Reach s t → IsEnding n t
  Reach-IsEnding v here = v
  Reach-IsEnding v (onward r st) = Step-IsEnding st (Reach-IsEnding v r)

  -- Once the server is stopped, the client gets at most the one publication that had already
  -- passed its check, however the goroutines interleave and whatever is enqueued or requested.
  pub stopped_sends_no_more :
      {s t : System D}
      → s.life.stopped ≡ true
      → Reach s t
      → length t.sent ≤ length s.sent + in_flight s.phase
  stopped_sends_no_more {s} h r =
      let start : IsEnding (length s.sent + in_flight s.phase) s = record {
        off = h;
        budget = omega arith;
      } in
      omega (arith, (Reach-IsEnding start r).budget)
