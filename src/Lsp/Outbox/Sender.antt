-- ===== src/Lsp/Outbox/Sender.antt =====
-- The sender goroutine of internal/lsp/diagnostic_outbox.go beside the requests: every step
-- that takes a mutex is one step of the system, and the steps of the two sides interleave freely.
pub mod Stale
pub mod Live
pub mod Progress
pub mod Shutdown
use bloblang_lsp.Common.{
  ℕ, Text, Bool, true, false, ◌&&◌, ◌||◌, not, Option, none, some, List, [], ◌∷◌, ◌++◌, ◌≡◌,
  if◌then◌else◌, ◌==◌,
}
use bloblang_lsp.Lsp.Lifecycle.{Lifecycle, Event, handle, host_document_uri, latest}
use bloblang_lsp.Lsp.Lifecycle
use bloblang_lsp.Lsp.Outbox.{Publication, Outbox, enqueue, next, stop, empty}

-- Where the sender stands: not yet started; at the outer `select`; at `next`; with a publication
-- before the lock of the handler; with the value of `current`; about to publish; returned.
pub data Phase (D : Type 0) : Type 0 where
  absent : Phase D
  waiting : Phase D
  draining : Phase D
  holding : Publication D → Phase D
  checked : Publication D → Bool → Phase D
  sending : Publication D → Phase D
  returned : Phase D

-- `sent` lists the publications handed to the client, oldest first; the program keeps no such list.
pub record System (D : Type 0) : Type 0 where
  pub life : Lifecycle
  pub outbox : Outbox D
  pub phase : Phase D
  pub sent : List (Publication D)

module _ {D : Type 0} where
  abbrev pub initial : System D
  initial = record { life = Lifecycle.initial; outbox = empty; phase = absent; sent = [] }

  -- The value of `current`, read under the handler's mutex.
  unfoldable pub is_current : Lifecycle → Publication D → Bool
  is_current l p =
      not l.stopped
      && (not p.check_generation || (latest l (host_document_uri p.uri) == p.generation))

  -- The first enqueue starts the sender.
  abbrev pub started_phase : Bool → Phase D → Phase D
  started_phase true p = p
  started_phase false p = waiting

  unfoldable pub enqueue_step : System D → Text → List D → Option ℕ → System D
  unfolding enqueue
  enqueue_step s uri ds g = record s {
    outbox = enqueue s.outbox uri ds g;
    phase = if s.outbox.stopped then s.phase else started_phase s.outbox.started s.phase;
  }

  -- `Shutdown` also stops the outbox.
  abbrev pub stop_on : Event → Outbox D → Outbox D
  stop_on Lifecycle.Event.shut_down o = stop o
  stop_on _ o = o

  unfoldable pub request_step : System D → Event → System D
  unfolding handle stop
  request_step s e = record s { life = handle s.life e; outbox = stop_on e s.outbox }

  -- The outer `select`: on `wake`, and on `ctx.Done()`.
  abbrev pub wake_step : System D → System D
  wake_step s = record s { outbox = record (s.outbox) { wake = false }; phase = draining }

  abbrev pub done_step : System D → System D
  done_step s = record s { phase = returned }

  -- `next`, and the branch on its second result.
  abbrev pub after_next : Option (Publication D) → Phase D
  after_next none = waiting
  after_next (some p) = holding p

  unfoldable pub next_step : System D → System D
  unfolding next
  next_step s = let r = next s.outbox in record s { outbox = r.1; phase = after_next r.0 }

  unfoldable pub check_step : System D → Publication D → System D
  unfolding is_current
  check_step s p = record s { phase = checked p (is_current s.life p) }

  -- `if !current || ctx.Err() != nil { continue }`
  unfoldable pub decide_step : System D → Publication D → Bool → System D
  decide_step s p current = record s {
    phase = if not current || s.outbox.cancelled then draining else sending p;
  }

  -- A failed write is only logged.
  unfoldable pub publish_step : System D → Publication D → System D
  publish_step s p = record s { phase = draining; sent = s.sent ++ p ∷ [] }

  -- A step of the sender goroutine.
  pub data SenderStep (s : System D) : System D → Type 0 where
    woken : s.phase ≡ waiting → s.outbox.wake ≡ true → SenderStep s (wake_step s)
    done : s.phase ≡ waiting → s.outbox.cancelled ≡ true → SenderStep s (done_step s)
    taken : s.phase ≡ draining → SenderStep s (next_step s)
    checks : (p : Publication D) → s.phase ≡ holding p → SenderStep s (check_step s p)
    decides :
        (p : Publication D) (current : Bool)
        → s.phase ≡ checked p current
        → SenderStep s (decide_step s p current)
    publishes : (p : Publication D) → s.phase ≡ sending p → SenderStep s (publish_step s p)

  -- A step of the system: any goroutine enqueues, a request is handled, or the sender moves.
  pub data Step (s : System D) : System D → Type 0 where
    enqueued : (uri : Text) (ds : List D) (g : Option ℕ) → Step s (enqueue_step s uri ds g)
    requested : (e : Event) → Step s (request_step s e)
    sends : {t : System D} → SenderStep s t → Step s t

  pub data Reach (s : System D) : System D → Type 0 where
    here : Reach s s
    onward : {t u : System D} → Reach s t → Step t u → Reach s u

  -- The sender alone.
  pub data Runs (s : System D) : System D → Type 0 where
    still : Runs s s
    moved : {t u : System D} → Runs s t → SenderStep t u → Runs s u

  pub Runs-trans : {s t u : System D} → Runs s t → Runs t u → Runs s u
  Runs-trans r still = r
  Runs-trans r (moved r' st) = moved (Runs-trans r r') st

  pub Runs-Reach : {s t : System D} → Runs s t → Reach s t
  Runs-Reach still = here
  Runs-Reach (moved r st) = onward (Runs-Reach r) (sends st)
