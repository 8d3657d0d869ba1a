-- ===== src/Tests/Outbox.antt =====
-- The outbox of internal/lsp/diagnostic_outbox.go at work on two documents.
use bloblang_lsp.Common.{
  ℕ, ◌≤◌, ◌+◌, Text, true, Option, none, some, [], ◌∷◌, ◌++◌, ◌≡◌, ◌≢◌, refl, arith, codes,
  text_is_eq, length, if◌then◌else◌,
}
use bloblang_lsp.Common.Dict.{Dict, insert, lookup}
use bloblang_lsp.Lsp.Lifecycle
use bloblang_lsp.Lsp.Lifecycle.{Lifecycle, updated, begin_document_version, run, shutdown}
use bloblang_lsp.Lsp.Lifecycle.Contexts.{initial-IsValid}
use bloblang_lsp.Lsp.Lifecycle.Run.{run-IsValid}
use bloblang_lsp.Lsp.Lifecycle.Versions.{IsReplaced}
use bloblang_lsp.Lsp.Outbox.{Publication, Outbox, empty, publication, enqueue, next}
use bloblang_lsp.Lsp.Outbox.Queue.{
  IsValid, view, pop_front, flags, empty-IsValid, enqueue-IsValid, enqueue-view, next-view,
}
use bloblang_lsp.Lsp.Outbox.Sender
use bloblang_lsp.Lsp.Outbox.Sender.{
  Phase, waiting, draining, absent, returned, holding, checked, sending, System, enqueue_step,
  check_step, decide_step, publish_step, Reach, here, onward, enqueued, sends, checks, decides,
  publishes, Runs,
}
use bloblang_lsp.Lsp.Outbox.Sender.Live.{no_lost_wakeup}
use bloblang_lsp.Lsp.Outbox.Sender.Progress.{keep, queue_served}
use bloblang_lsp.Lsp.Outbox.Sender.Stale.{count_made, replaced_not_published}
use bloblang_lsp.Lsp.Outbox.Sender.Shutdown.{in_flight, stopped_sends_no_more}

abbrev uri_a : Text
uri_a = codes "a.blobl"

abbrev uri_b : Text
uri_b = codes "b.blobl"

abbrev one_queued : Outbox ℕ
one_queued = enqueue empty uri_a (7 ∷ []) none

abbrev two_queued : Outbox ℕ
two_queued = enqueue one_queued uri_b (8 ∷ []) none

two_queued-IsValid : IsValid two_queued
two_queued-IsValid =
    enqueue-IsValid one_queued uri_b (8 ∷ []) none
      (enqueue-IsValid empty uri_a (7 ∷ []) none empty-IsValid)

enqueue-view_example : view (enqueue two_queued uri_a (9 ∷ []) (some 3)) ≡ (
    if two_queued.stopped
    then view two_queued
    else insert uri_a (publication uri_a (9 ∷ []) (some 3)) (view two_queued))
enqueue-view_example = enqueue-view two_queued uri_a (9 ∷ []) (some 3) two_queued-IsValid

next-view_example :
    ◌≡◌ {A = Option (Publication ℕ) × Dict Text (Publication ℕ)}
      ((next two_queued).0, view (next two_queued).1)
      (pop_front (view two_queued))
    × IsValid (next two_queued).1
    × (flags (next two_queued).1 ≡ flags two_queued)
next-view_example = next-view two_queued two_queued-IsValid

-- A second publication for a document takes the place of the first.
replaced_in_place : (enqueue two_queued uri_a (9 ∷ []) none).order ≡ uri_a ∷ uri_b ∷ []
unfolding enqueue lookup insert
replaced_in_place = refl

abbrev one_waiting : System ℕ
one_waiting = enqueue_step Sender.initial uri_a (7 ∷ []) none

one_waiting-Reach : Reach Sender.initial one_waiting
one_waiting-Reach = onward here (enqueued uri_a (7 ∷ []) none)

queue_served_example :
    (t : System ℕ) × Runs one_waiting t
    × (t.phase ≡ waiting)
    × (t.outbox.order ≡ [])
    × (t.sent ≡ one_waiting.sent ++ keep one_waiting.life (view one_waiting.outbox))
unfolding enqueue_step lookup insert
queue_served_example = queue_served one_waiting-Reach refl (cc)

no_lost_wakeup_example :
    (one_waiting.phase ≡ waiting → one_waiting.outbox.order ≢ [] → one_waiting.outbox.wake ≡ true)
    × (one_waiting.outbox.order ≢ []
        → (one_waiting.phase ≢ absent) × (one_waiting.phase ≢ returned))
no_lost_wakeup_example = no_lost_wakeup one_waiting-Reach

-- The document was edited: version 1 is replaced by version 2, and a publication for version 1
-- stands before its check.
abbrev edited : Lifecycle
edited = run Lifecycle.initial (updated uri_a true ∷ updated uri_a true ∷ [])

edited-IsReplaced : IsReplaced uri_a 1 edited
unfolding run lookup insert
edited-IsReplaced = record {
  valid =
      run-IsValid Lifecycle.initial (updated uri_a true ∷ updated uri_a true ∷ []) initial-IsValid;
  positive = omega arith;
  given = omega arith;
  replaced = omega arith;
}

abbrev old_publication : Publication ℕ
old_publication = publication uri_a (7 ∷ []) (some 1)

abbrev held : System ℕ
held = record { life = edited; outbox = empty; phase = holding old_publication; sent = [] }

abbrev checked_held : System ℕ
checked_held = check_step held old_publication

checked_held-Reach : Reach held checked_held
checked_held-Reach = onward here (sends (checks old_publication refl))

replaced_not_published_example : count_made uri_a 1 checked_held.sent ≡ count_made uri_a 1 held.sent
unfolding check_step run lookup insert
replaced_not_published_example =
    replaced_not_published uri_a 1 edited-IsReplaced refl checked_held-Reach (omega arith)

-- Shut down with a publication about to be sent.
abbrev ending : System ℕ
ending = record {
  life = shutdown edited;
  outbox = empty;
  phase = sending old_publication;
  sent = [];
}

abbrev ended : System ℕ
ended = publish_step ending old_publication

ended-Reach : Reach ending ended
ended-Reach = onward here (sends (publishes old_publication refl))

stopped_sends_no_more_example : length ended.sent ≤ length ending.sent + in_flight ending.phase
unfolding shutdown
stopped_sends_no_more_example = stopped_sends_no_more refl ended-Reach
