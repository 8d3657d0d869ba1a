-- ===== src/Lsp/Outbox.antt =====
-- The diagnostic outbox of internal/lsp/diagnostic_outbox.go: one pending publication for each
-- document, in the order in which the documents were first queued.
-- `started` says that `pending` is not nil: the first enqueue makes the map, the channel and the
-- sender. `wake` is the content of the channel of capacity one. `cancelled` is the error state of
-- the sender's context.
pub mod Queue
pub mod Sender
use bloblang_lsp.Common.{
  ℕ, Text, Bool, true, false, Option, none, some, List, [], ◌∷◌, ◌++◌, if◌then◌else◌, text_is_eq,
}
use bloblang_lsp.Common.Dict.{Dict, lookup, insert, remove}

-- `params` is split into its two fields; `D` is the protocol's type of a diagnostic.
pub record Publication (D : Type 0) : Type 0 where
  pub uri : Text
  pub diagnostics : List D
  pub generation : ℕ
  pub check_generation : Bool

pub record Outbox (D : Type 0) : Type 0 where
  pub pending : Dict Text (Publication D)
  pub order : List Text
  pub started : Bool
  pub wake : Bool
  pub cancelled : Bool
  pub stopped : Bool

module _ {D : Type 0} where
  abbrev pub empty : Outbox D
  empty = record {
    pending = [];
    order = [];
    started = false;
    wake = false;
    cancelled = false;
    stopped = false;
  }

  -- The publication that `enqueueDiagnostics` builds; the generation is a variadic argument.
  unfoldable pub publication : Text → List D → Option ℕ → Publication D
  publication uri diagnostics none = record {
    uri = uri;
    diagnostics = diagnostics;
    generation = 0;
    check_generation = false;
  }
  publication uri diagnostics (some g) = record {
    uri = uri;
    diagnostics = diagnostics;
    generation = g;
    check_generation = true;
  }

  -- The zero value that a read of a missing key gives.
  abbrev pub no_publication : Publication D
  no_publication = record { uri = []; diagnostics = []; generation = 0; check_generation = false }

  abbrev pub get_or_zero : Option (Publication D) → Publication D
  get_or_zero none = no_publication
  get_or_zero (some p) = p

  abbrev pub append_new : Text → Option (Publication D) → List Text → List Text
  append_new uri none order = order ++ uri ∷ []
  append_new uri (some _) order = order

  unfoldable pub enqueue : Outbox D → Text → List D → Option ℕ → Outbox D
  unfolding publication
  enqueue o uri diagnostics generation = if o.stopped then o else record o {
    pending = insert uri (publication uri diagnostics generation) o.pending;
    order = append_new uri (lookup uri o.pending) o.order;
    started = true;
    wake = true;
  }

  -- `next`, by the queue that it finds.
  abbrev pub take_first : Outbox D → List Text → Option (Publication D) × Outbox D
  take_first o [] = (none, o)
  take_first o (uri ∷ rest) = (
    some (get_or_zero (lookup uri o.pending)),
    record o { pending = remove uri o.pending; order = rest },
  )

  unfoldable pub next : Outbox D → Option (Publication D) × Outbox D
  next o = take_first o o.order

  -- The context exists only once the sender was started.
  unfoldable pub stop : Outbox D → Outbox D
  stop o = record o {
    pending = [];
    order = [];
    cancelled = if o.started then true else o.cancelled;
    stopped = true;
  }
