-- ===== src/Lsp/Lifecycle.antt =====
-- The document lifecycle of internal/lsp/handler.go and internal/lsp/lifecycle.go: the versions
-- and the cancellation contexts of open documents. All of it runs under the handler's mutex.
-- A context is named by its number of creation, from 1. The maps `documentContexts` and
-- `documentCancels` always get and lose the same keys, and stand here as one.
pub mod Contexts
pub mod Run
pub mod Versions
use bloblang_lsp.Common.{
  ℕ, suc, ◌+◌, ◌%◌, ◌^◌, Text, Bool, true, false, ◌||◌, Option, none, some, List, [], ◌∷◌, ◌++◌,
  if◌then◌else◌, text_is_eq, codes,
}
use bloblang_lsp.Common.Dict.{Dict, lookup, insert, remove}
use bloblang_lsp.Common.Strings.{before, has_part}

-- The document that hosts an embedded mapping's virtual document.
unfoldable pub host_document_uri : Text → Text
unfolding before
host_document_uri uri = before (codes "#bloblang-") uri

-- `created` counts the contexts, and is not in the program. Go's uint64 wraps around.
pub record Lifecycle : Type 0 where
  pub latest_version : Dict Text ℕ
  pub next_version : ℕ
  pub contexts : Dict Text ℕ
  pub cancelled : List ℕ
  pub created : ℕ
  pub stopped : Bool

abbrev pub initial : Lifecycle
initial = record {
  latest_version = [];
  next_version = 0;
  contexts = [];
  cancelled = [];
  created = 0;
  stopped = false;
}

-- `if cancel := …; cancel != nil { cancel() }`
abbrev pub cancel : Option ℕ → List ℕ → List ℕ
cancel none cs = cs
cancel (some c) cs = c ∷ cs

-- The loop of `Shutdown` over the cancel functions.
abbrev pub cancel_all : Dict Text ℕ → List ℕ → List ℕ
cancel_all [] cs = cs
cancel_all ((uri, c) ∷ m) cs = c ∷ cancel_all m cs

unfoldable pub begin_document_version : Lifecycle → Text → Lifecycle
begin_document_version l uri = record l {
  latest_version = insert uri ((l.next_version + 1) % 2 ^ 64) l.latest_version;
  next_version = (l.next_version + 1) % 2 ^ 64;
  contexts = insert uri (l.created + 1) l.contexts;
  cancelled = cancel (lookup uri l.contexts) l.cancelled;
  created = l.created + 1;
}

-- `DidOpen` and `DidChange`: refused after a shutdown, or when the document store refuses the
-- change (`accepted`); `none` is the error.
unfoldable pub did_update : Lifecycle → Text → Bool → Option Lifecycle
unfolding begin_document_version
did_update l uri accepted =
    if l.stopped then none else if accepted then some (begin_document_version l uri) else none

unfoldable pub did_close : Lifecycle → Text → Lifecycle
did_close l uri = record l {
  latest_version = remove uri l.latest_version;
  contexts = remove uri l.contexts;
  cancelled = cancel (lookup uri l.contexts) l.cancelled;
}

unfoldable pub shutdown : Lifecycle → Lifecycle
shutdown l = record l {
  latest_version = [];
  contexts = [];
  cancelled = cancel_all l.contexts l.cancelled;
  stopped = true;
}

-- `latestVersion[uri]`, which is 0 for a missing key
abbrev pub version_or_zero : Option ℕ → ℕ
version_or_zero none = 0
version_or_zero (some v) = v

abbrev pub latest : Lifecycle → Text → ℕ
latest l uri = version_or_zero (lookup uri l.latest_version)

-- `DidChangeWatchedFiles`, over the store's documents: each host document gets a new version.
abbrev pub begin_one : Lifecycle → Text → Lifecycle
begin_one l uri = if has_part (codes "#bloblang-") uri then l else begin_document_version l uri

begin_hosts : Lifecycle → List Text → Lifecycle
begin_hosts l [] = l
begin_hosts l (uri ∷ uris) = begin_hosts (begin_one l uri) uris

unfoldable pub did_change_watched_files : Lifecycle → List Text → Lifecycle
unfolding begin_hosts has_part begin_document_version
did_change_watched_files l uris = if l.stopped then l else begin_hosts l uris

-- The requests that change the lifecycle. `watched` carries the documents of the store.
pub data Event : Type 0 where
  updated : Text → Bool → Event
  closed : Text → Event
  watched : List Text → Event
  shut_down : Event

-- A refused update leaves the state as it was.
abbrev pub or_same : Lifecycle → Option Lifecycle → Lifecycle
or_same l none = l
or_same l (some l') = l'

unfoldable pub handle : Lifecycle → Event → Lifecycle
unfolding did_update did_close did_change_watched_files shutdown
handle l (updated uri accepted) = or_same l (did_update l uri accepted)
handle l (closed uri) = did_close l uri
handle l (watched uris) = did_change_watched_files l uris
handle l shut_down = shutdown l

unfoldable pub run : Lifecycle → List Event → Lifecycle
unfolding handle
run l [] = l
run l (e ∷ es) = run (handle l e) es
