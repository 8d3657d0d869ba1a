-- ===== src/Lsp/Lifecycle/Run.antt =====
-- Every run of the lifecycle of internal/lsp/handler.go from its start.
use bloblang_lsp.Common.{
  ℕ, ◌≤◌, ◌<◌, Text, Bool, true, false, none, some, List, [], ◌∷◌, ◌≡◌, ◌↔◌, text_is_eq, nat_eq,
  contains, if◌then◌else◌, Bool-cases, inl, inr, codes,
}
use bloblang_lsp.Common.Dict.{lookup}
use bloblang_lsp.Common.Strings.{has_part}
use bloblang_lsp.Lsp.Lifecycle.{
  Lifecycle, initial, begin_document_version, did_update, begin_hosts, Event, updated, closed,
  watched, shut_down, handle, run, or_same,
}
use bloblang_lsp.Lsp.Lifecycle.Contexts.{
  IsValid, initial-IsValid, begin_document_version-IsValid, did_close-IsValid, shutdown-IsValid,
}

-- Both branches of a guarded update, for any test.
guarded-IsValid :
    (l m : Lifecycle) (refused accepted : Bool)
    → IsValid l
    → IsValid m
    → IsValid (or_same l (if refused then none else if accepted then some m else none))
guarded-IsValid l m true accepted v w = v
guarded-IsValid l m false true v w = w
guarded-IsValid l m false false v w = v

did_update-IsValid :
    (l : Lifecycle) (uri : Text) (accepted : Bool)
    → IsValid l
    → IsValid (or_same l (did_update l uri accepted))
unfolding did_update
did_update-IsValid l uri accepted v =
    guarded-IsValid l (begin_document_version l uri) l.stopped accepted v
      (begin_document_version-IsValid l uri v)

begin_hosts-IsValid : (l : Lifecycle) (uris : List Text) → IsValid l → IsValid (begin_hosts l uris)
unfolding begin_hosts
begin_hosts-IsValid l [] v = v
begin_hosts-IsValid l (uri ∷ uris) v = elim (Bool-cases (has_part (codes "#bloblang-") uri)) [
  | inl e ↦ rw e (begin_hosts-IsValid l uris v)
  | inr e ↦ rw e (
      begin_hosts-IsValid (begin_document_version l uri) uris
        (begin_document_version-IsValid l uri v))
]

pub handle-IsValid : (l : Lifecycle) (e : Event) → IsValid l → IsValid (handle l e)
unfolding handle
handle-IsValid l (updated uri accepted) v = did_update-IsValid l uri accepted v
handle-IsValid l (closed uri) v = did_close-IsValid l uri v
handle-IsValid l (watched uris) v = elim (Bool-cases l.stopped) [
  | inl e ↦ simp e v
  | inr e ↦ simp e (begin_hosts-IsValid l uris v)
]
handle-IsValid l shut_down v = shutdown-IsValid l v

pub run-IsValid : (l : Lifecycle) (es : List Event) → IsValid l → IsValid (run l es)
unfolding run
run-IsValid l [] v = v
run-IsValid l (e ∷ es) v = run-IsValid (handle l e) es (handle-IsValid l e v)

-- After any sequence of requests from the start of the server, a context that was created is live
-- exactly when some document's newest context it is: every superseded or closed document's
-- validation is cancelled, and no current one is.
pub run_live_iff :
    (es : List Event) (c : ℕ)
    → 0 < c
    → c ≤ (run initial es).created
    → (contains (run initial es).cancelled c ≡ false)
      ↔ ((uri : Text) × (lookup uri (run initial es).contexts ≡ some c))
run_live_iff es c p b =
    let v = run-IsValid initial es initial-IsValid in (v.owned c p b, λ h. v.live h.0 c h.1)
