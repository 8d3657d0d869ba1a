-- ===== src/Tests/Lifecycle.antt =====
-- The lifecycle of internal/lsp/handler.go: an edit, a close and a shutdown.
use bloblang_lsp.Common.{
  Text, true, false, some, List, [], ◌∷◌, ◌≡◌, ◌↔◌, refl, arith, codes, text_is_eq, nat_eq,
  contains,
}
use bloblang_lsp.Common.Dict.{lookup, insert, remove}
use bloblang_lsp.Lsp.Lifecycle.{
  initial, Event, updated, closed, watched, shut_down, run, latest, host_document_uri,
}
use bloblang_lsp.Lsp.Lifecycle.Run.{run_live_iff}

abbrev uri_a : Text
uri_a = codes "a.yaml"

abbrev requests : List Event
requests =
    updated uri_a true ∷ updated uri_a true ∷ watched (uri_a ∷ codes "a.yaml#bloblang-0" ∷ []) ∷ []

run_live_iff_example :
    (contains (run initial requests).cancelled 3 ≡ false)
    ↔ ((uri : Text) × (lookup uri (run initial requests).contexts ≡ some 3))
unfolding run lookup insert
run_live_iff_example = run_live_iff requests 3 (omega arith) (omega arith)

embedded_host : host_document_uri (codes "a.yaml#bloblang-12") ≡ uri_a
unfolding host_document_uri
embedded_host = refl

-- The watched file gives the host a version and its embedded mapping none.
three_versions : (run initial requests).created ≡ 3
unfolding run lookup insert
three_versions = refl

closed_forgets : latest (run initial (updated uri_a true ∷ closed uri_a ∷ [])) uri_a ≡ 0
unfolding run lookup insert remove
closed_forgets = refl

refused_after_shutdown :
    run initial (shut_down ∷ updated uri_a true ∷ []) ≡ run initial (shut_down ∷ [])
unfolding run lookup insert
refused_after_shutdown = refl
