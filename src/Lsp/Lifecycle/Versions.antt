-- ===== src/Lsp/Lifecycle/Versions.antt =====
-- Versions of internal/lsp/lifecycle.go only grow, so that one which was replaced never returns
-- as long as the 64-bit counter has not wrapped around.
use bloblang_lsp.Common.{
  ℕ, ◌+◌, ◌%◌, ◌^◌, ◌≤◌, ◌<◌, Text, Bool, true, false, none, some, List, [], ◌∷◌, ◌≢◌, arith,
  text_is_eq, nat_eq, if◌then◌else◌, codes,
}
use bloblang_lsp.Common.Dict.{lookup, lookup-insert, lookup-remove}
use bloblang_lsp.Common.Strings.{has_part}
use bloblang_lsp.Lsp.Lifecycle.{
  Lifecycle, begin_document_version, did_close, begin_hosts, begin_one, Event, updated, closed,
  watched, shut_down, handle, or_same, latest,
}
use bloblang_lsp.Lsp.Lifecycle.Run.{handle-IsValid}
use bloblang_lsp.Lsp.Lifecycle.Contexts.{IsValid, begin_document_version-IsValid}

begin_one-created-le : (l : Lifecycle) (uri : Text) → l.created ≤ (begin_one l uri).created
unfolding begin_document_version
begin_one-created-le l uri = ground arith

begin_hosts-created-le :
    (l : Lifecycle) (uris : List Text) → l.created ≤ (begin_hosts l uris).created
unfolding begin_hosts
begin_hosts-created-le l [] = omega arith
begin_hosts-created-le l (uri ∷ uris) =
    omega (arith, begin_one-created-le l uri, begin_hosts-created-le (begin_one l uri) uris)

pub handle-created-le : (l : Lifecycle) (e : Event) → l.created ≤ (handle l e).created
unfolding handle
handle-created-le l (updated uri accepted) = ground arith
handle-created-le l (closed uri) = omega arith
handle-created-le l (watched uris) = ground (arith, begin_hosts-created-le l uris)
handle-created-le l shut_down = omega arith

-- `g` was a version of `u` and no longer is.
pub record IsReplaced (u : Text) (g : ℕ) (l : Lifecycle) : Type 0 where
  pub valid : IsValid l
  pub positive : 0 < g
  pub given : g ≤ l.created
  pub replaced : latest l u ≢ g

module _ (u : Text) (g : ℕ) where
  begin-IsReplaced :
      (l : Lifecycle) (uri : Text)
      → IsReplaced u g l
      → l.created + 1 < 2 ^ 64
      → IsReplaced u g (begin_document_version l uri)
  begin-IsReplaced l uri r b = record {
    valid = begin_document_version-IsValid l uri r.valid;
    positive = r.positive;
    given = unfold begin_document_version in omega (arith, r.given);
    replaced =
        unfold begin_document_version in
        let next_exact = r.valid.next_exact in
        let old = r.replaced in
        let given = r.given in
        ground (arith, lookup-insert uri u ((l.next_version + 1) % 2 ^ 64) l.latest_version);
  }

  begin_hosts-IsReplaced :
      (l : Lifecycle) (uris : List Text)
      → IsReplaced u g l
      → (begin_hosts l uris).created < 2 ^ 64
      → IsReplaced u g (begin_hosts l uris)
  unfolding begin_hosts
  begin_hosts-IsReplaced l [] r b = r
  begin_hosts-IsReplaced l (uri ∷ uris) r b =
      begin_hosts-IsReplaced (begin_one l uri) uris (go (has_part (codes "#bloblang-") uri) small) b
    where
      m : Lifecycle
      m = begin_document_version l uri

      small : (begin_one l uri).created < 2 ^ 64
      small = omega (arith, begin_hosts-created-le (begin_one l uri) uris)

      go : (t : Bool) → (if t then l else m).created < 2 ^ 64 → IsReplaced u g (if t then l else m)
      go true s = r
      go false s = begin-IsReplaced l uri r (unfold begin_document_version in s)

  close-IsReplaced :
      (l : Lifecycle) (uri : Text) → IsReplaced u g l → latest (did_close l uri) u ≢ g
  unfolding did_close
  close-IsReplaced l uri r =
      let old = r.replaced in
      let positive = r.positive in ground (arith, lookup-remove uri u l.latest_version)

  update-IsReplaced :
      (l m : Lifecycle) (refused accepted : Bool)
      → IsReplaced u g l
      → (m.created < 2 ^ 64 → IsReplaced u g m)
      → let r = or_same l (if refused then none else if accepted then some m else none) in
        r.created < 2 ^ 64 → IsReplaced u g r
  update-IsReplaced l m true accepted r k b = r
  update-IsReplaced l m false true r k b = k b
  update-IsReplaced l m false false r k b = r

  watched-IsReplaced :
      (l : Lifecycle) (uris : List Text) (stopped : Bool)
      → IsReplaced u g l
      → (if stopped then l else begin_hosts l uris).created < 2 ^ 64
      → IsReplaced u g (if stopped then l else begin_hosts l uris)
  watched-IsReplaced l uris true r b = r
  watched-IsReplaced l uris false r b = begin_hosts-IsReplaced l uris r b

  -- A version that is replaced stays replaced, whatever the request.
  pub handle-IsReplaced :
      (l : Lifecycle) (e : Event)
      → IsReplaced u g l
      → (handle l e).created < 2 ^ 64
      → IsReplaced u g (handle l e)
  unfolding handle
  handle-IsReplaced l (updated uri accepted) r b =
      update-IsReplaced l (begin_document_version l uri) l.stopped accepted r
        (λ small. begin-IsReplaced l uri r small) b
  handle-IsReplaced l (closed uri) r b = record {
    valid = handle-IsValid l (closed uri) r.valid;
    positive = r.positive;
    given = r.given;
    replaced = close-IsReplaced l uri r;
  }
  handle-IsReplaced l (watched uris) r b = watched-IsReplaced l uris l.stopped r b
  handle-IsReplaced l shut_down r b = record {
    valid = handle-IsValid l shut_down r.valid;
    positive = r.positive;
    given = r.given;
    replaced = let positive = r.positive in unfold lookup in omega arith;
  }
