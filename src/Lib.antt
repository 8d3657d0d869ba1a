-- ===== src/Lib.antt =====
-- The Bloblang language server and its tools: what the concurrent and the textual core of the
-- program computes, and why it is correct.
--
-- Parts and how they interact. The editor's requests reach the handler (internal/lsp/handler.go),
-- which gives every change of a document a new version and a new cancellation context, invalidates
-- the results that the executor cached for the document, and starts a validation. Validations put
-- their diagnostics into an outbox (internal/lsp/diagnostic_outbox.go), from which one sender
-- goroutine publishes them, after a check against the newest version. Previews execute mappings
-- through the execution cache (internal/benthos/executor_cache.go). Formatting lays out the syntax
-- tree (internal/lsp/layout.go), and checks its own result token by token
-- (internal/lsp/formatting.go). Hover and completion read the text around the cursor
-- (internal/lsp/context.go). Apart from the server, suites of fixtures run mappings and check
-- their results (internal/mapping/fixtures.go). A mapping's head names the sample it is previewed
-- with (internal/benthos/sample.go), and a request to run a mapping is first resolved to sources
-- and inputs (internal/mapping/resolve.go). The settings of the linter and the formatter are those
-- of the nearest configuration file (internal/editorconfig). Positions of the editor are turned
-- into offsets and back (internal/lsp/positions.go). The documentation of the runtime is searched
-- by words and names (internal/help). The commands fmt and lint collect files, which ignore files
-- can leave out, and replace them (internal/cli). At its start the server turns the runtime's
-- descriptions into completions and hover texts (internal/benthos/cache.go and docs.go).
--
-- Which file models what; functions keep their names, in snake case.
--   Lsp/Lifecycle   beginDocumentVersion, hostDocumentURI, DidOpen, DidChange, DidClose, Shutdown
--                   and DidChangeWatchedFiles, as far as they touch versions and contexts. Requests
--                   hold the handler's mutex throughout, so each is one function of the state.
--                   Contexts are numbered by creation; `cancelled` lists those whose cancel function
--                   was called.
--   Lsp/Outbox      enqueueDiagnostics, next and stop. Queue gives the abstract view: one queue of
--                   publications, at most one for a document.
--   Lsp/Outbox/Sender
--                   sendDiagnostics as a step relation, one step for each piece between two
--                   synchronisations, interleaved with requests and enqueues by any goroutine.
--                   `sent` is the sequence of writes to the client.
--   Benthos/ExecutionCache
--                   cachedExecution, split where it releases the mutex: `enter` is the first
--                   critical section, `finish` the last, and the execution runs between them.
--                   `remove_element` is remove, `invalidate_document` is InvalidateDocument. List
--                   elements and flights carry numbers in place of addresses. Any sequence of
--                   sections is an interleaving of any number of callers.
--   Lsp/Layout      layout, flatLayout, layoutPrefixWidth and renderLayoutLineEnding, with the
--                   closure's builder and column as a record.
--   Lsp/Formatting  formatToken, trailingCollectionComma, tokens and equivalentFormatTokens over a
--                   data type of syntax trees; parents and siblings are passed down.
--   Lsp/Context     findTokenAtPosition, isMethodContext, isFunctionCallContext and
--                   getCompletionContext over lines of bytes.
--   Lsp/Positions   positionByte, bytePosition and byteColumn of internal/lsp/positions.go, over
--                   lists of code points: the texts are valid UTF-8.
--   Lsp/Embedded    the edits of internal/lsp/embedded_edits.go, over bytes and a function that parses
--                   YAML to trees; Regions has the scanners and offset maps of embedded.go.
--   Lsp/Signature   activeSignatureCall of internal/lsp/signature_help.go, and its labels.
--   Mapping/Fixtures
--                   the fixture suites of internal/mapping/fixtures.go: validate, RunSuite,
--                   mergeFixtureMaps, check, fixtureCompare and fixtureEqual. JsonLibrary holds what
--                   they take from encoding/json and math/big; the mapping's runner is a function of
--                   the request, and the answers of ctx.Err() are a function of their number.
--   Mapping/Resolve
--                   Resolve and SnapshotImports of internal/mapping/resolve.go. The parser, which
--                   calls the importer, is a function from the answers so far to the next name that
--                   it asks for; it stops at an error. `supplied` is the importer of Run in
--                   internal/mapping/runner.go. Host holds the libraries' operations.
--   Benthos/Sample  the directives of internal/benthos/sample.go: decodeSampleValue and
--                   normalizeNumbers, applySample, ReadSampleFile, loadSample and
--                   ExtractSampleWithSource. System holds the decoders and the file system; the map
--                   of handlers is a function of the directive's name.
--   Benthos/Completion
--                   BuildCompletionCache of internal/benthos/cache.go with its snippets and items,
--                   and BuildDocumentation and BuildAllDocs of internal/benthos/docs.go. The runtime
--                   is the list of the functions and the list of the methods that it walks.
--   Help            internal/help: Distance is editDistance, Excerpts the words and excerpts, Index the
--                   types and NewIndex, Ranking is rank, Search has Search and Get. Unicode and Costs
--                   hold the operations of the libraries; the build's versions are left out.
--   Cli             internal/cli: Discovery is discovery.go, Files and Files/Inputs are the inputs of
--                   files.go with their patterns, Replace is replaceFile there, and Tool has parseOptions
--                   and runTool of cli.go. The file system is a record of operations; it does not change
--                   during a discovery, and is a state in Replace and Tool; Replace takes each
--                   name for the file itself, without links that give a file two names. A directory's tree is data.
--   Editorconfig    the registry, Load and Setting of internal/editorconfig/config.go, and
--                   ResolveSource and SourceContext of internal/editorconfig/source.go. Paths holds
--                   the operations on paths and files; a directory's parents are a list.
--   Common          numbers, texts, lists and association lists, shared by all.
--   Tests           runs at concrete inputs.
--
-- Bounds and fuel. Versions are uint64 and wrap around; a theorem that needs them distinct says
-- so. Other numbers are Go ints that count bytes, columns or elements of data in memory, and do
-- not overflow. The eviction loop has the list's length and two as fuel: each turn removes an
-- element. The walks along a line have the rest of the line as fuel; each step moves one byte. The
-- import traversal counts down the 256 reads that the program allows, and fails when it needs one
-- more.
--
-- Interleavings. Where a request holds the handler's mutex, its parts are one step; the outbox's own
-- mutex makes an enqueue, a next and a stop one step each. Between the two writes of Shutdown the
-- sender can only take a publication that it then has to drop, since its check waits for the
-- handler's mutex.
--
-- Not modelled: the document store, regions, samples and other maps of the handler; timers and the
-- runs of validations; the tree-sitter parser, whose trees are data here; hashes, JSON and the
-- clock, whose values are arguments; the transport. The other commands and the remaining packages,
-- such as the schemas, have no model here.
pub mod Common
pub mod Lsp
pub mod Benthos
pub mod Mapping
pub mod Help
pub mod Cli
pub mod Editorconfig
mod Tests
