-- ===== src/Cli/Tool.antt =====
-- The commands fmt and lint of internal/cli/cli.go: parseOptions and runTool. The formatter and the
-- linter of the editor are given as functions.
pub mod Checking
pub mod Checks
use bloblang_lsp.Common.{
  ℕ, suc, ◌+◌, Text, Bool, true, false, not, ◌&&◌, ◌||◌, Option, none, some, List, [], ◌∷◌, ◌++◌,
  ◌==◌, ltb, if◌then◌else◌, codes, length, map, contains, text_eq, text_is_eq,
}
use bloblang_lsp.Common.Int.{ℤ, pos, below, above}
use bloblang_lsp.Common.Sorting.{text_ltb, sort}
use bloblang_lsp.Common.Strings.{is_nil}
use bloblang_lsp.Common.Result.{Result, ok, err, ◌>>=◌, with_error}
use bloblang_lsp.Cli.Discovery.{System}
use bloblang_lsp.Cli.Files.{InputFile, FilesError, Names, read_input}
use bloblang_lsp.Cli.Files.Inputs.{is_stdin, collect_inputs}
use bloblang_lsp.Cli.Replace.{FileSystem, Outcome, replace_file}

pub data Command : Type 0 where
  fmt lint : Command

pub record CommandOptions : Type 0 where
  pub write : Bool
  pub check : Bool
  pub fix : Bool
  pub no_ignore : Bool
  pub format : Text
  pub stdin_path : Text
  pub tab_size : ℤ

pub data UsageError : Type 0 where
  both_modes bad_tab_size bad_format stdin_among_paths stdin_updated path_for_files : UsageError

-- What the package `flag` makes of the arguments: a help text, an error, or options and paths.
pub data Flags : Type 0 where
  asks_help : Text → Flags
  bad_flags : Flags
  given_flags : CommandOptions → List Text → Flags

abbrev is_fmt : Command → Bool
is_fmt fmt = true
is_fmt lint = false

-- `parseOptions` behind the parsing of flags.
unfoldable pub check_options : Command → CommandOptions → List Text → Result UsageError (Unit {0})
check_options command opts paths =
    if opts.write && opts.check
    then err both_modes
    else if is_fmt command && (below opts.tab_size 1 || above opts.tab_size 8)
    then err bad_tab_size
    else if not (is_fmt command)
        && (not (text_eq opts.format (codes "text")) && not (text_eq opts.format (codes "json")))
    then err bad_format
    else if contains paths (codes "-") && not (is_stdin paths)
    then err stdin_among_paths
    else if is_stdin paths && (opts.write || opts.fix)
    then err stdin_updated
    else if not (is_stdin paths) && not (is_nil opts.stdin_path)
    then err path_for_files
    else ok tt

pub record ToolDiagnostic : Type 0 where
  pub line : ℕ
  pub column : ℕ
  pub end_line : ℕ
  pub end_column : ℕ
  pub severity : Text
  pub code : Text
  pub message : Text

pub record FileDiagnostic : Type 0 where
  pub file : Text
  pub diagnostic : ToolDiagnostic

pub record LintResult : Type 0 where
  pub text : Text
  pub diagnostics : List ToolDiagnostic

-- The first difference decides.
abbrev diagnostic_before : FileDiagnostic → FileDiagnostic → Bool
diagnostic_before x y =
    let a = x.diagnostic in
    let b = y.diagnostic in
    if not (text_eq x.file y.file)
    then text_ltb x.file y.file
    else if not (a.line == b.line)
    then ltb a.line b.line
    else if not (a.column == b.column)
    then ltb a.column b.column
    else if not (text_eq a.severity b.severity)
    then text_ltb a.severity b.severity
    else if not (text_eq a.code b.code)
    then text_ltb a.code b.code
    else text_ltb a.message b.message

-- The program's surroundings: files, the formatter and the linter of a path and a text, the numbers
-- in decimal, the JSON of the diagnostics, writing to the standard output with whether it succeeds,
-- and whether the context is cancelled at its n-th test.
pub record Surroundings (W : Type 0) : Type 0 where
  pub system_of : W → System
  pub fs : FileSystem W
  pub names : Names
  pub tool_format : Text → Text → ℤ → Option Text
  pub tool_lint : Text → Text → Bool → Option LintResult
  pub decimal : ℕ → Text
  pub encode : List FileDiagnostic → Text
  pub print : W → Text → W × Bool
  pub cancelled : ℕ → Bool

pub record Findings : Type 0 where
  pub exit_code : ℕ
  pub diagnostics : List FileDiagnostic

abbrev is_finding : Text → Bool
is_finding severity = text_eq severity (codes "error") || text_eq severity (codes "warn")

-- The diagnostics of one file.
unfoldable pub add_diagnostics : Text → Findings → List ToolDiagnostic → Findings
add_diagnostics path s [] = s
add_diagnostics path s (d ∷ ds) =
    add_diagnostics path
      (record {
        exit_code = if is_finding d.severity then 1 else s.exit_code;
        diagnostics = s.diagnostics ++ record { file = path; diagnostic = d } ∷ [];
      })
      ds

module _ {W : Type 0} (around : Surroundings W) where
  -- A step leaves the findings, or none where the command fails.
  abbrev pub ToolStep : Type 0
  ToolStep = W × Option Findings

  abbrev pub printed : W × Bool → Findings → ToolStep
  printed (w, true) s = (w, some s)
  printed (w, false) s = (w, none)

  abbrev pub replaced : Outcome around.fs → Findings → ToolStep
  replaced (w, none) s = (w, some s)
  replaced (w, some _) s = (w, none)

  abbrev format_written : W → Findings → Text → Text → Text → ToolStep
  format_written w s path text formatted =
      if text_eq formatted text
      then (w, some s)
      else replaced (replace_file around.fs w path text formatted) s

  abbrev format_checked : W → Findings → Text → Text → Text → ToolStep
  format_checked w s path text formatted =
      if text_eq formatted text
      then (w, some s)
      else printed (around.print w (path ++ codes "\n")) (record s { exit_code = 1 })

  abbrev pub format_done : W → CommandOptions → Findings → Text → Text → Option Text → ToolStep
  format_done w opts s path text none = (w, none)
  format_done w opts s path text (some formatted) =
      if opts.write
      then format_written w s path text formatted
      else if opts.check
      then format_checked w s path text formatted
      else printed (around.print w formatted) s

  abbrev lint_fixed : ToolStep → Text → List ToolDiagnostic → ToolStep
  lint_fixed (w, none) path ds = (w, none)
  lint_fixed (w, some s) path ds = (w, some (add_diagnostics path s ds))

  abbrev lint_done : W → CommandOptions → Findings → Text → Text → Option LintResult → ToolStep
  lint_done w opts s path text none = (w, none)
  lint_done w opts s path text (some r) =
      lint_fixed
        (if opts.fix && not (text_eq r.text text)
          then replaced (replace_file around.fs w path text r.text) s
          else (w, some s))
        path r.diagnostics

  abbrev pub handle_text :
      Command → W → CommandOptions → Findings → Text → Result FilesError Text → ToolStep
  handle_text command w opts s path (err _) = (w, none)
  handle_text fmt w opts s path (ok text) =
      format_done w opts s path text (around.tool_format path text opts.tab_size)
  handle_text lint w opts s path (ok text) =
      lint_done w opts s path text (around.tool_lint path text opts.fix)

  -- One input, the n-th.
  unfoldable pub handle_input : Command → CommandOptions → ℕ → W → Findings → InputFile → ToolStep
  unfolding replace_file read_input add_diagnostics
  handle_input command opts n w s f =
      if around.cancelled n
      then (w, none)
      else handle_text command w opts s f.path (read_input (around.system_of w) around.names f)

  abbrev pub and_next : ToolStep → (W → Findings → ToolStep) → ToolStep
  and_next (w, none) next = (w, none)
  and_next (w, some s) next = next w s

  unfoldable pub handle_inputs :
      Command → CommandOptions → ℕ → W → Findings → List InputFile → ToolStep
  unfolding handle_input
  handle_inputs command opts n w s [] = (w, some s)
  handle_inputs command opts n w s (f ∷ fs) =
      and_next (handle_input command opts n w s f)
        (λ w' s'. handle_inputs command opts (n + 1) w' s' fs)

  abbrev diagnostic_line : FileDiagnostic → Text
  diagnostic_line x =
      let d = x.diagnostic in
      x.file
      ++ (codes ":"
          ++ (around.decimal d.line
              ++ (codes ":"
                  ++ (around.decimal d.column
                      ++ (codes ": "
                          ++ (d.severity
                              ++ ((if is_nil d.code
                                    then []
                                    else codes " [" ++ (d.code ++ codes "]"))
                                  ++ (codes ": " ++ (d.message ++ codes "\n")))))))))

  abbrev after_print : W × Bool → (W → W × ℕ) → W × ℕ
  after_print (w, true) next = next w
  after_print (w, false) next = (w, 2)

  unfoldable pub print_lines : W → ℕ → List FileDiagnostic → W × ℕ
  print_lines w code [] = (w, code)
  print_lines w code (d ∷ ds) =
      after_print (around.print w (diagnostic_line d)) (λ w'. print_lines w' code ds)

  unfoldable pub report : Command → CommandOptions → ToolStep → W × ℕ
  unfolding print_lines sort
  report command opts (w, none) = (w, 2)
  report fmt opts (w, some s) = (w, s.exit_code)
  report lint opts (w, some s) =
      let ds = sort diagnostic_before s.diagnostics in
      if text_eq opts.format (codes "json")
      then after_print (around.print w (around.encode ds)) (λ w'. (w', s.exit_code))
      else print_lines w s.exit_code ds

  abbrev pub no_findings : Findings
  no_findings = record { exit_code = 0; diagnostics = [] }

  -- `tool` is whether the formatter and the linter could be made.
  abbrev pub run_on :
      Command → CommandOptions → Bool → W → Result FilesError (List InputFile) → W × ℕ
  run_on command opts tool w (err _) = (w, 2)
  run_on command opts tool w (ok inputs) =
      if tool
      then report command opts (handle_inputs command opts 0 w no_findings inputs)
      else (w, 2)

  abbrev pub run_checked :
      Command
      → CommandOptions
      → List Text
      → Option Text
      → Bool
      → W
      → Result UsageError (Unit {0})
      → W × ℕ
  run_checked command opts paths stdin tool w (err _) = (w, 2)
  run_checked command opts paths stdin tool w (ok _) = run_on command opts tool w (
      collect_inputs (around.system_of w) around.names paths stdin opts.stdin_path
        (is_fmt command && (not opts.write && not opts.check)) opts.no_ignore)

  -- The exit code; what goes to the standard error is left out.
  unfoldable pub run_tool : Command → Flags → Option Text → Bool → W → W × ℕ
  unfolding report handle_inputs collect_inputs check_options
  run_tool command (asks_help text) stdin tool w = after_print (around.print w text) (λ w'. (w', 0))
  run_tool command bad_flags stdin tool w = (w, 2)
  run_tool command (given_flags opts paths) stdin tool w =
      run_checked command opts paths stdin tool w (check_options command opts paths)
