-- ===== src/Cli/Tool/Checks.antt =====
-- `blobl fmt --check` of internal/cli/cli.go tells whether the files are formatted.
use bloblang_lsp.Common.{ℕ, Text, Bool, false, Option, List, if◌then◌else◌, text_is_eq, ◌≡◌, ◌⊎◌}
use bloblang_lsp.Common.Result.{Result, ok, err}
use bloblang_lsp.Cli.Files.{InputFile, FilesError}
use bloblang_lsp.Cli.Files.Inputs.{collect_inputs}
use bloblang_lsp.Cli.Tool.{fmt, CommandOptions, check_options, UsageError, Surroundings}
use bloblang_lsp.Cli.Tool.Checking.{AllFormatted, Printed, AnyTrouble}

module _ {W : Type 0} (around : Surroundings W) where
  abbrev pub inputs_of :
      CommandOptions → List Text → Option Text → W → Result FilesError (List InputFile)
  inputs_of opts paths stdin w =
      collect_inputs (around.system_of w) around.names paths stdin opts.stdin_path false
        opts.no_ignore

  -- Why a check fails: the options are refused, the formatter cannot be made, the inputs cannot be
  -- listed, or there is trouble with one of them.
  abbrev pub CannotCheck : CommandOptions → List Text → Option Text → Bool → W → Type 0
  CannotCheck opts paths stdin tool w =
      ((e : UsageError) × (check_options fmt opts paths ≡ err e))
      ⊎ ((tool ≡ false)
          ⊎ (((e : FilesError) × (inputs_of opts paths stdin w ≡ err e))
              ⊎ ((inputs : List InputFile) × (inputs_of opts paths stdin w ≡ ok inputs)
                  × AnyTrouble around (around.system_of w) w opts.tab_size 0 inputs)))

  -- The outcome of a check: it fails for a reason, with the exit code two, and has only written to the
  -- standard output; or all inputs could be read and formatted, it has written the paths of those that
  -- are not formatted, and the exit code tells whether all of them are.
  abbrev pub IsCheck : CommandOptions → List Text → Option Text → Bool → W → W × ℕ → Type 0
  IsCheck opts paths stdin tool w (w', code) =
      ((code ≡ 2)
        × CannotCheck opts paths stdin tool w
        × ((lines : List Text) × Printed around w lines w'))
      ⊎ ((inputs : List InputFile) × (all : Bool) × (lines : List Text) × (inputs_of opts paths
              stdin w
            ≡ ok inputs)
          × AllFormatted around (around.system_of w) opts.tab_size all lines inputs
          × (code ≡ (if all then 0 else 1))
          × Printed around w lines w')
