-- ===== src/Tests/Tool.antt =====
-- The commands fmt and lint of internal/cli/cli.go over the standard input, with a formatter that wants
-- the text "a".
use bloblang_lsp.Common.{Bool, true, false, some, [], ◌∷◌, codes, text_is_eq, ◌≡◌, refl}
use bloblang_lsp.Common.Int.{pos}
use bloblang_lsp.Cli.Tool.{
  fmt, lint, CommandOptions, given_flags, Surroundings, check_options, handle_input, handle_inputs,
  report, run_tool, print_lines, add_diagnostics,
}
use bloblang_lsp.Cli.Files.{read_input}
use bloblang_lsp.Cli.Files.Inputs.{collect_inputs}
use bloblang_lsp.Tests.Discovery.{system, names}
use bloblang_lsp.Tests.Replace.{Files, files, one_file}
use bloblang_lsp.Common.Sorting.{sort, insert_sorted}

abbrev around : Surroundings Files
around = record {
  system_of = λ _. system;
  fs = files;
  names = names;
  tool_format = λ _ _ _. some (codes "a");
  tool_lint = λ _ text _. some (record {
    text = text;
    diagnostics =
        record {
          line = 1;
          column = 2;
          end_line = 1;
          end_column = 3;
          severity = codes "hint";
          code = [];
          message = codes "m";
        }
        ∷ [];
  });
  decimal = λ n. n ∷ [];
  encode = λ _. [];
  print = λ w _. (w, true);
  cancelled = λ _. false;
}

abbrev options : Bool → CommandOptions
options check = record {
  write = false;
  check = check;
  fix = false;
  no_ignore = false;
  format = codes "text";
  stdin_path = [];
  tab_size = pos 2;
}

unformatted :
    (run_tool around fmt (given_flags (options true) []) (some (codes "b")) true one_file).1 ≡ 1
unfolding run_tool check_options collect_inputs handle_inputs handle_input read_input report
unformatted = refl

formatted :
    (run_tool around fmt (given_flags (options true) []) (some (codes "a")) true one_file).1 ≡ 0
unfolding run_tool check_options collect_inputs handle_inputs handle_input read_input report
formatted = refl

-- A hint is no finding.
hint :
    (run_tool around lint (given_flags (options false) []) (some (codes "b")) true one_file).1 ≡ 0
unfolding run_tool check_options collect_inputs handle_inputs handle_input read_input report
    print_lines sort insert_sorted add_diagnostics
hint = refl
