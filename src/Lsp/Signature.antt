-- ===== src/Lsp/Signature.antt =====
-- The call around the cursor and its label in internal/lsp/signature_help.go. Texts are lists of bytes.
use bloblang_lsp.Common.{
  ℕ, zero, suc, ◌+◌, ◌-◌, min, Text, Bool, true, false, not, ◌&&◌, ◌||◌, Option, none, some, List,
  [], ◌∷◌, ◌++◌, ◌==◌, ltb, leb, if◌then◌else◌, codes, length, map, text_eq,
}
use bloblang_lsp.Common.Strings.{is_nil, has_prefix, join}
use bloblang_lsp.Common.Result.{Result, ok, err}
use bloblang_lsp.Benthos.Completion.{Param, Params}
use bloblang_lsp.Lsp.Context.{is_ident_char}
use bloblang_lsp.Lsp.Embedded.{slice}

pub record SignatureCall : Type 0 where
  pub name : Text
  pub method : Bool
  pub delimiter : ℕ
  pub argument : ℕ
  pub parameter_name : Text
  pub argument_start : ℕ

-- Where the scan is: at a token, in a comment, in a string or behind a backslash there, in a raw string
-- or so many bytes in front of it, at the end of one, in a word, or cancelled.
pub data ScanMode : Type 0 where
  at_token in_comment in_string behind_backslash cancelled : ScanMode
  in_raw closing : ℕ → ScanMode
  in_word : Text → ScanMode

-- The stack has its top first.
pub record SignatureScan : Type 0 where
  pub mode : ScanMode
  pub stack : List SignatureCall
  pub last : Text
  pub previous : Text
  pub next_check : ℕ
  pub checks : ℕ

abbrev is_digit : ℕ → Bool
is_digit c = leb 48 c && leb c 57

abbrev all_ident : Text → Bool
all_ident [] = true
all_ident (c ∷ s) = is_ident_char c && all_ident s

abbrev valid_identifier : Text → Bool
valid_identifier [] = false
valid_identifier (c ∷ s) = is_ident_char c && (not (is_digit c) && all_ident s)

abbrev with_token : Text → SignatureScan → SignatureScan
with_token value s = record s { previous = s.last; last = value }

abbrev open_frame : ℕ → ℕ → SignatureScan → SignatureCall
open_frame c i s =
    let named =
      c == b'('
      && (valid_identifier s.last
          && (not (text_eq s.previous (codes "$")) && not (text_eq s.previous (codes "@")))) in
    record {
      name = if named then s.last else [];
      method = named && text_eq s.previous (codes ".");
      delimiter = c;
      argument = 0;
      parameter_name = [];
      argument_start = i + 1;
    }

abbrev opener : ℕ → ℕ
opener c = if c == b']' then b'[' else if c == b'}' then b'{' else b'('

abbrev close_frame : ℕ → List SignatureCall → List SignatureCall
close_frame c [] = []
close_frame c (f ∷ fs) = if f.delimiter == opener c then fs else []

abbrev next_argument : ℕ → List SignatureCall → List SignatureCall
next_argument i [] = []
next_argument i (f ∷ fs) =
    (if f.delimiter == b'('
      then record f { argument = f.argument + 1; argument_start = i + 1; parameter_name = [] }
      else f)
    ∷ fs

-- `trim` is strings.TrimSpace.
module _ (trim : Text → Text) (text : Text) (is_cancelled : ℕ → Bool) where
  unfoldable pub name_argument : ℕ → List SignatureCall → List SignatureCall
  name_argument i [] = []
  name_argument i (f ∷ fs) =
      let name = trim (slice f.argument_start i text) in
      (if f.delimiter == b'(' && valid_identifier name
        then record f { parameter_name = name }
        else f)
      ∷ fs

  -- A byte that is no part of a longer token.
  unfoldable pub punctuate : ℕ → ℕ → SignatureScan → SignatureScan
  unfolding name_argument
  punctuate c i s =
      let stack =
        if c == b'(' || (c == b'[' || c == b'{')
        then open_frame c i s ∷ s.stack
        else if c == b')' || (c == b']' || c == b'}')
        then close_frame c s.stack
        else if c == b','
        then next_argument i s.stack
        else if c == b':'
        then name_argument i s.stack
        else s.stack in
      with_token (c ∷ []) (record s { stack = stack })

  abbrev to_mode : ScanMode → SignatureScan → SignatureScan
  to_mode mode s = record s { mode = mode }

  -- The start of the loop's body, at a byte and with the bytes behind it.
  unfoldable pub begin_token : ℕ → ℕ → Text → SignatureScan → SignatureScan
  unfolding punctuate
  begin_token c i rest s =
      if c == 32 || (c == 9 || (c == 13 || c == 10))
      then to_mode at_token s
      else if c == b'#'
      then to_mode in_comment s
      else if c == b'"'
      then to_mode (if has_prefix (codes "\"\"") rest then in_raw 2 else in_string) s
      else if is_ident_char c && not (is_digit c)
      then to_mode (in_word (c ∷ [])) s
      else punctuate c i (to_mode at_token s)

  -- The test of the context, once in 4096 bytes.
  unfoldable pub check_cancelled : ℕ → ℕ → Text → SignatureScan → SignatureScan
  unfolding begin_token
  check_cancelled c i rest s =
      let checked = record s { next_check = i + 4096; checks = s.checks + 1 } in
      if ltb i s.next_check
      then begin_token c i rest s
      else if is_cancelled s.checks
      then to_mode cancelled s
      else begin_token c i rest checked

  abbrev step_mode : ScanMode → ℕ → ℕ → Text → SignatureScan → SignatureScan
  step_mode at_token c i rest s = check_cancelled c i rest s
  step_mode in_comment c i rest s = if c == 10 then to_mode at_token s else s
  step_mode in_string c i rest s =
      if c == b'\\'
      then to_mode behind_backslash s
      else if c == b'"'
      then with_token (codes "\"") (to_mode at_token s)
      else s
  step_mode behind_backslash c i rest s = to_mode in_string s
  step_mode cancelled c i rest s = s
  step_mode (in_raw (suc n)) c i rest s = to_mode (in_raw n) s
  step_mode (in_raw zero) c i rest s =
      if has_prefix (codes "\"\"\"") (c ∷ rest) then to_mode (closing 2) s else s
  step_mode (closing (suc zero)) c i rest s = with_token (codes "\"") (to_mode at_token s)
  step_mode (closing (suc (suc n))) c i rest s = to_mode (closing (suc n)) s
  step_mode (closing zero) c i rest s = check_cancelled c i rest s
  step_mode (in_word word) c i rest s =
      if is_ident_char c
      then to_mode (in_word (word ++ c ∷ [])) s
      else check_cancelled c i rest (with_token word s)

  unfoldable pub scan : ℕ → Text → SignatureScan → SignatureScan
  unfolding check_cancelled
  scan i [] s = s
  scan i (c ∷ rest) s = scan (i + 1) rest (step_mode s.mode c i rest s)

  abbrev start_scan : SignatureScan
  start_scan = record {
    mode = at_token;
    stack = [];
    last = [];
    previous = [];
    next_check = 0;
    checks = 0;
  }

  abbrev named_call : List SignatureCall → Option SignatureCall
  named_call [] = none
  named_call (f ∷ fs) = if is_nil f.name then named_call fs else some f

  abbrev found_call : ℕ → Option SignatureCall → Result (Unit {0}) (Option SignatureCall)
  found_call checks (some f) = ok (some f)
  found_call checks none = if is_cancelled checks then err tt else ok none

  abbrev scanned : SignatureScan → ScanMode → Result (Unit {0}) (Option SignatureCall)
  scanned s cancelled = err tt
  scanned s in_comment = ok none
  scanned s at_token = found_call s.checks (named_call s.stack)
  scanned s in_string = found_call s.checks (named_call s.stack)
  scanned s behind_backslash = found_call s.checks (named_call s.stack)
  scanned s (in_raw _) = found_call s.checks (named_call s.stack)
  scanned s (closing _) = found_call s.checks (named_call s.stack)
  scanned s (in_word _) = found_call s.checks (named_call s.stack)

  -- The call around the end of the text, which is the part in front of the cursor.
  unfoldable pub active_signature_call : Result (Unit {0}) (Option SignatureCall)
  unfolding scan
  active_signature_call = let s = scan 0 text start_scan in scanned s s.mode

-- The label of a parameter in `SignatureHelp`.
abbrev parameter_text : Param → Text
parameter_text p =
    p.name
    ++ ((if p.is_optional && is_nil p.default_marshalled then codes "?" else [])
        ++ ((if is_nil p.value_type then [] else codes ": " ++ p.value_type)
            ++ (if is_nil p.default_marshalled then [] else codes " = " ++ p.default_marshalled)))

abbrev signature_labels : Params → List Text
signature_labels params =
    map parameter_text params.definitions ++ (if params.variadic then codes "...args" ∷ [] else [])

unfoldable pub signature_label : SignatureCall → Params → Text
unfolding join
signature_label call params =
    call.name ++ (codes "(" ++ (join (codes ", ") (signature_labels params) ++ codes ")"))

-- The parameter with the argument's name, and else the argument's number.
abbrev active_index : Text → ℕ → ℕ → List Param → ℕ
active_index name i active [] = active
active_index name i active (p ∷ ps) =
    active_index name (i + 1) (if text_eq name p.name then i else active) ps

abbrev pub active_parameter : SignatureCall → Params → Option ℕ
active_parameter call params =
    if is_nil (signature_labels params)
    then none
    else some (
        min (active_index call.parameter_name 0 call.argument params.definitions)
          (length (signature_labels params) - 1))
