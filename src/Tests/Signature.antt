-- ===== src/Tests/Signature.antt =====
-- The call around the cursor in an unfinished expression.
use bloblang_lsp.Common.{true, false, some, [], ◌∷◌, codes, ◌≡◌, refl}
use bloblang_lsp.Common.Strings.{trim_space, trim_left, trim_right, join}
use bloblang_lsp.Common.Result.{ok, err}
use bloblang_lsp.Benthos.Completion.{Params}
use bloblang_lsp.Lsp.Signature.{
  SignatureCall, active_signature_call, scan, check_cancelled, begin_token, punctuate,
  name_argument, signature_label, active_parameter,
}

abbrev call : SignatureCall
call = record {
  name = codes "replace";
  method = true;
  delimiter = b'(';
  argument = 1;
  parameter_name = codes "new";
  argument_start = 19;
}

inner :
    active_signature_call trim_space (codes "a.f(1).replace(\"(\",\nnew: [x") (λ _. false)
    ≡ ok (some call)
unfolding active_signature_call scan check_cancelled begin_token punctuate name_argument trim_space
    trim_left trim_right
inner = refl

stopped : active_signature_call trim_space (codes "f(") (λ _. true) ≡ err tt
unfolding active_signature_call scan check_cancelled
stopped = refl

abbrev params : Params
params = record {
  definitions =
      record {
        name = codes "old";
        value_type = codes "string";
        description = [];
        is_optional = false;
        default_marshalled = [];
      }
      ∷ record {
        name = codes "new";
        value_type = codes "string";
        description = [];
        is_optional = false;
        default_marshalled = codes "1";
      }
      ∷ [];
  variadic = false;
}

label : signature_label call params ≡ codes "replace(old: string, new: string = 1)"
unfolding signature_label join
label = refl

active : active_parameter call params ≡ some 1
active = refl
