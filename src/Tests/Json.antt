-- ===== src/Tests/Json.antt =====
-- The theorem on the JSON of entries at a message of the program's own, with a codec that knows the
-- messages of `Scenario` and a few numbers.
use attention.Prelude.{
  ℕ, ◌≡◌, refl, String, true, false, Option, none, some, show_nat, ◌==◌, if◌then◌else◌,
}
use attention.Value.{Value, Members, null, str}
use attention.Ai.Types.{Message, Role, is_user, user, assistant}
use attention.Message.{ExitCode, BashExecutionMessage, bash_execution}
use attention.Session.Types.{Body, SessionEntry, ok}
use attention.Session.Json.Fields.{Codec}
use attention.Session.Json.{encode_entry}
use attention.Session.Json.RoundTrip.{IsKept, decode_entry-encode_entry}
use attention.Session.Json.Decode.{decode_entry}
use attention.Ai.Types.{new_message, text_block}
use attention.Prelude.{[], ◌∷◌}

abbrev role_text : Role → String
role_text r = if is_user r then "user" else "assistant"

abbrev read_number : String → Option ℕ
read_number t = if t == "3" then some 3 else if t == "512" then some 512 else none

abbrev known : String → Message
known r =
    if r == "user"
    then new_message user (text_block "what is it?" ∷ []) 0
    else new_message assistant (text_block "this" ∷ []) 0

abbrev read_message : Value → Option Message
read_message (Value.obj (Members.member k (Value.str r) ms)) = some (known r)
read_message _ = none

abbrev pub messages_codec : Codec
messages_codec = record {
  print = λ v. "";
  parse = λ s. null;
  show_int = show_nat;
  read_int = read_number;
  show_code = λ c. "1";
  read_code = λ t. some (ExitCode.exited 1);
  encode_ai = λ m. Members.member "role" (str (role_text m.role)) Members.end;
  decode_ai = read_message;
  encode_blocks = λ bs. null;
}

abbrev listed : BashExecutionMessage
listed = record {
  command = "ls";
  output = "a.go";
  exit_code = ExitCode.exited 1;
  cancelled = false;
  truncated = true;
  full_output_path = "/tmp/out";
  timestamp = 512;
  exclude_from_context = true;
}

abbrev listing : SessionEntry
listing = record {
  id = "e3";
  parent_id = some "e2";
  timestamp = "t3";
  body = Body.message (bash_execution listed);
}

listing-IsKept : IsKept messages_codec listing.body
unfolding show_nat
listing-IsKept = (refl, refl)

decode_entry-encode_entry_example :
    (v : Value) × (encode_entry messages_codec listing ≡ some v)
    × (decode_entry messages_codec "s.jsonl" 4 v ≡ ok listing)
decode_entry-encode_entry_example =
    decode_entry-encode_entry messages_codec "s.jsonl" 4 listing refl refl listing-IsKept
