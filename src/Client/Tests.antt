-- ===== src/Client/Tests.antt =====
-- Runs of the client.
use qos_planner.Common.{
  ℕ, ◌≡◌, refl, List, [], ◌∷◌, map, true, false, Option, none, some, ite, ◌==◌, if◌then◌else◌, Str,
  str, Str-discrete, arith,
}
use qos_planner.Message.{ℤ, pos, Request}
use qos_planner.Retry.{SocketCall, send, connect, c_str, poll_loop, send_and_receive}
use qos_planner.Retry.Attempts.{messages, Attempts}
use qos_planner.Client.{
  has_comma, fields, add_filenames, join, is_input_valid, build_reserve_request, send_request,
  reserve_resources, parse_content, try_reserve_resources,
}
use qos_planner.Client.Program.{
  JsonLib, read_names, found_throughput, found_names, read_content, parse_storage_req,
  try_parse_req_file, Flags, Environment, req_file, execute, exit_code, main_program,
}
use qos_planner.Client.Commands.{Describes, main_program-reserves}

split : add_filenames (str "/a,/b,,/c,") ≡ str "/a" ∷ str "/b" ∷ [] ∷ str "/c" ∷ []
unfolding add_filenames has_comma fields
split = refl

-- The encoding of a request is its id, and the second poll finds a reply.
abbrev encode : Request → Str
encode r = r.resource_request.id

abbrev second : ℕ → Option Str
second i = if i == 1 then some (str "ok") else none

sent_twice :
    reserve_resources encode second (str "7") (str "/a") (pos 5) (pos 60)
    ≡ (true, send (str "7") ∷ connect ∷ send (str "7") ∷ [])
unfolding reserve_resources is_input_valid build_reserve_request send_request send_and_receive
    poll_loop c_str
sent_twice = refl

-- A duration of 0 passes the check of the input, and fails when the request is built.
no_duration : reserve_resources encode second (str "7") (str "/a") (pos 5) (pos 0) ≡ (false, [])
unfolding reserve_resources is_input_valid build_reserve_request
no_duration = refl

-- A file of storage requirements: the throughput and the names, then what they hold.
data Content : Type 0 where
  whole : Content
  number : ℤ → Content
  names : List Str → Content
  name : Str → Content

-- Of the text only whether it is empty is looked at.
abbrev parse : Str → Option Content
parse [] = none
parse (c ∷ s) = some whole

abbrev find_member : Content → Str → Option Content
find_member whole key =
    ite (Str-discrete key (str "throughput_mbs")) (some (number (pos 100)))
      (ite (Str-discrete key (str "read_files")) (some (names (str "/a" ∷ str "/b" ∷ []))) none)
find_member c key = none

abbrev to_int : Content → Option ℤ
to_int (number z) = some z
to_int c = none

abbrev elements : Content → List Content
elements (names ns) = map name ns
elements c = []

abbrev to_string : Content → Option Str
to_string (name s) = some s
to_string c = none

abbrev json : JsonLib
json = record {
  Json = Content;
  parse = parse;
  empty = λ c. false;
  find_member = find_member;
  to_int = to_int;
  elements = elements;
  to_string = to_string;
}

abbrev env : Environment
env = record {
  encode = encode;
  decode = λ s. none;
  polls = second;
  files = λ f. some (str "{..}");
  unset = pos 0;
}

abbrev flags : Flags
flags = record {
  id = str "7";
  filenames = [];
  throughput = pos 0;
  duration = pos 60;
  storage_req_file = str "/r";
}

described : Describes json (str "{..}") (pos 100) (str "/a" ∷ str "/b" ∷ [])
unfolding Str-discrete
described = record {
  object = whole;
  parses = refl;
  full = refl;
  number = number (pos 100);
  has_number = refl;
  to_mbs = refl;
  array = names (str "/a" ∷ str "/b" ∷ []);
  has_array = refl;
  to_names = refl;
}

abbrev reserve_command : List Str
reserve_command = str "client" ∷ str "reserve" ∷ []

main_program-reserves_example :
    let sent = str "7" in
    (calls : List SocketCall) × (repeated : List Str) × (reply : Option Str) × (main_program json
        env flags reserve_command
      ≡ some (exit_code (elim reply [ none ↦ false | some r ↦ true ]), connect ∷ calls))
    × (messages calls ≡ sent ∷ repeated)
    × Attempts 3 second (c_str sent) repeated reply
unfolding has_comma
main_program-reserves_example =
    main_program-reserves json env flags (str "client") (str "{..}") [] (pos 100)
      (str "/a" ∷ str "/b" ∷ []) 59 refl refl described (refl, refl, (refl, refl, tt))
      (ground arith) refl

ran :
    main_program json env flags reserve_command
    ≡ some (pos 0, connect ∷ send (str "7") ∷ connect ∷ send (str "7") ∷ [])
unfolding main_program execute req_file try_parse_req_file parse_storage_req read_content
    found_throughput found_names read_names try_reserve_resources parse_content join
    reserve_resources is_input_valid build_reserve_request send_request send_and_receive poll_loop
    c_str Str-discrete
ran = refl
