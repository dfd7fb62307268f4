-- ===== src/Client/Commands.antt =====
-- What the commands of src/client/main.cpp do.
use qos_planner.Common.{
  ℕ, suc, ◌≡◌, ◌≢◌, refl, List, [], ◌∷◌, map, Bool, true, false, Option, none, some, arith, Str,
  str, Str-discrete,
}
use qos_planner.Rules.{is_empty}
use qos_planner.Message.{ℤ, pos, Request, reserve}
use qos_planner.Retry.{SocketCall, connect, c_str, send_and_receive}
use qos_planner.Retry.Attempts.{messages, Attempts, send_and_receive-Attempts}
use qos_planner.Client.{
  comma, join, add_filenames, reserve_resources, send_request, is_input_valid,
  build_reserve_request, try_reserve_resources, parse_content,
}
use qos_planner.Client.Files.{ArePlain, is_empty-append, add_filenames-join}
use qos_planner.Client.Program.{
  JsonLib, read_names, found_throughput, found_names, read_content, parse_storage_req,
  try_parse_req_file, Flags, Environment, req_file, execute, exit_code, main_program,
}

-- The text is a JSON object with that throughput and those names.
pub record Describes (json : JsonLib) (text : Str) (mbs : ℤ) (names : List Str) : Type 0 where
  pub object : json.Json
  pub parses : json.parse text ≡ some object
  pub full : json.empty object ≡ false
  pub number : json.Json
  pub has_number : json.find_member object (str "throughput_mbs") ≡ some number
  pub to_mbs : json.to_int number ≡ some mbs
  pub array : json.Json
  pub has_array : json.find_member object (str "read_files") ≡ some array
  pub to_names : map json.to_string (json.elements array) ≡ map (λ n. some n) names

-- The request for those files at that throughput.
abbrev pub request_for : Str → ℤ → ℕ → List Str → Request
request_for id mbs seconds names = record {
  request_type = reserve;
  resource_request = record {
    id = id;
    throughput_mb = mbs;
    duration_sec = pos seconds;
    files = names;
  };
  delete_ids = [];
  regex = [];
}

-- What a reservation returns, from the reply and the calls on the socket.
abbrev pub result_of : Option Str × List SocketCall → Bool × List SocketCall
result_of (reply, calls) = (elim reply [ none ↦ false | some r ↦ true ], calls)

pub reserve_resources-sends :
    (encode : Request → Str) (polls : ℕ → Option Str) (id filenames : Str) (mbs : ℤ) (n : ℕ)
    → is_empty filenames ≡ false
    → reserve_resources encode polls id filenames mbs (pos (suc n))
      ≡ result_of
          (send_and_receive 3 polls (encode (request_for id mbs (suc n) (add_filenames filenames))))
unfolding reserve_resources is_input_valid build_reserve_request send_request
reserve_resources-sends encode polls id [] mbs n full = cc
reserve_resources-sends encode polls id (c ∷ s) mbs n full = refl

module _ (json : JsonLib) where
  read_names-map :
      (js : List json.Json) (names : List Str)
      → map json.to_string js ≡ map (λ n. some n) names
      → read_names json js ≡ some names
  unfolding read_names
  read_names-map [] [] e = refl
  read_names-map [] (n ∷ names) e = ground arith
  read_names-map (j ∷ js) [] e = ground arith
  read_names-map (j ∷ js) (n ∷ names) e =
      let first : json.to_string j ≡ some n = ground arith in
      let others : map json.to_string js ≡ map (λ n. some n) names = ground arith in
      rw (first, read_names-map js names others) refl

  join-full : (names : List Str) → ArePlain names → names ≢ [] → is_empty (join names) ≡ false
  unfolding join
  join-full [] plain n = absurd (n refl)
  join-full (x ∷ []) (full, _, _) n = full
  join-full (x ∷ y ∷ ys) (full, _, _) n = is_empty-append x (comma ∷ join (y ∷ ys)) full

  parse_storage_req-Describes :
      (text : Str) (mbs : ℤ) (names : List Str)
      → Describes json text mbs names
      → parse_storage_req json text
        ≡ some (some (record { throughput_mbs = some mbs; read_files = some names }))
  unfolding parse_storage_req read_content found_throughput found_names
  parse_storage_req-Describes text mbs names d =
      ground (arith, read_names-map (json.elements d.array) names d.to_names)

  execute-reserve :
      (env : Environment) (flags : Flags) (text : Str) (mbs : ℤ) (names : List Str)
      → is_empty flags.storage_req_file ≡ false
      → env.files flags.storage_req_file ≡ some text
      → Describes json text mbs names
      → execute json env flags (str "reserve")
        ≡ some (reserve_resources env.encode env.polls flags.id (join names) mbs flags.duration)
  unfolding execute req_file try_parse_req_file try_reserve_resources parse_content Str-discrete
  execute-reserve env flags text mbs names given there d =
      ground (arith, parse_storage_req-Describes text mbs names d)

  -- The command "reserve", with a file of storage requirements that is there and that the JSON
  -- library reads as an object with a throughput and at least one name, each with a byte and
  -- without a comma, and with a positive duration: the program ends with a request for exactly
  -- those files at that throughput, whatever file names and throughput the command line gives, sent
  -- until one of three polls finds a reply, and its exit code is 0 exactly if one does.
  pub main_program-reserves :
      (env : Environment) (flags : Flags) (app text : Str) (rest : List Str) (mbs : ℤ)
      (names : List Str) (seconds : ℕ)
      → is_empty flags.storage_req_file ≡ false
      → env.files flags.storage_req_file ≡ some text
      → Describes json text mbs names
      → ArePlain names
      → names ≢ []
      → flags.duration ≡ pos (suc seconds)
      → let sent = env.encode (request_for flags.id mbs (suc seconds) names) in
        (calls : List SocketCall) × (repeated : List Str) × (reply : Option Str) × (main_program
            json env flags
            (app ∷ str "reserve" ∷ rest)
          ≡ some (exit_code (elim reply [ none ↦ false | some r ↦ true ]), connect ∷ calls))
        × (messages calls ≡ sent ∷ repeated)
        × Attempts 3 env.polls (c_str sent) repeated reply
  unfolding main_program
  main_program-reserves env flags app text rest mbs names seconds given there d plain some_names e =
      let full = join-full names plain some_names in
      let request = env.encode (request_for flags.id mbs (suc seconds) names) in
      let (repeated, sent, attempts) = send_and_receive-Attempts 2 env.polls request in
      let reserved =
        reserve_resources-sends env.encode env.polls flags.id (join names) mbs seconds full in
      (
        _,
        repeated,
        _,
        rw
            (
              execute-reserve env flags text mbs names given there d,
              e,
              reserved,
              add_filenames-join names plain,
            )
            refl,
        sent,
        attempts,
      )
