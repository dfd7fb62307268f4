-- ===== src/Client/Program.antt =====
-- src/client/main.cpp, and the reading of a file of storage requirements: `TryParseReqFile` of
-- src/client/Client.cpp and `Parse` of src/client/StorageReqParser.cpp. The JSON library and the files
-- are parameters. A call returns none if an exception leaves the program.
use qos_planner.Common.{
  ℕ, List, [], ◌∷◌, Bool, true, false, Option, none, some, ite, ◌>>=◌, if◌then◌else◌, Str, str,
  Str-discrete,
}
use qos_planner.Rules.{is_empty}
use qos_planner.Message.{ℤ, pos, negsuc, Request, Reply}
use qos_planner.Retry.{SocketCall, connect}
use qos_planner.Client.{StorageReq, try_reserve_resources, remove_reservation, list_reservations}

-- What the code uses of nlohmann::json; a `none` of `parse`, `to_int` and `to_string` is an exception.
pub record JsonLib : Type 1 where
  pub Json : Type 0
  pub parse : Str → Option Json
  pub empty : Json → Bool
  pub find_member : Json → Str → Option Json
  pub to_int : Json → Option ℤ
  pub elements : Json → List Json
  pub to_string : Json → Option Str

-- The flags of the command line.
pub record Flags : Type 0 where
  pub id : Str
  pub filenames : Str
  pub throughput : ℤ
  pub duration : ℤ
  pub storage_req_file : Str

-- What the world outside of the program answers: the encoding and the decoding of messages, the
-- polls of the socket, the files, and what an uninitialised `throughput_mbs_` holds.
pub record Environment : Type 0 where
  pub encode : Request → Str
  pub decode : Str → Option (Option Reply)
  pub polls : ℕ → Option Str
  pub files : Str → Option Str
  pub unset : ℤ

abbrev no_content : StorageReq
no_content = record { throughput_mbs = none; read_files = none }

abbrev pub exit_code : Bool → ℤ
exit_code true = pos 0
exit_code false = negsuc 0

module _ (json : JsonLib) where
  -- The loop of `ParseContent` over the names.
  unfoldable pub read_names : List json.Json → Option (List Str)
  read_names [] = some []
  read_names (j ∷ js) = do name ← json.to_string j; names ← read_names js; some (name ∷ names)

  -- What `ParseContent` finds under "throughput_mbs".
  unfoldable pub found_throughput : Option json.Json → Option (Option ℤ)
  found_throughput none = some none
  found_throughput (some j) = json.to_int j >>= λ mbs. some (some mbs)

  -- What it finds under "read_files".
  unfoldable pub found_names : Option json.Json → Option (Option (List Str))
  unfolding read_names
  found_names none = some none
  found_names (some j) = read_names (json.elements j) >>= λ names. some (some names)

  -- `ParseContent`, up to the text that it makes of the names.
  unfoldable pub read_content : json.Json → Option StorageReq
  unfolding found_throughput found_names
  read_content j = do
    mbs ← found_throughput (json.find_member j (str "throughput_mbs"))
    names ← found_names (json.find_member j (str "read_files"))
    some (record { throughput_mbs = mbs; read_files = names })

  -- `Parse`; the inner `none` is false.
  unfoldable pub parse_storage_req : Str → Option (Option StorageReq)
  unfolding read_content
  parse_storage_req text = elim (json.parse text) [
    | none ↦ some none
    | some j ↦
        if json.empty j then some (some no_content) else (read_content j >>= λ req. some (some req))
  ]

  -- `TryParseReqFile`; `files` returns none for a file that cannot be opened.
  unfoldable pub try_parse_req_file : (Str → Option Str) → Str → Option (Option StorageReq)
  unfolding parse_storage_req
  try_parse_req_file files filename = elim (files filename) [
    | none ↦ some none
    | some text ↦ parse_storage_req text
  ]

  -- The file of storage requirements, if one is given.
  unfoldable pub req_file : Environment → Str → Option (Option (Option StorageReq))
  unfolding try_parse_req_file
  req_file env filename =
      if is_empty filename
      then some none
      else (try_parse_req_file env.files filename >>= λ req. some (some req))

  -- `execute`: whether the command succeeds, and the calls on the socket.
  unfoldable pub execute : Environment → Flags → Str → Option (Bool × List SocketCall)
  unfolding req_file try_reserve_resources remove_reservation list_reservations
  execute env flags cmd =
      let reserved = req_file env flags.storage_req_file >>= λ file. some (
        try_reserve_resources env.encode env.polls env.unset flags.id flags.filenames
          flags.throughput flags.duration file) in
      let (listed, calls) = list_reservations env.encode env.decode env.polls in
      ite (Str-discrete cmd (str "reserve")) reserved (
        ite (Str-discrete cmd (str "remove"))
          (some (remove_reservation env.encode env.polls flags.id))
          (ite (Str-discrete cmd (str "ls"))
            (some (elim listed [ none ↦ false | some text ↦ true ], calls)) (some (false, []))))

  -- `main`, with the command line as gflags leaves it: the name of the program, then the command. The
  -- first call on the socket is that of `Init`, which never fails.
  unfoldable pub main_program : Environment → Flags → List Str → Option (ℤ × List SocketCall)
  unfolding execute
  main_program env flags [] = some (negsuc 0, [])
  main_program env flags (app ∷ []) = some (negsuc 0, [])
  main_program env flags (app ∷ cmd ∷ rest) =
      execute env flags cmd >>= λ (success, calls). some (exit_code success, connect ∷ calls)
