-- ===== src/Client.antt =====
-- src/client: Client.cpp, the request builders and StorageReqParser.cpp. The JSON library, the files
-- and the encoding of messages are parameters. A call returns its result and the calls on the socket.
pub mod Files
pub mod Reserve
pub mod Program
pub mod Commands
mod Tests
use qos_planner.Common.{
  ℕ, zero, suc, List, [], ◌∷◌, ◌++◌, Bool, true, false, Option, none, some, ◌==◌, ◌||◌, not,
  if◌then◌else◌, Str,
}
use qos_planner.Rules.{is_empty}
use qos_planner.Message.{
  is_zero, ℤ, pos, negsuc, ResourceRequest, Request, RequestType, reserve, delete, listjobs, Reply,
}
use qos_planner.Retry.{SocketCall, send_and_receive}

abbrev pub comma : ℕ
comma = 44

-- `filenames.find(',') != -1`
unfoldable pub has_comma : Str → Bool
has_comma [] = false
has_comma (c ∷ s) = (c == comma) || has_comma s

-- The loop of `getline` on commas, behind the bytes `fname` of the name that is being read. An empty
-- name at the end is not read.
unfoldable pub fields : Str → Str → List Str
fields fname [] = if is_empty fname then [] else fname ∷ []
fields fname (c ∷ s) = elim (c == comma) [
  | true ↦ fname ∷ fields [] s
  | false ↦ fields (fname ++ c ∷ []) s
]

-- `addFilenames`: the files of the request.
unfoldable pub add_filenames : Str → List Str
unfolding has_comma fields
add_filenames filenames =
    if is_empty filenames
    then []
    else (if not (has_comma filenames) then filenames ∷ [] else fields [] filenames)

abbrev no_resource : ResourceRequest
no_resource = record { id = []; throughput_mb = pos 0; duration_sec = pos 0; files = [] }

-- `ReserveRequestBuilder::BuildRequest`; the durations up to 0 are refused.
unfoldable pub build_reserve_request : Str → Str → ℤ → ℤ → Option Request
unfolding add_filenames
build_reserve_request id filenames throughput (negsuc n) = none
build_reserve_request id filenames throughput (pos zero) = none
build_reserve_request id filenames throughput (pos (suc n)) = some (record {
  request_type = reserve;
  resource_request = record {
    id = id;
    throughput_mb = throughput;
    duration_sec = pos (suc n);
    files = add_filenames filenames;
  };
  delete_ids = [];
  regex = [];
})

-- `RemoveReservationRequestBuilder::BuildRequest`
unfoldable pub build_remove_request : Str → Request
build_remove_request id = record {
  request_type = delete;
  resource_request = no_resource;
  delete_ids = id ∷ [];
  regex = [];
}

-- `ListReservationsRequestBuilder::BuildRequest`
unfoldable pub build_list_request : Request
build_list_request = record {
  request_type = listjobs;
  resource_request = no_resource;
  delete_ids = [];
  regex = [];
}

-- What the JSON library finds in a file of storage requirements.
pub record StorageReq : Type 0 where
  pub throughput_mbs : Option ℤ
  pub read_files : Option (List Str)

-- The names with a comma before each but the first one.
unfoldable pub join : List Str → Str
join [] = []
join (x ∷ []) = x
join (x ∷ y ∷ ys) = x ++ comma ∷ join (y ∷ ys)

-- `ParseContent`, and what the getters return then; `unset` is what the uninitialised
-- `throughput_mbs_` holds.
unfoldable pub parse_content : ℤ → StorageReq → Str × ℤ
unfolding join
parse_content unset req = (
  elim req.read_files [ none ↦ [] | some names ↦ join names ],
  elim req.throughput_mbs [ none ↦ unset | some mbs ↦ mbs ],
)

-- `IsInputValid`
unfoldable pub is_input_valid : Str → Str → ℤ → Bool
is_input_valid id filenames (pos n) = not (is_empty filenames)
is_input_valid id filenames (negsuc n) = false

abbrev pub client_retries : ℕ
client_retries = 3

-- `TrySendRequestAndReceiveReply`
unfoldable pub send_request :
    (Request → Str) → (ℕ → Option Str) → Request → Option Str × List SocketCall
unfolding send_and_receive
send_request encode polls request = send_and_receive client_retries polls (encode request)

-- `TryReserveResources` from `IsInputValid` on; the reply is only written to the log.
unfoldable pub reserve_resources :
    (Request → Str) → (ℕ → Option Str) → Str → Str → ℤ → ℤ → Bool × List SocketCall
unfolding is_input_valid build_reserve_request send_request
reserve_resources encode polls id filenames throughput duration =
    if not (is_input_valid id filenames duration)
    then (false, [])
    else elim (build_reserve_request id filenames throughput duration) [
      | none ↦ (false, [])
      | some request ↦
          let (reply, calls) = send_request encode polls request in
          (elim reply [ none ↦ false | some r ↦ true ], calls)
    ]

-- `TryReserveResources`; `file` is none without a file of storage requirements, and otherwise what
-- `TryParseReqFile` makes of it, where the inner `none` is a file that is not there or does not parse.
unfoldable pub try_reserve_resources :
    (Request → Str)
    → (ℕ → Option Str)
    → ℤ
    → Str
    → Str
    → ℤ
    → ℤ
    → Option (Option StorageReq)
    → Bool × List SocketCall
unfolding parse_content reserve_resources
try_reserve_resources encode polls unset id filenames throughput duration none =
    reserve_resources encode polls id filenames throughput duration
try_reserve_resources encode polls unset id filenames throughput duration (some none) = (false, [])
try_reserve_resources encode polls unset id filenames throughput duration (some (some req)) =
    let (names, mbs) = parse_content unset req in
    reserve_resources encode polls id names mbs duration

-- `RemoveReservation`
unfoldable pub remove_reservation :
    (Request → Str) → (ℕ → Option Str) → Str → Bool × List SocketCall
unfolding build_remove_request send_request
remove_reservation encode polls reservation_id =
    let (reply, calls) = send_request encode polls (build_remove_request reservation_id) in
    if is_empty reservation_id
    then (false, [])
    else (elim reply [ none ↦ false | some r ↦ true ], calls)

-- `ProcessListReply`: the text that is printed, or `none` for false. `parse` returns none for a text
-- that does not parse, and the reply of a message, if it has one.
unfoldable pub process_list_reply : (Str → Option (Option Reply)) → Str → Option Str
process_list_reply parse reply = elim (parse reply) [
  | none ↦ none
  | some content ↦ elim content [
    | none ↦ none
    | some r ↦ if is_zero r.rc then some r.return_msg else none
  ]
]

-- `ListReservations`
unfoldable pub list_reservations :
    (Request → Str)
    → (Str → Option (Option Reply))
    → (ℕ → Option Str)
    → Option Str × List SocketCall
unfolding build_list_request send_request process_list_reply
list_reservations encode parse polls =
    let (reply, calls) = send_request encode polls build_list_request in
    (elim reply [ none ↦ none | some r ↦ process_list_reply parse r ], calls)
