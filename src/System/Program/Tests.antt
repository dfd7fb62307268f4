-- ===== src/System/Program/Tests.antt =====
-- A run of the server from its start.
use qos_planner.Common.{refl, List, [], ◌∷◌, true, Option, none, some, ◌≡◌, str, Returns}
use qos_planner.Rules.Samples.{answers}
use qos_planner.Message.{pos, Request, RequestType, reserve, listjobs}
use qos_planner.Scheduler.Samples.{whole}
use qos_planner.Scheduler.Limits.{LimitElement, read, failed}
use qos_planner.Planner.{end_of}
use qos_planner.Server.{Parsed, unparsable, request_message, Outside}
use qos_planner.Server.Replies.{AreProper}
use qos_planner.System.Program.{main_server, ServerOutcome, main_server-ServerOutcome}

abbrev outside : Outside
outside = record {
  now = 5;
  lustre = answers;
  visit = λ osts. osts;
  stack = λ i. 0;
  compile = λ regex. some (λ text. true);
  put_time = λ t. [];
}

abbrev request : RequestType → Request
request t = record {
  request_type = t;
  resource_request = record {
    id = str "c";
    throughput_mb = pos 60;
    duration_sec = pos 3600;
    files = str "/f" ∷ [];
  };
  delete_ids = str "a" ∷ [];
  regex = [];
}

abbrev limits_file : Option (Option (List (LimitElement whole)))
limits_file = some (some (record { name = read (str "o1"); max_mbs = read 100 } ∷ []))

abbrev session : List (Outside × Parsed)
session =
    (outside, request_message (request reserve))
    ∷ (outside, unparsable)
    ∷ (outside, request_message (request listjobs))
    ∷ []

session-AreProper : AreProper whole session
unfolding end_of
session-AreProper = ((λ e. cc), (tt, ((λ e. cc), tt)))

-- A file that cannot be read ends the program.
unreadable : main_server whole (some none) session ≡ some failed
unfolding main_server
unreadable = refl

main_server-ServerOutcome_example :
    Returns (ServerOutcome whole limits_file session) (main_server whole limits_file session)
main_server-ServerOutcome_example =
    main_server-ServerOutcome whole limits_file session session-AreProper
