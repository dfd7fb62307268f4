-- ===== src/Server/Tests.antt =====
-- Runs of the server.
use qos_planner.Common.{◌≡◌, refl, List, [], ◌∷◌, true, none, some, str}
use qos_planner.Rules.Samples.{answers}
use qos_planner.Message.{pos, Request, RequestType, invalid, reserve, delete, listjobs}
use qos_planner.Scheduler.Samples.{whole, scheduler}
use qos_planner.Planner.{reply_of, end_of}
use qos_planner.Server.{
  Parsed, unparsable, request_message, reply_message, Outside, process_message, serve_message,
  serve,
}
use qos_planner.Server.Replies.{AreProper}

abbrev outside : Outside
outside = record {
  now = 5;
  lustre = answers;
  visit = λ osts. osts;
  stack = λ i. 0;
  compile = λ regex. some (λ text. true);
  put_time = λ t. [];
}

-- A reservation of an hour, as `t` says.
abbrev request : RequestType → Request
request t = record {
  request_type = t;
  resource_request = record {
    id = str "c";
    throughput_mb = pos 60;
    duration_sec = pos 3600;
    files = str "/f" ∷ [];
  };
  delete_ids = str "a" ∷ [];
  regex = [];
}

-- A reply that a client sends gets no answer, an unknown request an empty one.
answered :
    serve whole scheduler (
      (outside, unparsable)
      ∷ (outside, reply_message (request reserve))
      ∷ (outside, request_message (request invalid))
      ∷ [])
    ≡ some (scheduler, some (reply_of (pos 1) []) ∷ none ∷ [])
unfolding serve serve_message process_message
answered = refl

abbrev session : List (Outside × Parsed)
session =
    (outside, request_message (request reserve))
    ∷ (outside, request_message (request listjobs))
    ∷ (outside, request_message (request delete))
    ∷ []

session-AreProper : AreProper whole session
unfolding end_of
session-AreProper = ((λ e. cc), ((λ e. cc), (tt, tt)))
