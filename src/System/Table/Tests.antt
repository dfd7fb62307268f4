-- ===== src/System/Table/Tests.antt =====
-- The list of a schedule with one job.
use qos_planner.Common.{ℕ, zero, suc, List, [], ◌∷◌, true, Option, none, some, Str}
use qos_planner.Message.{pos, negsuc, Request, Reply}
use qos_planner.Client.{build_list_request}
use qos_planner.Scheduler.Samples.{whole, scheduler}
use qos_planner.Planner.{Planner}
use qos_planner.Server.{Outside, Parsed, request_message, serve_message}
use qos_planner.System.Samples

-- Every id is found.
abbrev outside : Outside
outside = record Samples.outside { compile = λ regex. some (λ text. true) }

abbrev encode : Request → Str
encode r = r.regex

abbrev parse : Str → Parsed
parse text = request_message build_list_request

-- The sign and the number of the code, and the text.
abbrev encode_reply : Reply → Str
encode_reply r = elim r.rc [ pos n ↦ 0 ∷ n ∷ r.return_msg | negsuc n ↦ 1 ∷ n ∷ r.return_msg ]

abbrev decode : Str → Option (Option Reply)
decode (zero ∷ n ∷ msg) = some (some (record { rc = pos n; return_msg = msg }))
decode (suc _ ∷ n ∷ msg) = some (some (record { rc = negsuc n; return_msg = msg }))
decode s = none

-- What arrives at the client of what the server sends.
abbrev arriving : Option (Planner whole × List (Option Reply)) → Option Str
arriving (some (s, some r ∷ [])) = some (encode_reply r)
arriving other = none

abbrev polls : ℕ → Option Str
polls i = arriving (serve_message whole outside scheduler (parse []))
