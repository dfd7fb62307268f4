-- ===== src/System/Bound/Tests.antt =====
-- Runs of the server over its socket.
use qos_planner.Common.{
  ◌≡◌, refl, List, [], ◌∷◌, none, some, ◌>>=◌, Str, str, ◌==◌, if◌then◌else◌, arith,
}
use qos_planner.Scheduler.Samples.{whole}
use qos_planner.Server.{Parsed, unparsable, request_message, reply_message, arrivals}
use qos_planner.Socket.{thrown}
use qos_planner.Socket.Samples.{rep, rep_laws}
use qos_planner.System.Samples.{outside, request}
use qos_planner.System.Program.{main_server}
use qos_planner.System.Bound.{main_bound, heard, comes_to, with_ending, main_bound-main_server}

-- A text that begins with 1 is a request to reserve, and one that begins with 2 is a reply.
abbrev parse : Str → Parsed
parse [] = unparsable
parse (c ∷ text) =
    if c == 1
    then request_message request
    else (if c == 2 then reply_message request else unparsable)

abbrev texts : List Str
texts = (1 ∷ []) ∷ [] ∷ (2 ∷ []) ∷ (1 ∷ []) ∷ []

-- The reply among the texts is the last that is received.
before_reply : (heard parse texts ≡ (1 ∷ []) ∷ [] ∷ (2 ∷ []) ∷ []) × (comes_to parse texts ≡ thrown)
before_reply = (refl, refl)

main_bound-main_server_example :
    main_bound whole (rep texts) parse (λ r. []) (λ i. outside) 5 (str "*") (str "5555") none ≡ (
      main_server whole none (arrivals parse (λ i. outside) ((1 ∷ []) ∷ [] ∷ (2 ∷ []) ∷ []))
      >>= λ r. some (with_ending thrown r))
main_bound-main_server_example =
    main_bound-main_server whole (rep texts) (rep_laws texts) parse (λ r. []) (λ i. outside) texts 5
      (str "*") (str "5555") none _ refl refl (omega arith)
