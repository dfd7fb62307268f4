-- ===== src/System/Conversation/Tests.antt =====
-- A reservation that is sent twice.
use qos_planner.Common.{
  ℕ, ◌≡◌, refl, [], true, Option, none, some, length, ◌==◌, if◌then◌else◌, Str, str, Returns,
}
use qos_planner.Schedule.Valid.{empty-IsValid}
use qos_planner.Message.{pos, Request}
use qos_planner.Retry.{c_str}
use qos_planner.Retry.Attempts.{messages}
use qos_planner.Client.{has_comma, add_filenames, reserve_resources}
use qos_planner.Client.Reserve.{reservation}
use qos_planner.Scheduler.Samples.{whole}
use qos_planner.Planner.{end_of, reply_of}
use qos_planner.Server.{Parsed, request_message, process_message, serve}
use qos_planner.Server.Replies.{IsProper}
use qos_planner.System.{started}
use qos_planner.System.Samples.{outside, limits, reserved, request, admit_c}
use qos_planner.Server.{arrivals}
use qos_planner.System.Conversation.{ReservedOnce, reserve_resources-serve}

abbrev asked : Request
asked = reservation (str "c") (str "/f") (pos 60) 3600

asked-request : asked ≡ request
unfolding add_filenames has_comma
asked-request = refl

-- The encoding of a request is its id, and every text reads as the one request.
abbrev encode : Request → Str
encode r = r.resource_request.id

abbrev parse : Str → Parsed
parse text = request_message asked

-- The reply to the first copy is late.
abbrev second : ℕ → Option Str
second i = if i == 1 then some (str "ok") else none

asked-IsProper : IsProper outside asked
unfolding end_of
asked-IsProper e = cc

plain : c_str (str "c") ≡ str "c"
unfolding c_str
plain = refl

admitted :
    process_message whole outside (started whole limits) asked
    ≡ some (reserved, true, some (reply_of (pos 0) []))
admitted = rw asked-request admit_c

reserve_resources-serve_example :
    let sent =
      messages (reserve_resources encode second (str "c") (str "/f") (pos 60) (pos 3600)).1 in
    Returns
      (ReservedOnce whole reserved (length sent))
      (serve whole (started whole limits) (arrivals parse (λ i. outside) sent))
reserve_resources-serve_example =
    reserve_resources-serve whole encode parse second (str "c") (str "/f") (pos 60) 3599
      (λ i. outside) (started whole limits) reserved refl refl plain (λ i. asked-IsProper)
      empty-IsValid admitted
