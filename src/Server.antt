-- ===== src/Server.antt =====
-- src/server/Server.h and .cpp: the messages from clients, one after the other. The sockets and the
-- decoding of a text are parameters; of a text that does not parse nothing is used.
pub mod Replies
mod Tests
use qos_planner.Common.{
  ℕ, suc, List, [], ◌∷◌, ◌++◌, Bool, true, false, Option, none, some, ◌>>=◌, Str,
}
use qos_planner.Job.{Job}
use qos_planner.Lustre.{Lustre}
use qos_planner.Message.{pos, Request, RequestType, invalid, reserve, delete, listjobs, Reply}
use qos_planner.Scheduler.Static.{Floats}
use qos_planner.Planner.{
  Planner, Answer, reply_of, serve_job_submission, serve_job_remove, serve_list_jobs,
}

-- What `ParseFromString` makes of a text.
pub data Parsed : Type 0 where
  unparsable : Parsed
  request_message reply_message : Request → Parsed
  -- of the type of a request, with a reply in it
  reply_in_request : Reply → Parsed

-- What the world outside of the server answers while one message is served.
pub record Outside : Type 0 where
  pub now : ℕ
  pub lustre : Lustre
  pub visit : List Str → List Str
  pub stack : ℕ → ℕ
  pub compile : Str → Option (Str → Bool)
  pub put_time : ℕ → Str

-- The texts as they come in, one after the other, each at its own time.
abbrev pub arrivals : (Str → Parsed) → (ℕ → Outside) → List Str → List (Outside × Parsed)
arrivals parse os [] = []
arrivals parse os (text ∷ texts) = (os 0, parse text) ∷ arrivals parse (λ i. os (suc i)) texts

module _ (floats : Floats) where
  -- `ProcessMessage`
  unfoldable pub process_message : Outside → Planner floats → Request → Option (Answer floats)
  unfolding serve_job_submission serve_job_remove serve_list_jobs
  process_message o s request = elim request.request_type [
    | invalid ↦ some (s, false, none)
    | reserve ↦
        serve_job_submission floats o.lustre o.visit o.stack s o.now request.resource_request
    | delete ↦ serve_job_remove floats s request.delete_ids
    | listjobs ↦ serve_list_jobs floats o.compile o.put_time s request.regex
  ]

  -- One round of `Serve`: the messages that are sent, each with the reply in it, if there is one.
  unfoldable pub serve_message :
      Outside → Planner floats → Parsed → Option (Planner floats × List (Option Reply))
  unfolding process_message
  serve_message o s unparsable = some (s, some (reply_of (pos 1) []) ∷ [])
  serve_message o s (reply_message request) = some (s, [])
  serve_message o s (reply_in_request reply) = some (s, some reply ∷ [])
  serve_message o s (request_message request) =
      process_message o s request >>= λ (s', success, reply). some (s', reply ∷ [])

  -- `Serve`, as long as messages come in.
  unfoldable pub serve :
      Planner floats → List (Outside × Parsed) → Option (Planner floats × List (Option Reply))
  unfolding serve_message
  serve s [] = some (s, [])
  serve s ((o, m) ∷ ms) = serve_message o s m >>= λ (s', sent).
      serve s' ms >>= λ (s'', later). some (s'', sent ++ later)
