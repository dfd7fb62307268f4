-- ===== src/Server/Replies.antt =====
-- The replies of the server, and properties of its state that messages keep.
use qos_planner.Common.{
  ℕ, ◌+◌, ◌≡◌, ◌≢◌, refl, ap, List, [], ◌∷◌, Bool, Option, none, Str, length, length-append, arith,
  Option-cases, inl, inr, Returns, returns, Returns-bind, Returns-map,
}
use qos_planner.Schedule.Valid.{IsValid}
use qos_planner.Message.{Request, RequestType, invalid, reserve, delete, listjobs, Reply}
use qos_planner.Scheduler.Static.{Floats}
use qos_planner.Planner.{Planner, Answer, serve_job_remove, end_of, add_default_regex_if_empty}
use qos_planner.Planner.Submission.{SubmissionOutcome, serve_job_submission_correct}
use qos_planner.Planner.Removal.{serve_job_remove-Forgot}
use qos_planner.Planner.Listing.{serve_list_jobs-Listed}
use qos_planner.Server.{
  Parsed, unparsable, request_message, reply_message, reply_in_request, Outside, process_message,
  serve_message, serve,
}

-- The request is one that the planner can work on: a reservation ends in the range of the clock, and a
-- regular expression compiles.
abbrev pub IsProper : Outside → Request → Type 0
IsProper o request = elim request.request_type [
  | invalid ↦ Unit {0}
  | reserve ↦ end_of o.now request.resource_request.duration_sec ≢ none
  | delete ↦ Unit {0}
  | listjobs ↦ o.compile (add_default_regex_if_empty request.regex) ≢ none
]

abbrev pub IsProperMessage : Outside → Parsed → Type 0
IsProperMessage o unparsable = Unit {0}
IsProperMessage o (request_message request) = IsProper o request
IsProperMessage o (reply_message request) = Unit {0}
IsProperMessage o (reply_in_request reply) = Unit {0}

-- One for each message but those that are replies themselves.
abbrev pub expected : Parsed → ℕ
expected unparsable = 1
expected (request_message request) = 1
expected (reply_message request) = 0
expected (reply_in_request reply) = 1

-- A property of the server's state that its handlers keep, and that makes the schedule valid, is kept
-- by every proper message.
module _ (floats : Floats) (Keeps : Planner floats → Type 0)
    (valid : (s : Planner floats) → Keeps s → IsValid s.monitor.schedule)
    (submitted : (o : Outside) (s : Planner floats) (request : Request) (tend : ℕ)
        (r : Answer floats)
      → Keeps s
      → SubmissionOutcome floats o.lustre o.visit o.stack s o.now request.resource_request tend r
      → Keeps r.0)
    (removed : (s : Planner floats) (ids : List Str)
      → Keeps s
      → Returns (λ (r : Answer floats). Keeps r.0) (serve_job_remove floats s ids)) where
  process_message-Keeps :
      (o : Outside) (s : Planner floats) (request : Request)
      → Keeps s
      → IsProper o request
      → Returns (λ (r : Answer floats). Keeps r.0) (process_message floats o s request)
  unfolding process_message
  process_message-Keeps o s request v proper = by_type request.request_type refl
    where
      by_type :
          (t : RequestType)
          → request.request_type ≡ t
          → Returns (λ (r : Answer floats). Keeps r.0) (process_message floats o s request)
      by_type invalid e = rw e (returns v)
      by_type reserve e = elim (Option-cases (end_of o.now request.resource_request.duration_sec)) [
        | inl late ↦ absurd ((rw e at proper) late)
        | inr (tend, ends) ↦ rw e (
            Returns-map
              (serve_job_submission_correct floats o.lustre o.visit o.stack s o.now
                request.resource_request tend (valid s v) ends)
              λ r out. submitted o s request tend r v out)
      ]
      by_type delete e = rw e (removed s request.delete_ids v)
      by_type listjobs e =
          elim (Option-cases (o.compile (add_default_regex_if_empty request.regex))) [
            | inl broken ↦ absurd ((rw e at proper) broken)
            | inr (search, compiles) ↦ rw e (
                Returns-map
                  (serve_list_jobs-Listed floats o.compile o.put_time s request.regex search
                    (valid s v) compiles)
                  λ r l. rw (l.0) v)
          ]

  pub serve_message-Keeps :
      (o : Outside) (s : Planner floats) (m : Parsed)
      → Keeps s
      → IsProperMessage o m
      → Returns
          (λ (r : Planner floats × List (Option Reply)). Keeps r.0 × (length r.1 ≡ expected m))
          (serve_message floats o s m)
  unfolding serve_message
  serve_message-Keeps o s unparsable v proper = returns (v, refl)
  serve_message-Keeps o s (reply_message request) v proper = returns (v, refl)
  serve_message-Keeps o s (reply_in_request reply) v proper = returns (v, refl)
  serve_message-Keeps o s (request_message request) v proper =
      Returns-bind (process_message-Keeps o s request v proper) λ r kept. returns (kept, refl)

module _ (floats : Floats) where
  abbrev pub HasValid : Planner floats → Type 0
  HasValid s = IsValid s.monitor.schedule

  SubmissionOutcome-IsValid :
      (o : Outside) (s : Planner floats) (request : Request) (tend : ℕ) (r : Answer floats)
      → HasValid s
      → SubmissionOutcome floats o.lustre o.visit o.stack s o.now request.resource_request tend r
      → HasValid r.0
  SubmissionOutcome-IsValid o s request tend (s', b, reply) v (inl (_, same, _, _)) = rw same v
  SubmissionOutcome-IsValid o s request tend (s', b, reply) v (inr (inl (_, same, _, _))) =
      rw same v
  SubmissionOutcome-IsValid o s request tend (s', b, reply) v (inr (inr (_, _, inl (same, _), _))) =
      rw (ap (λ (p : Planner floats × Bool). p.0) same) v
  SubmissionOutcome-IsValid o s request tend (s', b, reply) v
        (inr (inr (_, _, inr (_, _, _, a), _))) =
      a.valid

  pub serve_message-IsValid :
      (o : Outside) (s : Planner floats) (m : Parsed)
      → HasValid s
      → IsProperMessage o m
      → Returns
          (λ (r : Planner floats × List (Option Reply)). HasValid r.0 × (length r.1 ≡ expected m))
          (serve_message floats o s m)
  serve_message-IsValid =
      serve_message-Keeps floats HasValid (λ s v. v) SubmissionOutcome-IsValid
        λ s ids v. Returns-map (serve_job_remove-Forgot floats s ids v) λ r f. f.0.0

  abbrev pub AreProper : List (Outside × Parsed) → Type 0
  AreProper [] = Unit {0}
  AreProper ((o, m) ∷ ms) = IsProperMessage o m × AreProper ms

  abbrev pub total : List (Outside × Parsed) → ℕ
  total [] = 0
  total ((o, m) ∷ ms) = expected m + total ms

  -- Whatever proper messages come in, in whatever order, the server never fails on a valid schedule
  -- and keeps it valid, and it sends one message for each that comes in, but none for one that is a
  -- reply itself.
  pub serve-IsValid :
      (s : Planner floats) (ms : List (Outside × Parsed))
      → IsValid s.monitor.schedule
      → AreProper ms
      → Returns
          (λ (r : Planner floats × List (Option Reply)).
            IsValid r.0.monitor.schedule × (length r.1 ≡ total ms))
          (serve floats s ms)
  unfolding serve
  serve-IsValid s [] v proper = returns (v, refl)
  serve-IsValid s ((o, m) ∷ ms) v (proper, rest) =
      Returns-bind (serve_message-IsValid o s m v proper) λ r (valid, sent).
        Returns-bind (serve-IsValid r.0 ms valid rest)
          λ r' (valid', later). returns (valid', omega (arith, sent, later, length-append r.1 r'.1))
