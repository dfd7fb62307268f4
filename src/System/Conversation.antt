-- ===== src/System/Conversation.antt =====
-- A client and the server: the texts that src/client/Client.cpp sends, as they come in at
-- src/server/Server.cpp. A request whose reply is late is sent again, so several copies of it come in.
mod Tests
use qos_planner.Common.{
  ℕ, zero, suc, ◌≡◌, refl, ap, ◌∙◌, List, [], ◌∷◌, Bool, true, false, Option, none, some, Str, ◌⊎◌,
  inl, inr, arith, Returns, returns, Returns-bind, Returns-map, Returns-at, Option-cases, length,
  if◌then◌else◌,
}
use qos_planner.Job.{Job, scheduled, set_state}
use qos_planner.Schedule.Valid.{IsValid, view}
use qos_planner.Rules.{is_empty}
use qos_planner.Message.{ℤ, pos, negsuc, Request, reserve, Reply}
use qos_planner.Retry.{c_str}
use qos_planner.Retry.Attempts.{messages, replicate, length-replicate, send_and_receive-Attempts}
use qos_planner.Client.{reserve_resources}
use qos_planner.Client.Reserve.{reservation}
use qos_planner.Client.Commands.{reserve_resources-sends}
use qos_planner.Scheduler.Static.{Floats}
use qos_planner.Planner.{Planner, Answer, reply_of, end_of, build_job}
use qos_planner.Planner.Submission.{SubmissionOutcome, serve_job_submission_correct}
use qos_planner.Server.{
  arrivals, Outside, Parsed, request_message, process_message, serve_message, serve,
}
use qos_planner.Server.Replies.{IsProper}

-- The reply is empty or a refusal.
abbrev pub IsRefusal : Option Reply → Type 0
IsRefusal reply = (reply ≡ none) ⊎ (reply ≡ some (reply_of (negsuc 0) []))

abbrev pub AreRefusals : List (Option Reply) → Type 0
AreRefusals [] = Unit {0}
AreRefusals (r ∷ rs) = IsRefusal r × AreRefusals rs

module _ (floats : Floats) (request : Request) (reserves : request.request_type ≡ reserve) where
  -- A reservation whose id is known changes nothing and is refused.
  known_refused :
      (o : Outside) (s : Planner floats) (j : Job)
      → IsValid s.monitor.schedule
      → view s.monitor.schedule request.resource_request.id ≡ some j
      → IsProper o request
      → Returns
          (λ (r : Answer floats). (r.0 ≡ s) × IsRefusal r.2)
          (process_message floats o s request)
  unfolding process_message
  known_refused o s j v known proper =
      elim (Option-cases (end_of o.now request.resource_request.duration_sec)) [
        | inl late ↦ absurd ((rw reserves at proper) late)
        | inr (tend, ends) ↦ rw reserves (
            Returns-map
              (serve_job_submission_correct floats o.lustre o.visit o.stack s o.now
                request.resource_request tend v ends)
              λ r out. refused tend r out)
      ]
    where
      refused :
          (tend : ℕ) (r : Answer floats)
          → SubmissionOutcome floats o.lustre o.visit o.stack s o.now request.resource_request tend
              r
          → (r.0 ≡ s) × IsRefusal r.2
      refused tend r (inl (_, same, _, reply)) = (same, inl reply)
      refused tend r (inr (inl (_, same, _, reply))) = (same, inl reply)
      refused tend r (inr (inr (_, _, inl (same, _), reply))) = (
        ap (λ x. x.0) same,
        inr (
            reply
            ∙ ap
                (λ (x : Planner floats × Bool).
                  some (reply_of (if x.1 then pos 0 else negsuc 0) []))
                same),
      )
      refused tend r (inr (inr (_, _, inr (_, _, unknown, _), reply))) = cc

  -- A reservation that is admitted is known then.
  admitted_known :
      (o : Outside) (s p : Planner floats)
      → IsValid s.monitor.schedule
      → IsProper o request
      → process_message floats o s request ≡ some (p, true, some (reply_of (pos 0) []))
      → IsValid p.monitor.schedule
        × ((j : Job) × (view p.monitor.schedule request.resource_request.id ≡ some j))
  unfolding process_message
  admitted_known o s p v proper e =
      elim (Option-cases (end_of o.now request.resource_request.duration_sec)) [
        | inl late ↦ absurd ((rw reserves at proper) late)
        | inr (tend, ends) ↦ known tend (
            Returns-at
              (serve_job_submission_correct floats o.lustre o.visit o.stack s o.now
                request.resource_request tend v ends)
              (rw reserves at e))
      ]
    where
      known :
          (tend : ℕ)
          → SubmissionOutcome floats o.lustre o.visit o.stack s o.now request.resource_request tend
              (p, true, some (reply_of (pos 0) []))
          → IsValid p.monitor.schedule
            × ((j : Job) × (view p.monitor.schedule request.resource_request.id ≡ some j))
      known tend (inl (_, _, _, none_set)) = cc
      known tend (inr (inl (_, _, failed, _))) = cc
      known tend (inr (inr (_, _, inl (same, _), _))) = absurd (
          let no : true ≡ false = ap (λ (x : Planner floats × Bool). x.1) same in
          let no' : ⊥ = cc in no')
      known tend (inr (inr (osts_set, _, inr (_, _, _, a), _))) =
          let job =
            set_state scheduled (build_job o.visit request.resource_request o.now tend osts_set) in
          (a.valid, (job, ground (arith, a.states request.resource_request.id)))

  -- A copy of a reservation that is known is answered by a refusal.
  abbrev CopyServed : Planner floats → Planner floats × List (Option Reply) → Type 0
  CopyServed s r = (r.0 ≡ s) × (reply : Option Reply) × (r.1 ≡ reply ∷ []) × IsRefusal reply

  copy_refused :
      (o : Outside) (s : Planner floats) (j : Job)
      → IsValid s.monitor.schedule
      → view s.monitor.schedule request.resource_request.id ≡ some j
      → IsProper o request
      → Returns (CopyServed s) (serve_message floats o s (request_message request))
  unfolding serve_message
  copy_refused o s j v known proper =
      Returns-bind (known_refused o s j v known proper)
        λ (s', success, reply) (same, refusal). returns (same, reply, refl, refusal)

  -- Further copies of a reservation that is known change nothing, and each is answered by a refusal.
  copies_refused :
      (parse : Str → Parsed) (os : ℕ → Outside) (text : Str) (n : ℕ) (s : Planner floats) (j : Job)
      → parse text ≡ request_message request
      → ((i : ℕ) → IsProper (os i) request)
      → IsValid s.monitor.schedule
      → view s.monitor.schedule request.resource_request.id ≡ some j
      → Returns
          (λ (r : Planner floats × List (Option Reply)).
            (r.0 ≡ s) × AreRefusals r.1 × (length r.1 ≡ n))
          (serve floats s (arrivals parse os (replicate n text)))
  unfolding serve replicate
  copies_refused parse os text zero s j reads proper v known = returns (refl, tt, refl)
  copies_refused parse os text (suc n) s j reads proper v known = rw reads (
      Returns-bind (copy_refused (os 0) s j v known (proper 0)) λ r (same, reply, sent, refusal).
        rw (same, sent)
          (Returns-bind
            (copies_refused parse (λ i. os (suc i)) text n s j reads (λ i. proper (suc i)) v known)
            λ r' (same', refusals, count).
              returns (same', (refusal, refusals), omega (arith, count))))

-- What comes of a reservation whose first copy is admitted: the planner is as after that copy, however
-- many copies come in, and the replies to the later ones are refusals; the client succeeds.
abbrev pub ReservedOnce :
    (floats : Floats) → Planner floats → ℕ → Planner floats × List (Option Reply) → Type 0
ReservedOnce floats p copies r =
    (r.0 ≡ p)
    × (later : List (Option Reply)) × (r.1 ≡ some (reply_of (pos 0) []) ∷ later)
    × AreRefusals later
    × (length r.1 ≡ copies)

-- The client sends copies of one text, if that has no zero byte.
sent_copies :
    (encode : Request → Str) (polls : ℕ → Option Str) (id filenames : Str) (mbs : ℤ) (seconds : ℕ)
    → let text = encode (reservation id filenames mbs (suc seconds)) in
      is_empty filenames ≡ false
      → c_str text ≡ text
      → (k : ℕ) × (messages (reserve_resources encode polls id filenames mbs (pos (suc seconds))).1
          ≡ text ∷ replicate k text)
sent_copies encode polls id filenames mbs seconds full plain =
    let text = encode (reservation id filenames mbs (suc seconds)) in
    let (repeated, sent, a) = send_and_receive-Attempts 2 polls text in
    let again : repeated ≡ replicate a.k text = a.sent ∙ ap (replicate a.k) plain in
    let same = reserve_resources-sends encode polls id filenames mbs seconds full in
    (a.k, rw same (sent ∙ ap (λ r. text ∷ r) again))

-- A reservation with file names and a positive duration, in an encoding that is read back and has
-- no zero bytes, that the server, on a valid schedule, admits at the first of the copies that
-- TryReserveResources sends, each copy being proper when it comes in: the server serves all these
-- copies without fail, one reply for each; then the planner is as after the first copy, the first
-- reply has the code 0, and each later one is empty or a refusal.
pub reserve_resources-serve :
    (floats : Floats) (encode : Request → Str) (parse : Str → Parsed) (polls : ℕ → Option Str)
    (id filenames : Str) (mbs : ℤ) (seconds : ℕ) (os : ℕ → Outside) (s p : Planner floats)
    → let request = reservation id filenames mbs (suc seconds) in
      is_empty filenames ≡ false
      → parse (encode request) ≡ request_message request
      → c_str (encode request) ≡ encode request
      → ((i : ℕ) → IsProper (os i) request)
      → IsValid s.monitor.schedule
      → process_message floats (os 0) s request ≡ some (p, true, some (reply_of (pos 0) []))
      → let sent =
          messages (reserve_resources encode polls id filenames mbs (pos (suc seconds))).1 in
        Returns (ReservedOnce floats p (length sent)) (serve floats s (arrivals parse os sent))
unfolding serve serve_message
reserve_resources-serve floats encode parse polls id filenames mbs seconds os s p full reads plain
      proper v admitted =
    let request = reservation id filenames mbs (suc seconds) in
    let (valid, (j, known)) = admitted_known floats request refl (os 0) s p v (proper 0) admitted in
    let text = encode request in
    let (k, copies) = sent_copies encode polls id filenames mbs seconds full plain in
    rw (copies, reads, admitted)
      (Returns-bind
        (copies_refused floats request refl parse (λ i. os (suc i)) text k p j reads
          (λ i. proper (suc i)) valid known)
        λ r (same, refusals, count).
          returns (same, r.1, refl, refusals, omega (arith, count, length-replicate k text)))
