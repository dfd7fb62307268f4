-- ===== src/System/Program.antt =====
-- `main` of src/server/main.cpp, with `Init` of src/server/Server.cpp: the planner is made, its parts are
-- started, and then messages are served as long as they come in. The call of `TearDown` behind the
-- endless loop is never reached.
mod Tests
use qos_planner.Common.{
  ℕ, ◌≡◌, refl, ap, sym, List, [], ◌∷◌, ◌++◌, Bool, true, false, Option, none, some, length, ◌⊎◌,
  inl, inr, arith, subst, Option-cases, Returns, returns, Returns-inv, Str, if◌then◌else◌, ◌>>=◌,
}
use qos_planner.Rules.{is_empty}
use qos_planner.Schedule.{get_all_jobs}
use qos_planner.Schedule.Valid.{IsValid, empty-IsValid}
use qos_planner.Message.{Reply}
use qos_planner.Scheduler.Static.{Floats}
use qos_planner.Scheduler.Limits
use qos_planner.Scheduler.Limits.{
  HasMistyped, parse_limits-threw, LimitElement, parse_limits, Reading, threw, failed, succeeded,
}
use qos_planner.Planner.{Planner}
use qos_planner.Planner.Lifecycle.{
  init, new_planner, PartCall, tear_down_monitor, tear_down_schedule, all_inits,
}
use qos_planner.Server.{Outside, Parsed, serve_message, serve}
use qos_planner.Server.Replies.{IsProperMessage, AreProper, total, serve-IsValid}
use qos_planner.System.{started, Step, Reach}

-- `Server::Init`: only an empty root path is accepted.
unfoldable pub init_server : Str → Bool
init_server root_path = is_empty root_path

module _ (floats : Floats) where
  -- `main` behind `Init` of the planner. The result of `Init` of the server is ignored; to serve without
  -- its socket is undefined behaviour.
  unfoldable pub serve_ready :
      List (Outside × Parsed)
      → Reading (Planner floats)
      → Option (Reading (Planner floats × List (Option Reply)))
  unfolding init_server serve
  serve_ready ms failed = some failed
  serve_ready ms threw = some threw
  serve_ready ms (succeeded p) =
      if init_server [] then (serve floats p ms >>= λ served. some (succeeded served)) else none

  -- `main`, as long as messages come in: `failed` is an exit with -1, `threw` an exception that ends the
  -- program, and otherwise there are the planner and the messages that are sent.
  unfoldable pub main_server :
      Option (Option (List (LimitElement floats)))
      → List (Outside × Parsed)
      → Option (Reading (Planner floats × List (Option Reply)))
  unfolding init serve_ready
  main_server file ms =
      init floats (new_planner floats) file >>= λ (ready, calls). serve_ready ms ready

  -- The limits that the file sets, if it can be read.
  abbrev pub limits_of :
      Option (Option (List (LimitElement floats))) → Reading (List (Str × floats.Float))
  limits_of none = succeeded []
  limits_of (some file) = parse_limits floats file

  init-unread :
      (file : Option (Option (List (LimitElement floats))))
      → limits_of file ≡ failed
      → init floats (new_planner floats) file
        ≡ some (failed, all_inits ++ tear_down_monitor ∷ tear_down_schedule ∷ [])
  unfolding init Limits.init get_all_jobs
  init-unread file unread = ground arith

  init-threw :
      (file : Option (Option (List (LimitElement floats))))
      → limits_of file ≡ threw
      → init floats (new_planner floats) file ≡ some (threw, all_inits)
  unfolding init Limits.init get_all_jobs
  init-threw file wrong = ground arith

  init-started :
      (file : Option (Option (List (LimitElement floats)))) (limits : List (Str × floats.Float))
      → limits_of file ≡ succeeded limits
      → init floats (new_planner floats) file ≡ some (succeeded (started floats limits), all_inits)
  unfolding init Limits.init get_all_jobs
  init-started file limits read = ground arith

  serve-Reach :
      (ms : List (Outside × Parsed)) {s₀ s t : Planner floats} {sent : List (Option Reply)}
      → AreProper floats ms
      → Reach floats s₀ s
      → serve floats s ms ≡ some (t, sent)
      → Reach floats s₀ t
  unfolding serve
  serve-Reach [] {s₀} proper r e = subst (Reach floats s₀) (ground arith) r
  serve-Reach ((o, m) ∷ ms) {s₀} {s} {t} (proper, others) r e =
      elim (Option-cases (serve_message floats o s m)) [
        | inl stuck ↦ absurd (let no : ⊥ = ground arith in no)
        | inr ((s', sent'), done) ↦ elim (Option-cases (serve floats s' ms)) [
          | inl stuck ↦ absurd (let no : ⊥ = ground arith in no)
          | inr ((t', later), ran) ↦
              let end : t' ≡ t = ground arith in
              subst (Reach floats s₀) end
                (serve-Reach ms others (Reach.next r (Step.message o m proper done)) ran)
        ]
      ]

  of_file :
      (file : Option (Option (List (LimitElement floats))))
      → limits_of file ≡ threw
      → (es : List (LimitElement floats)) × (file ≡ some (some es)) × HasMistyped floats es
  of_file none e = cc
  of_file (some content) e =
      let (es, parsed, wrong) = parse_limits-threw floats content e in (es, ap some parsed, wrong)

  -- What the process comes to: without readable limits nothing is served; otherwise it reaches, from
  -- the start with these limits, a valid schedule, and has sent a message for each that came in and is
  -- not a reply.
  abbrev pub ServerOutcome :
      Option (Option (List (LimitElement floats)))
      → List (Outside × Parsed)
      → Reading (Planner floats × List (Option Reply))
      → Type 0
  ServerOutcome file ms failed = limits_of file ≡ failed
  ServerOutcome file ms threw =
      (es : List (LimitElement floats)) × (file ≡ some (some es)) × HasMistyped floats es
  ServerOutcome file ms (succeeded (p, sent)) =
      (limits : List (Str × floats.Float)) × (limits_of file ≡ succeeded limits)
      × Reach floats (started floats limits) p
      × IsValid p.monitor.schedule
      × (length sent ≡ total floats ms)

  -- For every file of limits and all proper messages, main of the server runs without undefined
  -- behaviour: if the file cannot be read or does not parse, it ends with -1 and serves nothing; if
  -- an exception ends it at its start, an element of the file has a name or a limit of a wrong type
  -- beside the other key; otherwise, with no file or a readable one, it comes from the start of the
  -- process with the limits of the file, by steps of the process as a whole, to a valid schedule,
  -- and has sent one message for each that came in and was not a reply itself.
  pub main_server-ServerOutcome :
      (file : Option (Option (List (LimitElement floats)))) (ms : List (Outside × Parsed))
      → AreProper floats ms
      → Returns (ServerOutcome file ms) (main_server file ms)
  unfolding main_server
  main_server-ServerOutcome file ms proper = by_limits (limits_of file) refl
    where
      from :
          {i : Option (Reading (Planner floats) × List PartCall)}
          → init floats (new_planner floats) file ≡ i
          → Returns (ServerOutcome file ms) (i >>= λ (ready, calls). serve_ready ms ready)
          → Returns (ServerOutcome file ms) (main_server file ms)
      from e =
          subst
            (λ i. Returns (ServerOutcome file ms) (i >>= λ (ready, calls). serve_ready ms ready))
            (sym e)

      by_limits :
          (r : Reading (List (Str × floats.Float)))
          → limits_of file ≡ r
          → Returns (ServerOutcome file ms) (main_server file ms)
      by_limits failed e = from (init-unread file e) (returns e)
      by_limits threw e = from (init-threw file e) (returns (of_file file e))
      by_limits (succeeded limits) e =
          let (r, served, (valid, count)) =
            Returns-inv (serve-IsValid floats (started floats limits) ms empty-IsValid proper) in
          from (init-started file limits e)
            (rw served (returns (limits, e, serve-Reach ms proper Reach.here served, valid, count)))
