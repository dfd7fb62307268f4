-- ===== src/System/Bound.antt =====
-- `main` of src/server/main.cpp with the socket that src/server/Server.cpp binds and serves.
mod Tests
use qos_planner.Common.{
  ℕ, zero, suc, ◌<◌, ◌≡◌, refl, ap, ◌∙◌, List, [], ◌∷◌, ◌++◌, length, Bool, true, false, Option,
  none, some, ◌>>=◌, Str, str, arith, inl, inr, Option-cases, if◌then◌else◌,
}
use qos_planner.Rules.{is_empty}
use qos_planner.Message.{ℤ, negsuc, Reply}
use qos_planner.Scheduler.Static.{Floats}
use qos_planner.Scheduler.Limits.{LimitElement, Reading, threw, failed, succeeded}
use qos_planner.Planner.{Planner}
use qos_planner.Planner.Lifecycle
use qos_planner.Planner.Lifecycle.{new_planner, PartCall}
use qos_planner.Server.{
  Outside, Parsed, unparsable, request_message, reply_message, reply_in_request, arrivals,
  process_message, serve_message, serve,
}
use qos_planner.Socket.{Zmq, RepLaws, Ending, thrown, exited, serve_loop}
use qos_planner.Socket.Loop.{
  run_rounds, AnswersAre, up_to_unanswered, ending, serve_loop-run_rounds,
}
use qos_planner.System.Program.{init_server, serve_ready, main_server}

module _ (floats : Floats) (z : Zmq) where
  pub record Server : Type 0 where
    pub ip_port : Str
    pub root_path : Str
    pub planner : Planner floats
    pub server : Option z.Socket

  -- The constructor of `Server`.
  unfoldable pub new_server : Str → Str → Planner floats → Server
  new_server ip_port root_path planner = record {
    ip_port = ip_port;
    root_path = root_path;
    planner = planner;
    server = none;
  }

  -- `Server::initZMQ`; `none` is an exception.
  unfoldable pub init_zmq : Server → Option Server
  init_zmq s =
      z.bind (str "tcp://" ++ s.ip_port) >>= λ socket. some (record s { server = some socket })

  -- `Server::Init`
  unfoldable pub init : Server → Option (Bool × Server)
  unfolding init_zmq
  init s =
      if is_empty s.root_path then (init_zmq s >>= λ bound. some (true, bound)) else some (false, s)

  module _ (parse : Str → Parsed) (encode : Option Reply → Str) (os : ℕ → Outside) where
    -- One round, with what is outside of the server then.
    unfoldable pub round : ℕ → Planner floats → Str → Option (Planner floats × List (Option Reply))
    unfolding serve_message
    round i p request = serve_message floats (os i) p (parse request)

    -- `Server::Serve`, for so many rounds; without a socket it is undefined behaviour.
    unfoldable pub serve_on : ℕ → Server → Option (Planner floats × List (Option Reply) × Ending)
    unfolding round serve_loop
    serve_on n s = s.server >>= λ socket. serve_loop z encode n round s.planner socket

    -- `main` behind `Init` of the server, whose result is ignored.
    unfoldable pub main_started :
        ℕ
        → Planner floats
        → Option (Bool × Server)
        → Option (Option (Planner floats × List (Option Reply)) × Ending)
    unfolding serve_on
    main_started n planner none = some (some (planner, []), thrown)
    main_started n planner (some (success, s)) =
        serve_on n s >>= λ (p, sent, end). some (some (p, sent), end)

    -- `main`, with what `Init` makes of the planner: what has become of it, and the messages that are sent.
    unfoldable pub main_ready :
        ℕ
        → Str
        → Reading (Planner floats)
        → Option (Option (Planner floats × List (Option Reply)) × Ending)
    unfolding new_server init main_started
    main_ready n ip_port failed = some (none, exited (negsuc 0))
    main_ready n ip_port threw = some (none, thrown)
    main_ready n ip_port (succeeded planner) =
        main_started n planner (init (new_server ip_port [] planner))

    -- `main`, with the flags for the address and the file of limits.
    unfoldable pub main_bound :
        ℕ
        → Str
        → Str
        → Option (Option (List (LimitElement floats)))
        → Option (Option (Planner floats × List (Option Reply)) × Ending)
    unfolding Lifecycle.init main_ready
    main_bound n ip port file =
        Lifecycle.init floats (new_planner floats) file >>= λ (ready, calls).
        main_ready n (ip ++ str ":" ++ port) ready

-- Whether a message comes back for what came in.
abbrev is_answered : Parsed → Bool
is_answered unparsable = true
is_answered (request_message request) = true
is_answered (reply_message request) = false
is_answered (reply_in_request reply) = true

one_answer :
    (floats : Floats) (o : Outside) (s s' : Planner floats) (m : Parsed)
    (sent : List (Option Reply))
    → serve_message floats o s m ≡ some (s', sent)
    → length sent ≡ (if is_answered m then 1 else 0)
unfolding serve_message
one_answer floats o s s' unparsable sent e = ground arith
one_answer floats o s s' (reply_message request) sent e = ground arith
one_answer floats o s s' (reply_in_request reply) sent e = ground arith
one_answer floats o s s' (request_message request) sent e =
    elim (Option-cases (process_message floats o s request)) [
      | inl stuck ↦ absurd (let no_answer : ⊥ = ground arith in no_answer)
      | inr (r, done) ↦ ground arith
    ]

run_rounds-serve :
    (floats : Floats) (z : Zmq) (parse : Str → Parsed) (encode : Option Reply → Str)
    (os : ℕ → Outside) (s : Planner floats) (texts : List Str)
    → run_rounds (round floats z parse encode os) s texts ≡ serve floats s (arrivals parse os texts)
unfolding run_rounds round serve
run_rounds-serve floats z parse encode os s [] = refl
run_rounds-serve floats z parse encode os s (text ∷ texts) =
    elim (Option-cases (serve_message floats (os 0) s (parse text))) [
      | inl stuck ↦ rw stuck refl
      | inr ((s', sent), done) ↦
          rw (done, run_rounds-serve floats z parse encode (λ i. os (suc i)) s' texts) refl
    ]

-- The same without a socket: the exit code or the exception where the planner cannot start, and otherwise
-- what comes of the loop.
abbrev pub with_ending :
    {floats : Floats}
    → Ending
    → Reading (Planner floats × List (Option Reply))
    → Option (Planner floats × List (Option Reply)) × Ending
with_ending end failed = (none, exited (negsuc 0))
with_ending end threw = (none, thrown)
with_ending end (succeeded served) = (some served, end)

-- The texts that are received: a message that is a reply itself is the last.
abbrev pub heard : (Str → Parsed) → List Str → List Str
heard parse texts = up_to_unanswered (λ text. is_answered (parse text)) texts

-- What comes of the loop: an exception behind a reply, and otherwise it waits.
abbrev pub comes_to : (Str → Parsed) → List Str → Ending
comes_to parse texts = ending (λ text. is_answered (parse text)) texts

module _ (floats : Floats) (z : Zmq) (laws : RepLaws z) (parse : Str → Parsed)
    (encode : Option Reply → Str) (os : ℕ → Outside) (texts : List Str) where
  started_server :
      (ip_port : Str) (socket : z.Socket) (p : Planner floats)
      → z.bind (str "tcp://" ++ ip_port) ≡ some socket
      → init floats z (new_server floats z ip_port [] p)
        ≡ some (true, record (new_server floats z ip_port [] p) { server = some socket })
  unfolding init init_zmq new_server
  started_server ip_port socket p bound =
      ap
        (λ b.
          b
          >>= (λ socket. some (record (new_server floats z ip_port [] p) { server = some socket }))
          >>= λ ready. some (true, ready))
        bound

  answers_are : AnswersAre (λ text. is_answered (parse text)) (round floats z parse encode os)
  unfolding round
  answers_are i s text s' sent e = one_answer floats (os i) s s' (parse text) sent e

  served_ready :
      (n : ℕ) (ip_port : Str) (socket : z.Socket) (ready : Reading (Planner floats))
      → z.bind (str "tcp://" ++ ip_port) ≡ some socket
      → laws.Ready socket texts
      → length texts < n
      → main_ready floats z parse encode os n ip_port ready ≡ (
          serve_ready floats (arrivals parse os (heard parse texts)) ready >>= λ r.
          some (with_ending (comes_to parse texts) r))
  unfolding main_ready main_started serve_on serve_ready init_server
  served_ready n ip_port socket failed bound listens h = refl
  served_ready n ip_port socket threw bound listens h = refl
  served_ready n ip_port socket (succeeded p) bound listens h =
      ap (main_started floats z parse encode os n p) (started_server ip_port socket p bound)
      ∙ ap (λ r. r >>= λ (p', sent, end). some (some (p', sent), end))
          (serve_loop-run_rounds z laws encode (λ text. is_answered (parse text)) n
            (round floats z parse encode os) p socket texts answers_are listens h)
      ∙ rw (run_rounds-serve floats z parse encode os p (heard parse texts))
          (elim (Option-cases (serve floats p (arrivals parse os (heard parse texts)))) [
            | inl stuck ↦ rw stuck refl
            | inr (r, done) ↦ rw done refl
          ])

  -- If a socket of type REP can be bound to the address of the flags, and given texts are sent to
  -- it, then main of the server, for more rounds than there are texts, does with them what it does
  -- without a socket with the texts up to and including the first message that is a reply itself;
  -- behind that one an exception ends the program, and if there is none, it waits for further
  -- texts. If the planner cannot be started, the program ends with -1, or with the exception of the
  -- start.
  pub main_bound-main_server :
      (n : ℕ) (ip port : Str) (file : Option (Option (List (LimitElement floats))))
      (socket : z.Socket)
      → z.bind (str "tcp://" ++ ip ++ str ":" ++ port) ≡ some socket
      → laws.Ready socket texts
      → length texts < n
      → main_bound floats z parse encode os n ip port file ≡ (
          main_server floats file (arrivals parse os (heard parse texts)) >>= λ r.
          some (with_ending (comes_to parse texts) r))
  unfolding main_bound main_server
  main_bound-main_server n ip port file socket bound listens h =
      by_init (Lifecycle.init floats (new_planner floats) file)
    where
      by_init :
          (i : Option (Reading (Planner floats) × List PartCall))
          → (i >>= λ (ready, calls).
              main_ready floats z parse encode os n (ip ++ str ":" ++ port) ready)
            ≡ ((i >>= λ (ready, calls).
                  serve_ready floats (arrivals parse os (heard parse texts)) ready)
                >>= λ r. some (with_ending (comes_to parse texts) r))
      by_init none = refl
      by_init (some (ready, calls)) =
          served_ready n (ip ++ str ":" ++ port) socket ready bound listens h
