-- ===== src/Setter/OssServer.antt =====
-- src/oss_rule_server: the server that runs the commands of OssStubRuleSetter, with its socket and its
-- main function. What `popen` gives of a command may depend on the commands before it.
pub mod Copies
mod Tests
use mathlib.Core.List.{append-nil, append_assoc}
use qos_planner.Common.{
  ℕ, zero, suc, ◌<◌, ◌≡◌, refl, ap, ◌∙◌, List, [], ◌∷◌, ◌++◌, length, Bool, true, false, Option,
  none, some, ◌>>=◌, Str, str, arith, map, ◌⊎◌, inl, inr, if◌then◌else◌,
}
use qos_planner.Setter.Stub.{code_of, serve_command-code_of}
use qos_planner.Retry.{c_str}
use qos_planner.Message.{ℤ, negsuc, pos}
use qos_planner.Setter.{
  CommandReply, ParsedCommand, unparseable, request_message, reply_message, serve_command,
  serve_text,
}
use qos_planner.Socket.{Zmq, RepLaws, Ending, thrown, exited, blocked, serve_loop}
use qos_planner.Socket.Loop.{
  run_rounds, AnswersAre, up_to_unanswered, ending, serve_loop-run_rounds,
}

module _ (z : Zmq) where
  -- `OSSRuleServer`
  pub record OssRuleServer : Type 0 where
    pub ip_port : Str
    pub server : Option z.Socket

  -- `OSSRuleServer::OSSRuleServer`
  unfoldable pub new_oss_rule_server : Str → OssRuleServer
  new_oss_rule_server ip_port = record { ip_port = ip_port; server = none }

  -- `initZMQ`; `none` is an exception.
  unfoldable pub init_zmq : OssRuleServer → Option OssRuleServer
  init_zmq s =
      z.bind (str "tcp://" ++ s.ip_port) >>= λ socket. some (record s { server = some socket })

  -- `Init`
  unfoldable pub init : OssRuleServer → Option (Bool × OssRuleServer)
  unfolding init_zmq
  init s = init_zmq s >>= λ bound. some (true, bound)

  module _ (parse : Str → ParsedCommand) (encode : CommandReply → Str)
      (popen : List Str → Str → Option Str) where
    -- One round: the commands that `popen` has been called with, and the replies that are sent.
    unfoldable pub round : ℕ → List Str → Str → Option (List Str × List CommandReply)
    unfolding serve_text
    round i ran request =
        let m = parse request in
        some (
          elim m [
            | unparseable ↦ ran
            | request_message command ↦ ran ++ c_str command ∷ []
            | reply_message ↦ ran
          ],
          serve_text (popen ran) m,
        )

    -- `Serve`, for so many rounds; without a socket it is undefined behaviour.
    unfoldable pub serve_commands :
        ℕ → OssRuleServer → Option (List Str × List CommandReply × Ending)
    unfolding round serve_loop
    serve_commands n s = s.server >>= λ socket. serve_loop z encode n round [] socket

    -- `main` behind `Init`
    unfoldable pub main_started :
        ℕ → Option (Bool × OssRuleServer) → Option (List Str × List CommandReply × Ending)
    unfolding serve_commands
    main_started n none = some ([], [], thrown)
    main_started n (some (success, s)) =
        let served = serve_commands n s in
        if success then served else some ([], [], exited (negsuc 0))

    -- `main`, with the flags for the address.
    unfoldable pub main_oss : ℕ → Str → Str → Option (List Str × List CommandReply × Ending)
    unfolding new_oss_rule_server init main_started
    main_oss n ip port = main_started n (init (new_oss_rule_server (ip ++ str ":" ++ port)))

-- Up to the first message that is a reply: the commands in their order, the replies, and what comes of the
-- loop then.
abbrev pub commands : List ParsedCommand → List Str
commands [] = []
commands (unparseable ∷ ms) = commands ms
commands (request_message command ∷ ms) = c_str command ∷ commands ms
commands (reply_message ∷ ms) = []

abbrev pub replies :
    (List Str → Str → Option Str) → List Str → List ParsedCommand → List CommandReply
replies popen ran [] = []
replies popen ran (unparseable ∷ ms) =
    record { rc = pos 1; return_msg = str "unparseable message" } ∷ replies popen ran ms
replies popen ran (request_message command ∷ ms) =
    code_of (popen ran (c_str command)) ∷ replies popen (ran ++ c_str command ∷ []) ms
replies popen ran (reply_message ∷ ms) = []

abbrev pub comes_to : List ParsedCommand → Ending
comes_to [] = blocked
comes_to (unparseable ∷ ms) = comes_to ms
comes_to (request_message command ∷ ms) = comes_to ms
comes_to (reply_message ∷ ms) = thrown

ParsedCommand-cases :
    (m : ParsedCommand)
    → (m ≡ unparseable) ⊎ (((command : Str) × (m ≡ request_message command)) ⊎ (m ≡ reply_message))
ParsedCommand-cases unparseable = inl refl
ParsedCommand-cases (request_message command) = inr (inl (command, refl))
ParsedCommand-cases reply_message = inr (inr refl)

module _ (z : Zmq) (parse : Str → ParsedCommand) (encode : CommandReply → Str)
    (popen : List Str → Str → Option Str) where
  abbrev answers : Str → Bool
  answers text = elim (parse text) [
    | unparseable ↦ true
    | request_message command ↦ true
    | reply_message ↦ false
  ]

  answers_are : AnswersAre answers (round z parse encode popen)
  unfolding round serve_text
  answers_are i ran text ran' sent e = elim (ParsedCommand-cases (parse text)) [
    | inl is ↦ ground (arith, e)
    | inr (inl (command, is)) ↦ ground (arith, e)
    | inr (inr is) ↦ ground (arith, e)
  ]

  all_rounds :
      (ran : List Str) (texts : List Str)
      → run_rounds (round z parse encode popen) ran (up_to_unanswered answers texts)
        ≡ some (ran ++ commands (map parse texts), replies popen ran (map parse texts))
  unfolding run_rounds round serve_text
  all_rounds ran [] = rw (append-nil ran) refl
  all_rounds ran (text ∷ texts) = elim (ParsedCommand-cases (parse text)) [
    | inl is ↦ rw (is, all_rounds ran texts) refl
    | inr (inl (command, is)) ↦
        rw (is, all_rounds (ran ++ c_str command ∷ []) texts)
          (rw
            (
              append_assoc ran (c_str command ∷ []) (commands (map parse texts)),
              serve_command-code_of (popen ran) command,
            )
            refl)
    | inr (inr is) ↦ rw (is, append-nil ran) refl
  ]

  ending-comes_to : (texts : List Str) → ending answers texts ≡ comes_to (map parse texts)
  ending-comes_to [] = refl
  ending-comes_to (text ∷ texts) = elim (ParsedCommand-cases (parse text)) [
    | inl is ↦ ground (arith, ending-comes_to texts)
    | inr (inl (command, is)) ↦ ground (arith, ending-comes_to texts)
    | inr (inr is) ↦ ground arith
  ]

  -- If a socket of type REP can be bound to the address of the flags, and given texts are sent to
  -- it, then main of the OSS rule server, for more rounds than there are texts, gives popen the
  -- commands among those up to the first message that is a reply itself, in their order, each cut
  -- off at its first zero byte, and sends a reply for each of these texts: for a command the code 0
  -- if it could be started, whatever it writes, and -1 otherwise, and 1 for a text that does not
  -- parse. Behind a message that is a reply an exception ends the program; if there is none, it
  -- waits.
  pub main_correct :
      (laws : RepLaws z) (texts : List Str) (n : ℕ) (ip port : Str) (socket : z.Socket)
      → z.bind (str "tcp://" ++ ip ++ str ":" ++ port) ≡ some socket
      → laws.Ready socket texts
      → length texts < n
      → let ms = map parse texts in
        main_oss z parse encode popen n ip port
        ≡ some (commands ms, replies popen [] ms, comes_to ms)
  unfolding main_oss main_started serve_commands init init_zmq new_oss_rule_server
  main_correct laws texts n ip port socket bound listens h =
      let address = ip ++ str ":" ++ port in
      ap
        (λ b. main_started z parse encode popen n (
          b
          >>= (λ (s : z.Socket). some (record (new_oss_rule_server z address) { server = some s }))
          >>= λ ready. some (true, ready)))
        bound
      ∙ serve_loop-run_rounds z laws encode answers n (round z parse encode popen) [] socket texts
          answers_are listens h
      ∙ rw (all_rounds [] texts, ending-comes_to texts) refl
