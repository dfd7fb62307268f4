-- ===== src/Setter/OssServer/Copies.antt =====
-- A call of OssStubRuleSetter (src/common/OssStubRuleSetter.cpp) and the server that it talks to: a command
-- whose reply is late is sent again, and run again.
use qos_planner.Common.{
  ℕ, zero, suc, ◌<◌, ◌≡◌, refl, ap, ◌∙◌, subst, List, [], ◌∷◌, ◌++◌, length, map, Bool, true, false,
  Option, none, some, Str, str, arith,
}
use qos_planner.Rules.{is_empty, is_some}
use qos_planner.Retry.{c_str}
use qos_planner.Retry.Attempts.{messages, replicate, length-replicate, send_and_receive-Attempts}
use qos_planner.Setter.{
  CommandReply, ParsedCommand, request_message, serve_command, remotely_execute_cmd,
}
use qos_planner.Setter.Stub.{remotely_execute_cmd-serve_command}
use qos_planner.Socket.{Zmq, RepLaws, blocked}
use qos_planner.Setter.OssServer.{main_oss, commands, replies, comes_to, main_correct}

-- The messages of a call whose first reply is found by the poll `k`.
sent_copies :
    (parse_reply : Str → Bool × CommandReply) (polls : ℕ → Option Str) (ip msg reply : Str) (k : ℕ)
    → is_empty ip ≡ false
    → c_str msg ≡ msg
    → k < 3
    → polls k ≡ some reply
    → ((i : ℕ) → i < k → polls i ≡ none)
    → messages (remotely_execute_cmd parse_reply polls ip msg).1 ≡ replicate (suc k) msg
unfolding remotely_execute_cmd messages replicate
sent_copies parse_reply polls ip msg reply k full plain lt at before =
    let (repeated, sent, a) = send_and_receive-Attempts 2 polls msg in
    let same : a.k ≡ k = ground (arith, a.silent k, before a.k, a.answer, a.exhausted, a.bound) in
    rw (full, sent, a.sent, same, plain) refl

module _ (parse : Str → ParsedCommand) (msg command : Str)
    (reads : parse msg ≡ request_message command) where
  -- The command as it is run.
  abbrev pub run : Str
  run = c_str command

  run_copies : (k : ℕ) → commands (map parse (replicate k msg)) ≡ replicate k run
  unfolding replicate
  run_copies zero = refl
  run_copies (suc k) = rw (reads, run_copies k) refl

  waits_then : (k : ℕ) → comes_to (map parse (replicate k msg)) ≡ blocked
  unfolding replicate
  waits_then zero = refl
  waits_then (suc k) = rw (reads, waits_then k) refl

  one_each :
      (popen : List Str → Str → Option Str) (ran : List Str) (k : ℕ)
      → length (replies popen ran (map parse (replicate k msg))) ≡ k
  unfolding replicate
  one_each popen ran zero = refl
  one_each popen ran (suc k) = rw (reads) (ap suc (one_each popen (ran ++ c_str command ∷ []) k))

  -- For a command whose message has no zero byte, is read as this command, and goes to an address
  -- that is not empty: if the first of at most three polls that finds a reply finds, in an encoding
  -- that is read back, the reply to the last copy of the message, then the OSS rule server to whose
  -- bound socket the copies are sent gives the command to popen once for each copy, sends a reply
  -- for each, and waits; the call of the setter succeeds exactly if the last of these could be
  -- started, whatever it writes.
  pub remotely_execute_cmd-main :
      (z : Zmq) (laws : RepLaws z) (parse_reply : Str → Bool × CommandReply)
      (encode : CommandReply → Str) (popen : List Str → Str → Option Str) (polls : ℕ → Option Str)
      (ip : Str) (k n : ℕ) (own_ip port : Str) (socket : z.Socket)
      → ((reply : CommandReply) → parse_reply (encode reply) ≡ (true, reply))
      → is_empty ip ≡ false
      → c_str msg ≡ msg
      → k < 3
      → polls k ≡ some (encode (serve_command (popen (replicate k run)) command))
      → ((i : ℕ) → i < k → polls i ≡ none)
      → z.bind (str "tcp://" ++ own_ip ++ str ":" ++ port) ≡ some socket
      → let (done, calls) = remotely_execute_cmd parse_reply polls ip msg in
        laws.Ready socket (messages calls)
        → suc k < n
        → (done ≡ is_some (popen (replicate k run) run))
          × ((sent : List CommandReply) × (length sent ≡ suc k)
              × (main_oss z parse encode popen n own_ip port
                  ≡ some (replicate (suc k) run, sent, blocked)))
  remotely_execute_cmd-main z laws parse_reply encode popen polls ip k n own_ip port socket back
        full plain lt at before bound listens h =
      let copies = sent_copies parse_reply polls ip msg _ k full plain lt at before in
      (
        remotely_execute_cmd-serve_command parse_reply encode back (popen (replicate k run)) command
            polls ip msg full (k, lt, at, before),
        (
          replies popen [] (map parse (replicate (suc k) msg)),
          one_each popen [] (suc k),
          main_correct z parse encode popen laws (replicate (suc k) msg) n own_ip port socket bound
                (subst (laws.Ready socket) copies listens)
                (omega (arith, length-replicate (suc k) msg))
              ∙ rw (run_copies (suc k), waits_then (suc k)) refl,
        ),
      )
