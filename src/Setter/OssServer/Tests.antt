-- ===== src/Setter/OssServer/Tests.antt =====
-- Runs of the OSS rule server over its socket.
use qos_planner.Common.{
  ℕ, zero, suc, ◌≡◌, refl, List, [], ◌∷◌, length, Bool, true, false, Option, none, some, Str, str,
  arith, ◌==◌, if◌then◌else◌,
}
use qos_planner.Message.{ℤ, pos, negsuc}
use qos_planner.Retry.{c_str, send_and_receive}
use qos_planner.Retry.Attempts.{messages, replicate}
use qos_planner.Setter.{
  CommandReply, ParsedCommand, unparseable, request_message, reply_message, serve_command,
  remotely_execute_cmd,
}
use qos_planner.Socket.{blocked, thrown}
use qos_planner.Socket.Samples.{rep, rep_laws}
use qos_planner.Setter.OssServer.{main_oss, main_correct}
use qos_planner.Setter.OssServer.Copies.{remotely_execute_cmd-main}

-- An encoding of replies: the sign and the number of the code, and the text.
abbrev encode : CommandReply → Str
encode r = elim r.rc [ pos n ↦ 0 ∷ n ∷ r.return_msg | negsuc n ↦ 1 ∷ n ∷ r.return_msg ]

abbrev decode : Str → Bool × CommandReply
decode (zero ∷ n ∷ msg) = (true, record { rc = pos n; return_msg = msg })
decode (suc _ ∷ n ∷ msg) = (true, record { rc = negsuc n; return_msg = msg })
decode s = (false, record { rc = pos 0; return_msg = [] })

decode-encode :
    (rc : ℤ) (msg : Str)
    → decode (encode (record { rc = rc; return_msg = msg }))
      ≡ (true, record { rc = rc; return_msg = msg })
decode-encode (pos n) msg = refl
decode-encode (negsuc n) msg = refl

-- The first command writes that the rule exists; behind it no process can be started.
abbrev once : List Str → Str → Option Str
once [] command = some (str "exists")
once (c ∷ ran) command = none

abbrev parse : Str → ParsedCommand
parse [] = unparseable
parse (c ∷ text) = if c == 9 then reply_message else request_message (c ∷ text)

abbrev texts : List Str
texts = str "c" ∷ [] ∷ str "c" ∷ (9 ∷ []) ∷ str "d" ∷ []

main_correct_example :
    main_oss (rep texts) parse encode once 6 (str "*") (str "5556")
    ≡ some (
      str "c" ∷ str "c" ∷ [],
      record { rc = pos 0; return_msg = [] }
          ∷ record { rc = pos 1; return_msg = str "unparseable message" }
          ∷ record { rc = negsuc 0; return_msg = [] }
          ∷ [],
      thrown,
    )
unfolding c_str
main_correct_example =
    main_correct (rep texts) parse encode once (rep_laws texts) texts 6 (str "*") (str "5556") _
      refl refl (omega arith)

-- The second copy of a command is refused: it writes so, which counts as success.
abbrev refusing : List Str → Str → Option Str
refusing [] command = some []
refusing (c ∷ ran) command = some (str "exists")

-- The second poll finds the reply to the second copy.
abbrev late : ℕ → Option Str
late i = if i == 1 then some (encode (serve_command (refusing (str "c" ∷ [])) (str "c"))) else none

remotely_execute_cmd-main_example :
    ((remotely_execute_cmd decode late (str "ip1") (str "c")).0 ≡ true)
    × ((sent : List CommandReply) × (length sent ≡ 2)
        × (main_oss (rep (str "c" ∷ str "c" ∷ [])) parse encode refusing 3 (str "*") (str "5556")
            ≡ some (str "c" ∷ str "c" ∷ [], sent, blocked)))
unfolding replicate remotely_execute_cmd messages c_str serve_command send_and_receive
remotely_execute_cmd-main_example =
    remotely_execute_cmd-main parse (str "c") (str "c") refl (rep (str "c" ∷ str "c" ∷ []))
      (rep_laws (str "c" ∷ str "c" ∷ [])) decode encode refusing late (str "ip1") 1 3 (str "*")
      (str "5556") _ (λ r. decode-encode r.rc r.return_msg) refl refl (omega arith) refl
      (λ i lt. ground arith) refl refl (omega arith)
