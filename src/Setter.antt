-- ===== src/Setter.antt =====
-- The rule setters: src/common/RuleSetter.h (the commands), SSHRuleSetter.cpp, and
-- OssStubRuleSetter.cpp with the server it talks to, src/oss_rule_server/OSSRuleServer.cpp. What `popen`
-- gives of a command, what the polls of a socket find, and the encoding of messages are parameters.
pub mod Stub
pub mod OssServer
mod Tests
use qos_planner.Common.{
  ℕ, zero, suc, ◌+◌, ◌/◌, ◌%◌, List, [], ◌∷◌, ◌++◌, Bool, true, false, not, Option, none, some, ltb,
  if◌then◌else◌, Str, str, to_string,
}
use qos_planner.Lustre.Exec.{exec}
use qos_planner.Rules.{NrsCall, set_rule, remove_rule, is_empty, is_some}
use qos_planner.Message.{is_zero, ℤ, pos, negsuc}
use qos_planner.Retry.{SocketCall, connect, c_str, send_and_receive}

-- `BuildLocalSetRuleCommand`
unfoldable pub build_local_set_rule_command : Str → Str → ℕ → Str
build_local_set_rule_command job_id rule_name rpc_rate_limit =
    str "lctl set_param ost.OSS.ost_io.nrs_tbf_rule=\"start "
    ++ rule_name
    ++ str " {"
    ++ job_id
    ++ str "} "
    ++ to_string rpc_rate_limit
    ++ str "\""

-- `BuildLocalRemoveRuleCommand`
unfoldable pub build_local_remove_rule_command : Str → Str → Str
build_local_remove_rule_command job_id rule_name =
    str "lctl set_param ost.OSS.ost_io.nrs_tbf_rule=\"stop " ++ rule_name ++ str "\""

abbrev ssh : Str → Str → Str
ssh ip cmd = str "ssh " ++ ip ++ str " " ++ cmd

-- `SSHRuleSetter::SetRule` and `RemoveRule`
unfoldable pub ssh_result : (Str → Option Str) → NrsCall → Bool
unfolding exec c_str build_local_set_rule_command build_local_remove_rule_command
ssh_result popen (set_rule ip job rule mbs) =
    let set = exec popen (c_str (ssh ip (build_local_set_rule_command job rule mbs))) [] in
    if is_empty ip then false else is_some set
ssh_result popen (remove_rule ip rule job) =
    is_some (exec popen (c_str (ssh ip (build_local_remove_rule_command job rule))) [])

-- `OSSCommandMessage`, as its getters read.
pub record CommandReply : Type 0 where
  pub rc : ℤ
  pub return_msg : Str

-- `ProcessReply`: whether the reply parses makes no difference to the result, which goes by what of it
-- has been read.
unfoldable pub process_reply : (Str → Bool × CommandReply) → Str → Bool
process_reply parse reply = is_zero (parse reply).1.rc

abbrev pub request_retries : ℕ
request_retries = 3

-- `RemotelyExecuteCmd`, with the text of the message that carries the command.
unfoldable pub remotely_execute_cmd :
    (Str → Bool × CommandReply) → (ℕ → Option Str) → Str → Str → Bool × List SocketCall
unfolding send_and_receive process_reply
remotely_execute_cmd parse polls ip msg =
    let (reply, calls) = send_and_receive request_retries polls msg in
    if is_empty ip
    then (false, [])
    else (elim reply [ none ↦ false | some r ↦ process_reply parse r ], connect ∷ calls)

-- `OssStubRuleSetter::SetRule` and `RemoveRule`; `serialize` is `BuildCommandMessage` and the encoding.
unfoldable pub stub_result :
    (Str → Bool × CommandReply) → (Str → Str) → (ℕ → Option Str) → NrsCall → Bool × List SocketCall
unfolding remotely_execute_cmd build_local_set_rule_command build_local_remove_rule_command
stub_result parse serialize polls (set_rule ip job rule mbs) =
    remotely_execute_cmd parse polls ip (serialize (build_local_set_rule_command job rule mbs))
stub_result parse serialize polls (remove_rule ip rule job) =
    remotely_execute_cmd parse polls ip (serialize (build_local_remove_rule_command job rule))

-- `OSSRuleServer::ServeCommand`, with what `popen` gives of a command. Where `exec` fails it has written
-- nothing to its output.
unfoldable pub serve_command : (Str → Option Str) → Str → CommandReply
unfolding exec c_str
serve_command popen command = elim (exec popen (c_str command) []) [
  | none ↦ record { rc = negsuc 0; return_msg = [] }
  | some out ↦ record { rc = pos 0; return_msg = [] }
]

-- What `OSSRuleServer::Serve` makes of a text.
pub data ParsedCommand : Type 0 where
  unparseable : ParsedCommand
  request_message : Str → ParsedCommand
  reply_message : ParsedCommand

-- One round of `OSSRuleServer::Serve`: the replies that are sent.
unfoldable pub serve_text : (Str → Option Str) → ParsedCommand → List CommandReply
unfolding serve_command
serve_text popen unparseable = record { rc = pos 1; return_msg = str "unparseable message" } ∷ []
serve_text popen (request_message command) = serve_command popen command ∷ []
serve_text popen reply_message = []
