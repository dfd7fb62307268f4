-- ===== src/Setter/Stub.antt =====
-- When a call of `OssStubRuleSetter` succeeds.
use qos_planner.Common.{
  ℕ, [], refl, ◌<◌, ◌≡◌, ◌↔◌, sym, ◌∙◌, Bool, true, false, Option, none, some, Str, arith,
  Bool-cases, Option-cases, inl, inr,
}
use qos_planner.Lustre.Exec.{exec, exec-is_some}
use qos_planner.Rules.{is_empty, is_some}
use qos_planner.Message.{is_zero, pos, negsuc}
use qos_planner.Retry.{c_str, send_and_receive}
use qos_planner.Retry.Attempts.{send_and_receive-Attempts}
use qos_planner.Setter.{CommandReply, process_reply, serve_command, remotely_execute_cmd}

-- The first reply among the first `n` polls is this one.
abbrev pub IsFirstReply : ℕ → (ℕ → Option Str) → Str → Type 0
IsFirstReply n polls reply =
    (k : ℕ) × (k < n) × (polls k ≡ some reply) × ((i : ℕ) → i < k → polls i ≡ none)

-- A command succeeds exactly if its address is not empty, one of the first three polls finds a
-- reply, and the first reply reads as code 0.
pub remotely_execute_cmd-succeeds :
    (parse : Str → Bool × CommandReply) (polls : ℕ → Option Str) (ip msg : Str)
    → ((remotely_execute_cmd parse polls ip msg).0 ≡ true) ↔ (
        (is_empty ip ≡ false)
        × ((reply : Str) × IsFirstReply 3 polls reply × (process_reply parse reply ≡ true)))
unfolding remotely_execute_cmd
remotely_execute_cmd-succeeds parse polls ip msg =
    let (_, _, a) = send_and_receive-Attempts 2 polls msg in
    let r = (send_and_receive 3 polls msg).0 in
    (
      (λ done. elim (Bool-cases (is_empty ip)) [
        | inl empty ↦ let no_call : ⊥ = ground arith in absurd no_call
        | inr full ↦ elim (Option-cases r) [
          | inl e ↦ let no_reply : ⊥ = ground arith in absurd no_reply
          | inr (x, e) ↦
              (full, (x, (a.k, a.bound, ground (arith, a.answer), a.silent), ground arith))
        ]
      ]),
      λ (full, (x, (k, lt, at, before), ok)).
          let found : r ≡ some x =
            ground (arith, a.silent k, before a.k, a.exhausted, a.answer, a.bound) in
          ground arith,
    )

-- The reply to a command: code 0 if it can be started, whatever it writes and however it ends.
abbrev pub code_of : Option Str → CommandReply
code_of none = record { rc = negsuc 0; return_msg = [] }
code_of (some written) = record { rc = pos 0; return_msg = [] }

pub serve_command-code_of :
    (popen : Str → Option Str) (command : Str)
    → serve_command popen command ≡ code_of (popen (c_str command))
unfolding serve_command exec
serve_command-code_of popen command =
    by_result (exec popen (c_str command) []) (popen (c_str command))
      (exec-is_some popen (c_str command) [])
  where
    by_result :
        (r p : Option Str)
        → is_some r ≡ is_some p
        → ◌≡◌ {A = CommandReply}
            (elim r [
              | none ↦ record { rc = negsuc 0; return_msg = [] }
              | some out ↦ record { rc = pos 0; return_msg = [] }
            ])
            (code_of p)
    by_result none none e = refl
    by_result (some out) (some written) e = refl
    by_result none (some written) e = cc
    by_result (some out) none e = cc

-- The two ends of the protocol, with an encoding of replies that `parse` reads back.
module _ (parse : Str → Bool × CommandReply) (encode : CommandReply → Str)
    (reads : (reply : CommandReply) → parse (encode reply) ≡ (true, reply))
    (popen : Str → Option Str) (command : Str) where
  abbrev startable : Bool
  startable = is_some (popen (c_str command))

  read_code : process_reply parse (encode (serve_command popen command)) ≡ startable
  unfolding process_reply
  read_code =
      rw (reads (serve_command popen command), serve_command-code_of popen command)
        (by_code (popen (c_str command)))
    where
      by_code : (p : Option Str) → is_zero (code_of p).rc ≡ is_some p
      by_code none = refl
      by_code (some written) = refl

  -- For an encoding of replies that is read back, a command that reaches the server, and whose
  -- reply is the first that the setter polls, succeeds exactly if the command can be
  -- started there.
  pub remotely_execute_cmd-serve_command :
      (polls : ℕ → Option Str) (ip msg : Str)
      → is_empty ip ≡ false
      → IsFirstReply 3 polls (encode (serve_command popen command))
      → (remotely_execute_cmd parse polls ip msg).0 ≡ startable
  remotely_execute_cmd-serve_command polls ip msg full (k, lt, at, before) =
      let (succeeds, only) = remotely_execute_cmd-succeeds parse polls ip msg in
      let reply = encode (serve_command popen command) in
      elim (Bool-cases startable) [
        | inl done ↦ only (full, (reply, (k, lt, at, before), read_code ∙ done)) ∙ sym done
        | inr failed ↦ elim (Bool-cases (remotely_execute_cmd parse polls ip msg).0) [
          | inr same ↦ same ∙ sym failed
          | inl wrong ↦
              let (_, (x, (i, _, found, silent), ok)) = succeeds wrong in
              let no_reply : ⊥ = ground (arith, before i, silent k, read_code) in absurd no_reply
        ]
      ]
