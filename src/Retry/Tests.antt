-- ===== src/Retry/Tests.antt =====
-- Runs of the loop that sends a request until a reply arrives.
use qos_planner.Common.{
  ℕ, ◌≡◌, refl, List, [], ◌∷◌, Option, none, some, ◌==◌, if◌then◌else◌, Str, str,
}
use qos_planner.Retry.{connect, send, c_str, poll_loop, send_and_receive}
use qos_planner.Retry.Attempts.{messages, Attempts, send_and_receive-Attempts}

-- The second poll finds a reply.
abbrev second : ℕ → Option Str
second i = if i == 1 then some (str "ok") else none

-- A request with a zero byte is cut off when it is sent again.
cut_off :
    send_and_receive 3 second (8 ∷ 3 ∷ 34 ∷ 0 ∷ 7 ∷ [])
    ≡ (some (str "ok"), send (8 ∷ 3 ∷ 34 ∷ 0 ∷ 7 ∷ []) ∷ connect ∷ send (8 ∷ 3 ∷ 34 ∷ []) ∷ [])
unfolding send_and_receive poll_loop c_str
cut_off = refl

send_and_receive-Attempts_example :
    (repeated : List Str) × (messages (send_and_receive 3 second (str "hello")).1
      ≡ str "hello" ∷ repeated)
    × Attempts 3 second (c_str (str "hello")) repeated (send_and_receive 3 second (str "hello")).0
send_and_receive-Attempts_example = send_and_receive-Attempts 2 second (str "hello")
