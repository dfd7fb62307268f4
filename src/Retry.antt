-- ===== src/Retry.antt =====
-- The loop that sends a request until a reply arrives: the same text in OssStubRuleSetter.cpp of
-- src/common and in src/client/Client.cpp. What the polls of the socket find is a parameter.
pub mod Attempts
mod Tests
use qos_planner.Common.{ℕ, zero, suc, List, [], ◌∷◌, Option, none, some, ◌==◌, if◌then◌else◌, Str}

-- A call on the socket.
pub data SocketCall : Type 0 where
  connect : SocketCall
  send : Str → SocketCall

-- The text that a `char *` into a `std::string` stands for: up to its first zero byte.
unfoldable pub c_str : Str → Str
c_str [] = []
c_str (c ∷ s) = if c == 0 then [] else c ∷ c_str s

-- The inner loop of `SendAndReceiveRequest`, with one poll for each retry that is left. With none left
-- the loop is never entered.
unfoldable pub poll_loop : ℕ → (ℕ → Option Str) → Str → Option Str × List SocketCall
unfolding c_str
poll_loop zero polls raw_msg = (none, [])
poll_loop (suc retries_left) polls raw_msg =
    let again = poll_loop retries_left (λ i. polls (suc i)) raw_msg in
    elim (polls 0) [
      | some reply ↦ (some reply, [])
      | none ↦
          if retries_left == 0
          then (none, [])
          else (again.0, connect ∷ send (c_str raw_msg) ∷ again.1)
    ]

-- `SendAndReceiveRequest`, from the number of retries on: the reply, or `none` for false.
unfoldable pub send_and_receive : ℕ → (ℕ → Option Str) → Str → Option Str × List SocketCall
unfolding poll_loop
send_and_receive zero polls raw_msg = (some [], [])
send_and_receive (suc retries) polls raw_msg =
    let (reply, calls) = poll_loop (suc retries) polls raw_msg in (reply, send raw_msg ∷ calls)
