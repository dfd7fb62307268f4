-- ===== src/Socket.antt =====
-- The socket of a server, of type REP, as src/server/Server.cpp and src/oss_rule_server/OSSRuleServer.cpp
-- use it through s_recv and s_send: the calls are parameters. The loop of Serve is the same in both.
pub mod Loop
pub mod Samples
use qos_planner.Common.{ℕ, zero, suc, List, [], ◌∷◌, ◌++◌, map, Option, none, some, ◌>>=◌, Str, ◌≡◌}
use qos_planner.Message.{ℤ}

-- What comes of `s_recv`: it waits for ever, throws, or returns a text.
pub data Received (Socket : Type 0) : Type 0 where
  waits throws : Received Socket
  got : Str → Socket → Received Socket

-- `bind` of a new socket and `s_send` throw (`none`) or return.
pub record Zmq : Type 1 where
  pub Socket : Type 0
  pub bind : Str → Option Socket
  pub s_recv : Socket → Received Socket
  pub s_send : Socket → Str → Option Socket

-- What is documented of a socket of type REP to which given texts are sent: it receives and sends in
-- turn, and to receive twice in a row is an error.
pub record RepLaws (z : Zmq) : Type 1 where
  pub Ready : z.Socket → List Str → Type 0
  pub Busy : z.Socket → List Str → Type 0
  pub recv-waits : (s : z.Socket) → Ready s [] → z.s_recv s ≡ waits
  pub recv-got :
      (s : z.Socket) (text : Str) (texts : List Str)
      → Ready s (text ∷ texts)
      → (s' : z.Socket) × (z.s_recv s ≡ got text s') × Busy s' texts
  pub recv-throws : (s : z.Socket) (texts : List Str) → Busy s texts → z.s_recv s ≡ throws
  pub send-Ready :
      (s : z.Socket) (texts : List Str) (reply : Str)
      → Busy s texts
      → (s' : z.Socket) × (z.s_send s reply ≡ some s') × Ready s' texts

-- How far a program has come: it waits for ever, an exception has ended it, it has returned a code, or it
-- goes on behind the rounds that were asked for.
pub data Ending : Type 0 where
  blocked thrown goes_on : Ending
  exited : ℤ → Ending

module _ (z : Zmq) where
  unfoldable pub send_all : z.Socket → List Str → Option z.Socket
  send_all socket [] = some socket
  send_all socket (text ∷ texts) = z.s_send socket text >>= λ socket'. send_all socket' texts

module _ (z : Zmq) {S R : Type 0} (encode : R → Str) where
  -- The loop of `Serve`, for so many rounds. `round` is what is done with the text of a round: the state
  -- after it, and the messages to be sent.
  unfoldable pub serve_loop :
      ℕ → (ℕ → S → Str → Option (S × List R)) → S → z.Socket → Option (S × List R × Ending)
  unfolding send_all
  serve_loop zero round s socket = some (s, [], goes_on)
  serve_loop (suc n) round s socket = elim (z.s_recv socket) [
    | waits ↦ some (s, [], blocked)
    | throws ↦ some (s, [], thrown)
    | got text socket' ↦
        (round 0 s text >>= λ (s', sent). elim (send_all z socket' (map encode sent)) [
          | none ↦ some (s', [], thrown)
          | some socket'' ↦
              (serve_loop n (λ i. round (suc i)) s' socket'' >>= λ (s'', later, ending).
              some (s'', sent ++ later, ending))
        ])
  ]
