-- ===== src/Retry/Attempts.antt =====
-- How often a request is sent, and what comes back.
use qos_planner.Common.{
  ℕ, zero, suc, ◌-◌, ◌<◌, ◌≡◌, refl, ap, length, List, [], ◌∷◌, Option, none, some, Str, arith,
  Option-cases, inl, inr,
}
use qos_planner.Retry.{SocketCall, connect, send, c_str, poll_loop, send_and_receive}

-- The messages among the calls.
unfoldable pub messages : List SocketCall → List Str
messages [] = []
messages (connect ∷ calls) = messages calls
messages (send m ∷ calls) = m ∷ messages calls

unfoldable pub replicate {ℓ} : {A : Type ℓ} → ℕ → A → List A
replicate zero x = []
replicate (suc n) x = x ∷ replicate n x

pub length-replicate {ℓ} : {A : Type ℓ} (n : ℕ) (x : A) → length (replicate n x) ≡ n
unfolding replicate
length-replicate zero x = refl
length-replicate (suc n) x = ap suc (length-replicate n x)

-- The poll `k` is the last one: no earlier one found a reply, and there is one poll more than there are
-- repeated messages.
pub record Attempts (retries : ℕ) (polls : ℕ → Option Str) (again : Str) (repeated : List Str)
    (reply : Option Str) : Type 0 where
  pub k : ℕ
  pub bound : k < retries
  pub silent : (i : ℕ) → i < k → polls i ≡ none
  pub answer : reply ≡ polls k
  pub exhausted : reply ≡ none → suc k ≡ retries
  pub sent : repeated ≡ replicate k again

first_reply :
    (n : ℕ) (polls : ℕ → Option Str) (raw r : Str)
    → polls 0 ≡ some r
    → Attempts
        (suc n)
        polls
        (c_str raw)
        (messages (poll_loop (suc n) polls raw).1)
        (poll_loop (suc n) polls raw).0
unfolding poll_loop messages replicate
first_reply n polls raw r e = record {
  k = 0;
  bound = omega arith;
  silent = λ i lt. absurd (omega arith);
  answer = ground arith;
  exhausted = λ h. ground arith;
  sent = ground arith;
}

poll_loop-Attempts :
    (n : ℕ) (polls : ℕ → Option Str) (raw : Str)
    → Attempts
        (suc n)
        polls
        (c_str raw)
        (messages (poll_loop (suc n) polls raw).1)
        (poll_loop (suc n) polls raw).0
unfolding poll_loop messages replicate
poll_loop-Attempts zero polls raw = elim (Option-cases (polls 0)) [
  | inl e ↦ record {
    k = 0;
    bound = omega arith;
    silent = λ i lt. absurd (omega arith);
    answer = ground arith;
    exhausted = λ h. refl;
    sent = ground arith;
  }
  | inr (r, e) ↦ first_reply zero polls raw r e
]
poll_loop-Attempts (suc n) polls raw =
    let later = poll_loop-Attempts n (λ i. polls (suc i)) raw in
    elim (Option-cases (polls 0)) [
      | inl e ↦ record {
        k = suc later.k;
        bound = omega (arith, later.bound);
        silent = λ i lt. ground (arith, later.silent (i - 1));
        answer = ground (arith, later.answer);
        exhausted = λ h. ground (arith, later.exhausted);
        sent = ground (arith, later.sent);
      }
      | inr (r, e) ↦ first_reply (suc n) polls raw r e
    ]

-- With at least one retry, a request is sent once as it is and then, cut off at its first zero
-- byte, once more after each poll that finds no reply; at most as many polls are made as there are
-- retries. The loop returns the reply of the first poll that finds one, and fails exactly if none
-- of them does.
pub send_and_receive-Attempts :
    (n : ℕ) (polls : ℕ → Option Str) (raw : Str)
    → (repeated : List Str) × (messages (send_and_receive (suc n) polls raw).1 ≡ raw ∷ repeated)
      × Attempts (suc n) polls (c_str raw) repeated (send_and_receive (suc n) polls raw).0
unfolding send_and_receive messages
send_and_receive-Attempts n polls raw =
    (messages (poll_loop (suc n) polls raw).1, refl, poll_loop-Attempts n polls raw)
