-- ===== src/Socket/Loop.antt =====
-- The loop of Serve over a socket of type REP, against the same rounds without a socket.
use qos_planner.Common.{
  ℕ, zero, suc, ◌<◌, ◌≡◌, refl, List, [], ◌∷◌, ◌++◌, length, Bool, true, false, Option, none, some,
  ◌>>=◌, Str, arith, map, inl, inr, Option-cases, if◌then◌else◌,
}
use qos_planner.Socket.{Zmq, RepLaws, Ending, blocked, thrown, send_all, serve_loop}

abbrev pub Rounds : Type 0 → Type 0 → Type 0
Rounds S R = ℕ → S → Str → Option (S × List R)

unfoldable pub run_rounds : {S R : Type 0} → Rounds S R → S → List Str → Option (S × List R)
run_rounds round s [] = some (s, [])
run_rounds round s (text ∷ texts) = round 0 s text >>= λ (s', sent).
    run_rounds (λ i. round (suc i)) s' texts >>= λ (s'', later). some (s'', sent ++ later)

-- The texts up to the first that gets no answer, and what comes of the loop then.
module _ (answers : Str → Bool) where
  abbrev pub up_to_unanswered : List Str → List Str
  up_to_unanswered [] = []
  up_to_unanswered (text ∷ texts) = text ∷ (if answers text then up_to_unanswered texts else [])

  abbrev pub ending : List Str → Ending
  ending [] = blocked
  ending (text ∷ texts) = if answers text then ending texts else thrown

abbrev pub AnswersAre : {S R : Type 0} → (Str → Bool) → Rounds S R → Type 0
AnswersAre {S} {R} answers round =
    (i : ℕ) (s : S) (text : Str) (s' : S) (sent : List R)
    → round i s text ≡ some (s', sent)
    → length sent ≡ (if answers text then 1 else 0)

module _ (z : Zmq) (laws : RepLaws z) {S R : Type 0} (encode : R → Str) (answers : Str → Bool) where
  -- What the loop comes to, by the rounds without a socket.
  abbrev expected_run : Rounds S R → S → List Str → Option (S × List R × Ending)
  expected_run round s texts = run_rounds round s (up_to_unanswered answers texts) >>= λ (s', sent).
      some (s', sent, ending answers texts)

  -- One round more.
  abbrev one_more : List R → Option (S × List R × Ending) → Option (S × List R × Ending)
  one_more sent rest = rest >>= λ (s', later, end). some (s', sent ++ later, end)

  after_send :
      (n : ℕ) (round : Rounds S R) (s : S) (socket : z.Socket) (sent : List R) (texts : List Str)
      → serve_loop z encode n round s socket ≡ expected_run round s texts
      → one_more sent (serve_loop z encode n round s socket) ≡ (
          (run_rounds round s (up_to_unanswered answers texts) >>= λ (s', later).
          some (s', sent ++ later))
          >>= λ (s', all). some (s', all, ending answers texts))
  after_send n round s socket sent texts e =
      rw e (elim (Option-cases (run_rounds round s (up_to_unanswered answers texts))) [
        | inl stuck ↦ rw stuck refl
        | inr (r, done) ↦ rw done refl
      ])

  busy_throws :
      (n : ℕ) (round : Rounds S R) (s : S) (socket : z.Socket) (texts : List Str)
      → laws.Busy socket texts
      → 0 < n
      → serve_loop z encode n round s socket ≡ some (s, [], thrown)
  unfolding serve_loop
  busy_throws zero round s socket texts busy h = absurd (omega arith)
  busy_throws (suc n) round s socket texts busy h =
      rw (laws.recv-throws socket texts busy, serve_loop) refl

  -- What the loop does when a round has been worked on.
  abbrev go_on : ℕ → Rounds S R → S → List R → Option z.Socket → Option (S × List R × Ending)
  go_on n round s sent none = some (s, [], thrown)
  go_on n round s sent (some socket) = one_more sent (serve_loop z encode n round s socket)

  served :
      (n : ℕ) (round : Rounds S R) (s : S) (socket : z.Socket) (sent : List R) (text : Str)
      (texts : List Str) (b : Bool)
      → answers text ≡ b
      → length sent ≡ (if b then 1 else 0)
      → laws.Busy socket texts
      → length texts < n
      → ((socket' : z.Socket)
          → laws.Ready socket' texts
          → serve_loop z encode n round s socket' ≡ expected_run round s texts)
      → go_on n round s sent (send_all z socket (map encode sent)) ≡ (
          (run_rounds round s (if answers text then up_to_unanswered answers texts else [])
            >>= λ (s', later). some (s', sent ++ later))
          >>= λ (s', all). some (s', all, ending answers (text ∷ texts)))
  unfolding send_all run_rounds
  served n round s socket [] text texts false silent count busy h rec =
      rw (silent, busy_throws n round s socket texts busy (omega arith)) refl
  served n round s socket (r ∷ []) text texts true speaks count busy h rec =
      let (socket', sending, ready) = laws.send-Ready socket texts (encode r) busy in
      rw (speaks, sending) (after_send n round s socket' (r ∷ []) texts (rec socket' ready))
  served n round s socket sent text texts b e count busy h rec =
      absurd (let no : ⊥ = ground (arith, e) in no)

  pub serve_loop-run_rounds :
      (n : ℕ) (round : Rounds S R) (s : S) (socket : z.Socket) (texts : List Str)
      → AnswersAre answers round
      → laws.Ready socket texts
      → length texts < n
      → serve_loop z encode n round s socket ≡ expected_run round s texts
  unfolding serve_loop run_rounds send_all
  serve_loop-run_rounds zero round s socket texts one ready h = absurd (omega arith)
  serve_loop-run_rounds (suc n) round s socket [] one ready h =
      rw (laws.recv-waits socket ready, serve_loop) refl
  serve_loop-run_rounds (suc n) round s socket (text ∷ texts) one ready h =
      let (socket', received, busy) = laws.recv-got socket text texts ready in
      let rec = λ (s' : S) (socket'' : z.Socket) (r : laws.Ready socket'' texts).
        serve_loop-run_rounds n (λ i. round (suc i)) s' socket'' texts (λ i. one (suc i)) r
          (omega arith) in
      rw (received, serve_loop)
        (elim (Option-cases (round 0 s text)) [
          | inl stuck ↦ rw stuck refl
          | inr ((s', sent), done) ↦ rw done (
              served n (λ i. round (suc i)) s' socket' sent text texts (answers text) refl
                (one 0 s text s' sent done) busy (omega arith) (rec s'))
        ])
