-- ===== src/Rules/Shares.antt =====
-- How the throughput of a job is shared out: `min_throughput_mbs` for each of its OSTs, added up
-- for the OSTs behind one machine.
use qos_planner.Common.{
  ℕ, zero, suc, ◌+◌, ◌*◌, ◌%◌, ◌<◌, ◌≡◌, ◌≢◌, refl, sym, subst, fun_ext, ap, ◌∙◌, List, [], ◌∷◌,
  ◌++◌, Option, none, some, ite, if_pos, if_neg, Str, Str-discrete, arith, Option-cases, some_eq,
  inl, inr,
}
use qos_planner.Common.Map.{find, assign, find-assign}
use qos_planner.Rules.{uint32_range, compute_oss_to_mbs}

-- How often a text stands in a list.
unfoldable pub count : Str → List Str → ℕ
count x [] = 0
count x (y ∷ ys) = ite (Str-discrete y x) (suc (count x ys)) (count x ys)

pub count-append : (x : Str) (xs ys : List Str) → count x (xs ++ ys) ≡ count x xs + count x ys
unfolding count
count-append x [] ys = omega arith
count-append x (y ∷ xs) ys = ground (arith, count-append x xs ys)

-- The entry of a machine that serves `n` of the OSTs: none, or n times the throughput, as a uint32.
abbrev pub share : ℕ → ℕ → Option ℕ
share mbs zero = none
share mbs (suc n) = some ((suc n * mbs) % uint32_range)

-- One if the machine serves any of the OSTs.
abbrev pub present : ℕ → ℕ
present zero = 0
present (suc n) = 1

share-step :
    (mbs n sum : ℕ)
    → mbs < uint32_range
    → share mbs n ≡ some sum
    → share mbs (suc n) ≡ some ((sum + mbs) % uint32_range)
share-step mbs zero sum b h = cc
share-step mbs (suc n) sum b h = ap some (omega (arith, some_eq h))

share-first : (mbs n : ℕ) → mbs < uint32_range → share mbs n ≡ none → share mbs (suc n) ≡ some mbs
share-first mbs zero b h = ap some (grind arith)
share-first mbs (suc n) b h = cc

present-step : (n : ℕ) → n ≢ 0 → present (suc n) ≡ present n
present-step zero h = absurd (h refl)
present-step (suc n) h = refl

-- One more OST on the machine `ip`.
abbrev more : Str → (Str → ℕ) → Str → ℕ
more ip n x = ite (Str-discrete ip x) (suc (n x)) (n x)

-- The map and the list agree with the number of OSTs that each machine has had so far.
record Agrees (mbs : ℕ) (n : Str → ℕ) (m : List (Str × ℕ)) (u : List Str) : Type 0 where
  shares : (x : Str) → find x m ≡ share mbs (n x)
  listed : (x : Str) → count x u ≡ present (n x)

module _ (mbs : ℕ) (bound : mbs < uint32_range) (ip : Str) (n : Str → ℕ) (m : List (Str × ℕ))
    (u : List Str) (a : Agrees mbs n m u) where
  Agrees-known :
      (sum : ℕ)
      → find ip m ≡ some sum
      → Agrees mbs (more ip n) (assign ip ((sum + mbs) % uint32_range) m) u
  Agrees-known sum e = record {
    shares = λ x. rw (find-assign ip x ((sum + mbs) % uint32_range) m) (elim (Str-discrete ip x) [
      | yes hit ↦
          rw (if_pos _ hit, if_pos _ hit)
            (sym (share-step mbs (n x) sum bound (sym (a.shares x) ∙ rw hit at e)))
      | no miss ↦ rw (if_neg _ miss, if_neg _ miss) (a.shares x)
    ]);
    listed = λ x. elim (Str-discrete ip x) [
      | yes hit ↦
          rw (if_pos _ hit)
            (a.listed x ∙ sym (present-step (n x) (nonzero x (sym (a.shares x) ∙ rw hit at e))))
      | no miss ↦ rw (if_neg _ miss) (a.listed x)
    ];
  }
    where
      nonzero : (x : Str) → share mbs (n x) ≡ some sum → n x ≢ 0
      nonzero x f z = ground arith

  Agrees-new : find ip m ≡ none → Agrees mbs (more ip n) (assign ip mbs m) (u ++ ip ∷ [])
  unfolding count
  Agrees-new e = record {
    shares = λ x. rw (find-assign ip x mbs m) (elim (Str-discrete ip x) [
      | yes hit ↦
          rw (if_pos _ hit, if_pos _ hit)
            (sym (share-first mbs (n x) bound (sym (a.shares x) ∙ rw hit at e)))
      | no miss ↦ rw (if_neg _ miss, if_neg _ miss) (a.shares x)
    ]);
    listed = λ x.
        rw (count-append x u (ip ∷ []), a.listed x)
          (elim (Str-discrete ip x) [
            | yes hit ↦ rw (if_pos _ hit, if_pos _ hit) (first x (sym (a.shares x) ∙ rw hit at e))
            | no miss ↦ rw (if_neg _ miss, if_neg _ miss) (omega arith)
          ]);
  }
    where
      first : (x : Str) → share mbs (n x) ≡ none → present (n x) + 1 ≡ present (suc (n x))
      first x f = ground arith

more-count :
    (ip : Str) (ost_ips : List Str) (n : Str → ℕ)
    → ◌≡◌ {A = Str → ℕ} (λ x. more ip n x + count x ost_ips) (λ x. n x + count x (ip ∷ ost_ips))
unfolding count
more-count ip ost_ips n = fun_ext λ x. elim (Str-discrete ip x) [
  | yes hit ↦ rw (if_pos _ hit, if_pos _ hit) (omega arith)
  | no miss ↦ rw (if_neg _ miss, if_neg _ miss)
]

compute_oss_to_mbs-Agrees :
    (mbs : ℕ) (ost_ips : List Str) (n : Str → ℕ) (m : List (Str × ℕ)) (u : List Str)
    → mbs < uint32_range
    → Agrees mbs n m u
    → Agrees mbs
        (λ x. n x + count x ost_ips)
        (compute_oss_to_mbs mbs ost_ips m u).0
        (compute_oss_to_mbs mbs ost_ips m u).1
unfolding compute_oss_to_mbs
compute_oss_to_mbs-Agrees mbs [] n m u b a =
    unfold count in
    record {
      shares = λ x. a.shares x ∙ ap (share mbs) (omega arith);
      listed = λ x. a.listed x ∙ ap present (omega arith);
    }
compute_oss_to_mbs-Agrees mbs (ip ∷ ost_ips) n m u b a = elim (Option-cases (find ip m)) [
  | inl e ↦
      let m' = assign ip mbs m in
      let u' = u ++ ip ∷ [] in
      let rest =
        compute_oss_to_mbs-Agrees mbs ost_ips (more ip n) m' u' b (Agrees-new mbs b ip n m u a e) in
      rw (e, compute_oss_to_mbs)
        (subst
          (λ k.
            Agrees mbs k (compute_oss_to_mbs mbs ost_ips m' u').0
              (compute_oss_to_mbs mbs ost_ips m' u').1)
          (more-count ip ost_ips n) rest)
  | inr (sum, e) ↦
      let m' = assign ip ((sum + mbs) % uint32_range) m in
      let rest =
        compute_oss_to_mbs-Agrees mbs ost_ips (more ip n) m' u b
          (Agrees-known mbs b ip n m u a sum e) in
      rw (e, compute_oss_to_mbs)
        (subst
          (λ k.
            Agrees mbs k (compute_oss_to_mbs mbs ost_ips m' u).0
              (compute_oss_to_mbs mbs ost_ips m' u).1)
          (more-count ip ost_ips n) rest)
]

-- For a throughput below 2^32, each machine is given that throughput once for each OST of the job
-- behind it, modulo 2^32, no other machine has an entry, and the list of machines names each of
-- these once.
pub compute_oss_to_mbs-share :
    (mbs : ℕ) (ost_ips : List Str) (ip : Str)
    → mbs < uint32_range
    → (find ip (compute_oss_to_mbs mbs ost_ips [] []).0 ≡ share mbs (count ip ost_ips))
      × (count ip (compute_oss_to_mbs mbs ost_ips [] []).1 ≡ present (count ip ost_ips))
compute_oss_to_mbs-share mbs ost_ips ip b =
    let start : Agrees mbs (λ x. 0) [] [] =
      unfold find count in record { shares = λ x. refl; listed = λ x. refl } in
    let a = compute_oss_to_mbs-Agrees mbs ost_ips (λ x. 0) [] [] b start in
    (a.shares ip ∙ ap (share mbs) (omega arith), a.listed ip ∙ ap present (omega arith))
