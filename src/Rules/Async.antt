-- ===== src/Rules/Async.antt =====
-- The calls of `SetRulesAsync` and of its clean-up.
use mathlib.Core.List.{not-mem-nil, mem-cons, mem-cons_self, mem-cons_of_mem, mem-append_left}
use mathlib.Core.Logic.Or
use mathlib.Core.Bool.{Bool-set}
use qos_planner.Common.{
  ℕ, suc, ◌+◌, ◌≡◌, refl, ap, ◌∙◌, List, [], ◌∷◌, ◌++◌, Mem, Bool, true, false, ite, Str,
  Str-discrete, arith, ◌↔◌,
}
use qos_planner.Rules.{
  NrsCall, set_rule, remove_rule, set_calls, cleanup_calls, set_rules_async, is_empty,
}

-- How many calls remove a rule on the machine `ip`.
unfoldable pub removals : Str → List NrsCall → ℕ
removals ip [] = 0
removals ip (set_rule x job rule mbs ∷ calls) = removals ip calls
removals ip (remove_rule x rule job ∷ calls) =
    ite (Str-discrete x ip) (suc (removals ip calls)) (removals ip calls)

pub removals-append :
    (ip : Str) (xs ys : List NrsCall) → removals ip (xs ++ ys) ≡ removals ip xs + removals ip ys
unfolding removals
removals-append ip [] ys = omega arith
removals-append ip (set_rule x job rule mbs ∷ xs) ys = removals-append ip xs ys
removals-append ip (remove_rule x rule job ∷ xs) ys = ground (arith, removals-append ip xs ys)

removals-set_calls :
    (ip job rule : Str) (entries : List (Str × ℕ)) → removals ip (set_calls job rule entries) ≡ 0
unfolding removals set_calls
removals-set_calls ip job rule [] = refl
removals-set_calls ip job rule ((x, mbs) ∷ entries) = removals-set_calls ip job rule entries

mem-set_calls :
    (job rule ip : Str) (mbs : ℕ) (entries : List (Str × ℕ))
    → Mem (ip, mbs) entries
    → Mem (set_rule ip job rule mbs) (set_calls job rule entries)
unfolding set_calls
mem-set_calls job rule ip mbs [] = λ m. absurd (not-mem-nil m)
mem-set_calls job rule ip mbs ((x, k) ∷ entries) = λ m.
    Or.elim squash₁ (mem-cons.0 m) (λ e. mem-cons.1 (Or.inl (here e)))
      (λ r. mem-cons_of_mem _ (mem-set_calls job rule ip mbs entries r))
  where
    here : ◌≡◌ {A = Str × ℕ} (ip, mbs) (x, k) → set_rule ip job rule mbs ≡ set_rule x job rule k
    here e = ap (λ (p : Str × ℕ). set_rule p.0 job rule p.1) e

module _ (result : NrsCall → Bool) (job rule : Str) where
  -- Every machine of the entries accepted its rule.
  abbrev pub AllSet : List (Str × ℕ) → Type 0
  AllSet entries =
      (ip : Str) (mbs : ℕ) → Mem (ip, mbs) entries → result (set_rule ip job rule mbs) ≡ true

  cleanup-empty :
      (entries : List (Str × ℕ)) → cleanup_calls result job rule entries ≡ [] → AllSet entries
  unfolding cleanup_calls
  cleanup-empty [] e ip mbs = λ m. absurd (not-mem-nil m)
  cleanup-empty ((x, k) ∷ entries) e ip mbs = λ m.
      Or.elim (Bool-set _ _) (mem-cons.0 m)
        (λ p.
          ap (λ (q : Str × ℕ). result (set_rule q.0 job rule q.1)) p
          ∙ head (result (set_rule x job rule k)) refl)
        (λ r. cleanup-empty entries (tail (result (set_rule x job rule k)) refl) ip mbs r)
    where
      head : (b : Bool) → result (set_rule x job rule k) ≡ b → result (set_rule x job rule k) ≡ true
      head true f = f
      head false f = ground arith

      tail :
          (b : Bool)
          → result (set_rule x job rule k) ≡ b
          → cleanup_calls result job rule entries ≡ []
      tail true f = ground arith
      tail false f = ground arith

  cleanup-of-AllSet :
      (entries : List (Str × ℕ)) → AllSet entries → cleanup_calls result job rule entries ≡ []
  unfolding cleanup_calls
  cleanup-of-AllSet [] a = refl
  cleanup-of-AllSet ((x, k) ∷ entries) a =
      rw (a x k mem-cons_self)
        (cleanup-of-AllSet entries (λ ip mbs m. a ip mbs (mem-cons_of_mem _ m)))

  -- SetRulesAsync succeeds exactly if every machine accepted its rule, and then removes nothing.
  pub set_rules_async-succeeds :
      (entries : List (Str × ℕ))
      → ((set_rules_async result entries job rule).1 ≡ true) ↔ AllSet entries
  unfolding set_rules_async
  set_rules_async-succeeds entries = (
    (λ e. cleanup-empty entries (empty_of (cleanup_calls result job rule entries) e)),
    λ a. ap is_empty (cleanup-of-AllSet entries a),
  )
    where
      empty_of : (calls : List NrsCall) → is_empty calls ≡ true → calls ≡ []
      empty_of [] e = refl
      empty_of (c ∷ calls) e = cc

  removals-cleanup :
      (ip : Str) (entries : List (Str × ℕ))
      → ((mbs : ℕ) → result (set_rule ip job rule mbs) ≡ true)
      → removals ip (cleanup_calls result job rule entries) ≡ 0
  unfolding removals cleanup_calls
  removals-cleanup ip [] a = refl
  removals-cleanup ip ((x, k) ∷ entries) a = elim (Str-discrete x ip) [
    | yes hit ↦ rw (hit, a k) (removals-cleanup ip entries a)
    | no miss ↦ ground (arith, removals-cleanup ip entries a)
  ]

  -- A machine that accepts is never asked to remove the rule, whatever the other machines answer.
  pub set_rules_async-keeps :
      (ip : Str) (mbs : ℕ) (entries : List (Str × ℕ))
      → ((k : ℕ) → result (set_rule ip job rule k) ≡ true)
      → Mem (ip, mbs) entries
      → Mem (set_rule ip job rule mbs) (set_rules_async result entries job rule).0
        × (removals ip (set_rules_async result entries job rule).0 ≡ 0)
  unfolding set_rules_async
  set_rules_async-keeps ip mbs entries a m = (
    mem-append_left _ (mem-set_calls job rule ip mbs entries m),
    omega (
      arith,
      removals-append ip (set_calls job rule entries) (cleanup_calls result job rule entries),
      removals-set_calls ip job rule entries,
      removals-cleanup ip entries a,
    ),
  )
