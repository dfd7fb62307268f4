-- ===== src/Rules/Requests.antt =====
-- The calls of SetRulesAsync and of RemoveRulesAsync (src/common/RuleManager.cpp), as lists.
use mathlib.Core.List.{filter}
use mathlib.Core.Bool.{Bool-discrete}
use qos_planner.Common.{
  ℕ, ◌≡◌, refl, ap, List, [], ◌∷◌, ◌++◌, map, Bool, false, Str, Bool-cases, inl, inr,
}
use qos_planner.Rules.{
  NrsCall, set_rule, remove_rule, set_calls, cleanup_calls, set_rules_async, remove_rules_async,
}

-- The calls that set a rule on each machine of the entries, and then those that remove it where it was
-- refused.
module _ (result : NrsCall → Bool) (job_id rule : Str) where
  abbrev pub set_on : Str × ℕ → NrsCall
  set_on (ip, mbs) = set_rule ip job_id rule mbs

  abbrev pub remove_on : Str → NrsCall
  remove_on ip = remove_rule ip rule job_id

  abbrev pub calls_of : List (Str × ℕ) → List NrsCall
  calls_of entries =
      map set_on entries
      ++ map (λ e. remove_on e.0) (filter (λ e. Bool-discrete (result (set_on e)) false) entries)

  set_calls-map : (entries : List (Str × ℕ)) → set_calls job_id rule entries ≡ map set_on entries
  unfolding set_calls
  set_calls-map [] = refl
  set_calls-map (e ∷ entries) = ap (◌∷◌ (set_on e)) (set_calls-map entries)

  cleanup_calls-filter :
      (entries : List (Str × ℕ))
      → cleanup_calls result job_id rule entries
        ≡ map (λ e. remove_on e.0) (filter (λ e. Bool-discrete (result (set_on e)) false) entries)
  unfolding cleanup_calls
  cleanup_calls-filter [] = refl
  cleanup_calls-filter ((ip, mbs) ∷ entries) =
      elim (Bool-cases (result (set_rule ip job_id rule mbs))) [
        | inl accepted ↦ rw (accepted, cleanup_calls-filter entries) refl
        | inr refused ↦ rw (refused, cleanup_calls-filter entries) refl
      ]

  pub set_rules_async-calls_of :
      (entries : List (Str × ℕ)) → (set_rules_async result entries job_id rule).0 ≡ calls_of entries
  unfolding set_rules_async
  set_rules_async-calls_of entries = rw (set_calls-map entries, cleanup_calls-filter entries) refl

pub remove_rules_async-map :
    (job_id rule : Str) (ips : List Str)
    → remove_rules_async job_id rule ips ≡ map (λ ip. remove_rule ip rule job_id) ips
unfolding remove_rules_async
remove_rules_async-map job_id rule [] = refl
remove_rules_async-map job_id rule (ip ∷ ips) =
    ap (◌∷◌ (remove_rule ip rule job_id)) (remove_rules_async-map job_id rule ips)
