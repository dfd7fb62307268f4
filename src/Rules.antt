-- ===== src/Rules.antt =====
-- src/common/RuleManager.h and .cpp: the NRS rules of the active jobs. The rules are set on the
-- machines of the OSTs by a `RuleSetter` (RuleSetter.h): the model keeps the calls that are made,
-- and takes their results from a function. The tasks of one round run side by side, so the order
-- of its calls is that of their start. The order in which an `unordered_map` is visited is a
-- parameter.
pub mod Cache
pub mod Shares
pub mod Async
pub mod Manager
pub mod Requests
pub mod Calls
pub mod Samples
mod Tests
use qos_planner.Common.{
  ℕ, ◌+◌, ◌%◌, ◌^◌, List, [], ◌∷◌, ◌++◌, map, Bool, true, false, not, Option, none, some, ◌||◌,
  if◌then◌else◌, Str, str,
}
use qos_planner.Common.Map.{find, assign, erase}
use qos_planner.Lustre.{Lustre}
use Cache.{Ids, Ips, to_uuid, get_ip}

-- `RuleDefinition`
pub record RuleDefinition : Type 0 where
  pub rule_name : Str
  pub ost_ips : List Str

-- A call of the rule setter.
pub data NrsCall : Type 0 where
  set_rule : Str → Str → Str → ℕ → NrsCall
  remove_rule : Str → Str → Str → NrsCall

-- `RuleManager`, with the maps of its two caches.
pub record RuleManager : Type 0 where
  pub active_rules : List (Str × RuleDefinition)
  pub ids : Ids
  pub ips : Ips

abbrev pub uint32_range : ℕ
uint32_range = 2 ^ 32

-- `lustre_tbf_rule_postfix_`
abbrev pub lustre_tbf_rule_postfix : Str
lustre_tbf_rule_postfix = str "_qosp"

abbrev pub is_empty {ℓ} : {A : Type ℓ} → List A → Bool
is_empty [] = true
is_empty (x ∷ xs) = false

abbrev pub is_some {ℓ} : {A : Type ℓ} → Option A → Bool
is_some none = false
is_some (some a) = true

-- `determineOstIps`: the caches, and the ips unless one is empty.
unfoldable pub determine_ost_ips : Lustre → Ids → Ips → List Str → Ids × Ips × Option (List Str)
determine_ost_ips lustre ids ips [] = (ids, ips, some [])
determine_ost_ips lustre ids ips (id ∷ rest) =
    let (ids', uuid) = to_uuid lustre ids id in
    let (ips', ip) = get_ip lustre ips uuid in
    let more = determine_ost_ips lustre ids' ips' rest in
    if is_empty ip
    then (ids', ips', none)
    else (more.0, more.1, elim more.2 [ none ↦ none | some found ↦ some (ip ∷ found) ])

-- `computeOssToMBsAndCountUnique`, from the map and the list as they are so far.
unfoldable pub compute_oss_to_mbs :
    ℕ → List Str → List (Str × ℕ) → List Str → List (Str × ℕ) × List Str
compute_oss_to_mbs mbs [] oss_to_mbs unique = (oss_to_mbs, unique)
compute_oss_to_mbs mbs (ip ∷ ost_ips) oss_to_mbs unique = elim (find ip oss_to_mbs) [
  | some sum ↦
      compute_oss_to_mbs mbs ost_ips (assign ip ((sum + mbs) % uint32_range) oss_to_mbs) unique
  | none ↦ compute_oss_to_mbs mbs ost_ips (assign ip mbs oss_to_mbs) (unique ++ ip ∷ [])
]

-- The first round of `SetRulesAsync`.
unfoldable pub set_calls : Str → Str → List (Str × ℕ) → List NrsCall
set_calls job_id rule_name [] = []
set_calls job_id rule_name ((ip, mbs) ∷ entries) =
    set_rule ip job_id rule_name mbs ∷ set_calls job_id rule_name entries

-- Its second round, the clean-up after the calls that failed.
unfoldable pub cleanup_calls : (NrsCall → Bool) → Str → Str → List (Str × ℕ) → List NrsCall
cleanup_calls result job_id rule_name [] = []
cleanup_calls result job_id rule_name ((ip, mbs) ∷ entries) =
    let rest = cleanup_calls result job_id rule_name entries in
    if not (result (set_rule ip job_id rule_name mbs))
    then remove_rule ip rule_name job_id ∷ rest
    else rest

-- `SetRulesAsync`
unfoldable pub set_rules_async : (NrsCall → Bool) → List (Str × ℕ) → Str → Str → List NrsCall × Bool
unfolding set_calls cleanup_calls
set_rules_async result entries job_id rule_name =
    let cleanup = cleanup_calls result job_id rule_name entries in
    (set_calls job_id rule_name entries ++ cleanup, is_empty cleanup)

-- `RemoveRulesAsync`
unfoldable pub remove_rules_async : Str → Str → List Str → List NrsCall
remove_rules_async job_id rule_name [] = []
remove_rules_async job_id rule_name (ip ∷ ost_ips) =
    remove_rule ip rule_name job_id ∷ remove_rules_async job_id rule_name ost_ips

-- The part of `SetRules` behind the addresses.
unfoldable pub set_rules_on :
    (NrsCall → Bool)
    → (List (Str × ℕ) → List (Str × ℕ))
    → RuleManager
    → List Str
    → Str
    → ℕ
    → RuleManager × Bool × List NrsCall
unfolding compute_oss_to_mbs set_rules_async
set_rules_on result order rm ost_ips job_id mbs =
    let (oss_to_mbs, unique) = compute_oss_to_mbs mbs ost_ips [] [] in
    let rule_name = lustre_tbf_rule_postfix ++ job_id in
    let (calls, all_set) = set_rules_async result (order oss_to_mbs) job_id rule_name in
    let rule : RuleDefinition = record { rule_name = rule_name; ost_ips = unique } in
    if all_set
    then (record rm { active_rules = assign job_id rule rm.active_rules }, true, calls)
    else (rm, false, calls)

-- `SetRules`
unfoldable pub set_rules :
    Lustre
    → (NrsCall → Bool)
    → (List (Str × ℕ) → List (Str × ℕ))
    → RuleManager
    → List Str
    → Str
    → ℕ
    → RuleManager × Bool × List NrsCall
unfolding determine_ost_ips set_rules_on
set_rules lustre result order rm ost_ids job_id mbs =
    let (ids', ips', found) = determine_ost_ips lustre rm.ids rm.ips ost_ids in
    let rm' = record rm { ids = ids'; ips = ips' } in
    if is_empty ost_ids || is_some (find job_id rm.active_rules)
    then (rm, false, [])
    else elim found [
      | none ↦ (rm', false, [])
      | some ost_ips ↦ set_rules_on result order rm' ost_ips job_id mbs
    ]

-- `RemoveRules`
unfoldable pub remove_rules : RuleManager → Str → RuleManager × Bool × List NrsCall
unfolding remove_rules_async
remove_rules rm job_id = elim (find job_id rm.active_rules) [
  | none ↦ (rm, false, [])
  | some rule ↦ (
    record rm { active_rules = erase job_id rm.active_rules },
    true,
    remove_rules_async job_id rule.rule_name rule.ost_ips,
  )
]
