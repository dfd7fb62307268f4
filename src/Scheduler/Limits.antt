-- ===== src/Scheduler/Limits.antt =====
-- src/common/OSTLimitConfigParser.h and .cpp, and `Init` of the scheduler for static workloads, which
-- reads the limits with it. What the JSON library makes of the file is a parameter.
use qos_planner.Common.{
  ℕ, zero, suc, ◌≡◌, ◌≢◌, ◌⊎◌, List, [], ◌∷◌, Bool, true, false, Option, none, some, ite, Str,
  Str-discrete, arith, refl, get_elem?, inl, inr, subst, sym, some_eq, Option-cases,
}
use qos_planner.Common.Map.{find, assign, find-assign}
use qos_planner.Scheduler.Static.{Floats, StaticScheduler}

-- What stands under a key of an element: nothing, a value whose conversion throws, or one that is read.
pub data Field (A : Type 0) : Type 0 where
  missing mistyped : Field A
  read : A → Field A

-- What comes of reading: an exception, false, or true with what is read.
pub data Reading (A : Type 0) : Type 0 where
  threw failed : Reading A
  succeeded : A → Reading A

module _ (floats : Floats) where
  open floats use {Float}

  -- An element of the file: what stands under "name", to be read as a text, and under "max_mbs", to be
  -- read as a number.
  pub record LimitElement : Type 0 where
    pub name : Field Str
    pub max_mbs : Field Float

  -- `ParseContent`, from the limits so far; `none` is an exception, which nothing catches.
  unfoldable pub parse_content_limits :
      List LimitElement → List (Str × Float) → Option (List (Str × Float))
  parse_content_limits [] limits = some limits
  parse_content_limits (e ∷ es) limits = elim e.name [
    | missing ↦ parse_content_limits es limits
    | mistyped ↦ elim e.max_mbs [
      | missing ↦ parse_content_limits es limits
      | mistyped ↦ none
      | read mbs ↦ none
    ]
    | read name ↦ elim e.max_mbs [
      | missing ↦ parse_content_limits es limits
      | mistyped ↦ none
      | read mbs ↦ parse_content_limits es (assign name mbs limits)
    ]
  ]

  -- `Parse` and `GetLimits`, which fail for a text that does not parse (`none`).
  unfoldable pub parse_limits : Option (List LimitElement) → Reading (List (Str × Float))
  unfolding parse_content_limits
  parse_limits none = failed
  parse_limits (some elements) = elim (parse_content_limits elements []) [
    | none ↦ threw
    | some limits ↦ succeeded limits
  ]

  -- `Init`; `file` is none if no file is named, and the inner `none` is a file that is not there or
  -- does not parse. `none` as the result is an exception.
  unfoldable pub init :
      StaticScheduler floats
      → Option (Option (List LimitElement))
      → Option (StaticScheduler floats × Bool)
  unfolding parse_limits
  init s none = some (s, true)
  init s (some file) = elim (parse_limits file) [
    | threw ↦ none
    | failed ↦ some (s, false)
    | succeeded limits ↦ some (record s { osts_max_mbs_limits = limits }, true)
  ]

  -- The limit that an element sets for an OST.
  abbrev pub own_limit : Str → Field Str → Field Float → Option Float
  own_limit ost (read name) (read mbs) = ite (Str-discrete name ost) (some mbs) none
  own_limit ost name mbs = none

  -- The limit of an OST in the file: that of the last element that names it and has one.
  unfoldable pub limit_in : Str → List LimitElement → Option Float
  limit_in ost [] = none
  limit_in ost (e ∷ es) = elim (limit_in ost es) [
    | some later ↦ some later
    | none ↦ own_limit ost e.name e.max_mbs
  ]

  -- Both keys are there, and the value of one of them is of another type.
  abbrev pub IsMistyped : LimitElement → Type 0
  IsMistyped e =
      ((e.name ≡ mistyped) × (e.max_mbs ≢ missing)) ⊎ ((e.name ≢ missing) × (e.max_mbs ≡ mistyped))

  abbrev pub HasMistyped : List LimitElement → Type 0
  HasMistyped es = (i : ℕ) × (e : LimitElement) × (get_elem? es i ≡ some e) × IsMistyped e

  further : (e : LimitElement) (es : List LimitElement) → HasMistyped es → HasMistyped (e ∷ es)
  further e es (i, e', at, wrong) = (suc i, e', at, wrong)

  -- What `ParseContent` does: with an element of a wrong type it throws, and otherwise the limits
  -- are those of the file, over those from before.
  abbrev Content : List LimitElement → List (Str × Float) → Option (List (Str × Float)) → Type 0
  Content es limits none = HasMistyped es
  Content es limits (some r) =
      ((ost : Str)
        → find ost r ≡ elim (limit_in ost es) [ none ↦ find ost limits | some mbs ↦ some mbs ])
      × (HasMistyped es → ⊥)

  -- An element that is well typed does to the limits what its own limit says.
  only_further :
      (e : LimitElement) (es : List LimitElement)
      → (IsMistyped e → ⊥)
      → (HasMistyped es → ⊥)
      → HasMistyped (e ∷ es)
      → ⊥
  only_further e es own rest (zero, e', at, wrong) = own (subst IsMistyped (sym (some_eq at)) wrong)
  only_further e es own rest (suc i, e', at, wrong) = rest (i, e', at, wrong)

  skipped :
      (e : LimitElement) (es : List LimitElement) (limits : List (Str × Float))
      (r : Option (List (Str × Float)))
      → ((ost : Str) → own_limit ost e.name e.max_mbs ≡ none)
      → (IsMistyped e → ⊥)
      → Content es limits r
      → Content (e ∷ es) limits r
  unfolding limit_in
  skipped e es limits none unset own c = further e es c
  skipped e es limits (some r) unset own (same, rest) =
      ((λ ost. ground (arith, same ost, unset ost)), only_further e es own rest)

  assigned :
      (name : Str) (mbs : Float) (es : List LimitElement) (limits : List (Str × Float))
      (r : Option (List (Str × Float)))
      → let e : LimitElement = record { name = read name; max_mbs = read mbs } in
        Content es (assign name mbs limits) r → Content (e ∷ es) limits r
  unfolding limit_in
  assigned name mbs es limits none c =
      let e : LimitElement = record { name = read name; max_mbs = read mbs } in further e es c
  assigned name mbs es limits (some r) (same, rest) =
      let e : LimitElement = record { name = read name; max_mbs = read mbs } in
      (
        (λ ost. ground (arith, same ost, find-assign name ost mbs limits)),
        only_further e es (λ w. elim w [ inl (n, m) ↦ cc | inr (n, m) ↦ cc ]) rest,
      )

  step :
      (name : Field Str) (mbs : Field Float) (es : List LimitElement) (limits : List (Str × Float))
      → ((l : List (Str × Float)) → Content es l (parse_content_limits es l))
      → let e : LimitElement = record { name = name; max_mbs = mbs } in
        Content (e ∷ es) limits (parse_content_limits (e ∷ es) limits)
  unfolding parse_content_limits
  step missing missing es limits rest =
      skipped _ es limits _ (λ ost. refl) (λ w. elim w [ inl (n, m) ↦ cc | inr (n, m) ↦ cc ])
        (rest limits)
  step missing mistyped es limits rest =
      skipped _ es limits _ (λ ost. refl) (λ w. elim w [ inl (n, m) ↦ cc | inr (n, m) ↦ n refl ])
        (rest limits)
  step missing (read mbs) es limits rest =
      skipped _ es limits _ (λ ost. refl) (λ w. elim w [ inl (n, m) ↦ cc | inr (n, m) ↦ cc ])
        (rest limits)
  step mistyped missing es limits rest =
      skipped _ es limits _ (λ ost. refl) (λ w. elim w [ inl (n, m) ↦ m refl | inr (n, m) ↦ cc ])
        (rest limits)
  step (read name) missing es limits rest =
      skipped _ es limits _ (λ ost. refl) (λ w. elim w [ inl (n, m) ↦ cc | inr (n, m) ↦ cc ])
        (rest limits)
  step mistyped mistyped es limits rest = (0, _, refl, inl (refl, λ e. cc))
  step mistyped (read mbs) es limits rest = (0, _, refl, inl (refl, λ e. cc))
  step (read name) mistyped es limits rest = (0, _, refl, inr ((λ e. cc), refl))
  step (read name) (read mbs) es limits rest =
      assigned name mbs es limits _ (rest (assign name mbs limits))

  parse_content_limits-Content :
      (es : List LimitElement) (limits : List (Str × Float))
      → Content es limits (parse_content_limits es limits)
  unfolding parse_content_limits limit_in
  parse_content_limits-Content [] limits = ((λ ost. refl), λ (i, e, at, wrong). cc)
  parse_content_limits-Content (e ∷ es) limits =
      step e.name e.max_mbs es limits (parse_content_limits-Content es)

  -- What `Init` does with the elements of a file.
  abbrev pub LimitsRead :
      StaticScheduler floats → List LimitElement → Option (StaticScheduler floats × Bool) → Type 0
  LimitsRead s es none = HasMistyped es
  LimitsRead s es (some r) =
      (HasMistyped es → ⊥)
      × (r.1 ≡ true)
      × (r.0.monitor ≡ s.monitor)
      × ((ost : Str) → find ost r.0.osts_max_mbs_limits ≡ limit_in ost es)

  init-threw :
      (s : StaticScheduler floats) (es : List LimitElement)
      → parse_content_limits es [] ≡ none
      → init s (some (some es)) ≡ none
  unfolding init
  init-threw s es e = ground arith

  init-succeeded :
      (s : StaticScheduler floats) (es : List LimitElement) (limits : List (Str × Float))
      → parse_content_limits es [] ≡ some limits
      → init s (some (some es)) ≡ some (record s { osts_max_mbs_limits = limits }, true)
  unfolding init
  init-succeeded s es limits e = ground arith

  init-LimitsRead :
      (s : StaticScheduler floats) (es : List LimitElement)
      → LimitsRead s es (init s (some (some es)))
  init-LimitsRead s es = by_content (parse_content_limits es []) refl
    where
      by_content :
          (r : Option (List (Str × Float)))
          → parse_content_limits es [] ≡ r
          → LimitsRead s es (init s (some (some es)))
      by_content none e =
          subst (LimitsRead s es) (sym (init-threw s es e))
            (subst (Content es []) e (parse_content_limits-Content es []))
      by_content (some limits) e =
          let (same, typed) = subst (Content es []) e (parse_content_limits-Content es []) in
          subst (LimitsRead s es) (sym (init-succeeded s es limits e))
            (typed, refl, refl, λ ost. unfold find in ground (arith, same ost))

  -- Where reading ends with an exception, the file parses, and an element is mistyped.
  pub parse_limits-threw :
      (file : Option (List LimitElement))
      → parse_limits file ≡ threw
      → (es : List LimitElement) × (file ≡ some es) × HasMistyped es
  unfolding parse_limits
  parse_limits-threw none e = cc
  parse_limits-threw (some es) e = elim (Option-cases (parse_content_limits es [])) [
    | inl wrong ↦ (es, refl, subst (Content es []) wrong (parse_content_limits-Content es []))
    | inr (limits, read_all) ↦ absurd (let no_throw : ⊥ = ground arith in no_throw)
  ]

  -- Without a file, Init succeeds and the limits stay as they were; a file that cannot be read or
  -- does not parse makes it fail and changes nothing; with any other, an exception leaves Init
  -- exactly if an element has both keys and the value of one of them is of a wrong type, and
  -- otherwise Init succeeds, leaves the monitor, and the limit of each OST becomes that of the last
  -- element of the file with its name and a limit, and none if there is none.
  pub init-limits :
      (s : StaticScheduler floats) (es : List LimitElement)
      → (init s none ≡ some (s, true))
        × (init s (some none) ≡ some (s, false))
        × LimitsRead s es (init s (some (some es)))
  unfolding init
  init-limits s es = (refl, refl, init-LimitsRead s es)
