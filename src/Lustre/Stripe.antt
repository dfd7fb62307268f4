-- ===== src/Lustre/Stripe.antt =====
-- The output of "lfs getstripe", and what ParseOstsFromGetStripe reads in it.
use mathlib.Core.List.{append-nil, append_assoc}
use qos_planner.Common.{
  ℕ, suc, ◌+◌, ◌≤◌, ◌<◌, ◌≡◌, inl, inr, refl, sym, ap, ◌∙◌, List, [], ◌∷◌, ◌++◌, Bool, true, not,
  ◌&&◌, none, some, ◌==◌, if◌then◌else◌, Str, arith, Option-cases,
}
use qos_planner.Lustre.Regex.{Item, lit, plus, star, group, is_any, is_digit, regex_match}
use qos_planner.Lustre.Match.{All, Matches, sound, complete, star-more, star-stop}
use qos_planner.Lustre.Lines.{All-append, All-weaken}
use qos_planner.Lustre.Parse.{stripe_regex}

abbrev pub tab : ℕ
tab = 9

-- A byte of a cell of the table.
abbrev pub is_cell : ℕ → Bool
is_cell c = is_any c && not (c == tab)

-- The line of an object: the index of its OST is `tens` and then `last`.
pub record Stripe : Type 0 where
  pub pad : Str
  pub tens : Str
  pub last : ℕ
  pub objid : Str
  pub hex : Str
  pub seq : Str

abbrev behind_index : Str → Str → Str → Str
behind_index objid hex seq = tab ∷ (objid ++ (tab ∷ (hex ++ (tab ∷ seq))))

abbrev pub stripe_line : Stripe → Str
stripe_line x = tab ∷ (x.pad ++ (x.tens ++ (x.last ∷ behind_index x.objid x.hex x.seq)))

abbrev pub IsCell : Str → Type 0
IsCell [] = ⊥
IsCell (c ∷ w) = All is_cell (c ∷ w)

pub record IsTable (x : Stripe) : Type 0 where
  pub pad : IsCell x.pad
  pub tens : All is_digit x.tens
  pub last : is_digit x.last ≡ true
  pub objid : IsCell x.objid
  pub hex : IsCell x.hex
  pub seq : All is_cell x.seq

tabs : Str → ℕ
tabs [] = 0
tabs (c ∷ s) = if c == tab then suc (tabs s) else tabs s

tabs-append : (v w : Str) → tabs (v ++ w) ≡ tabs v + tabs w
unfolding tabs
tabs-append [] w = omega arith
tabs-append (c ∷ v) w = ground (arith, tabs-append v w)

tabs-cells : (w : Str) → All is_cell w → tabs w ≡ 0
unfolding tabs
tabs-cells [] h = refl
tabs-cells (c ∷ w) (here, h) = ground (arith, tabs-cells w h)

-- The pattern behind the number, and from the number on.
abbrev three_tabs : List Item
three_tabs = lit tab ∷ plus is_any ∷ lit tab ∷ plus is_any ∷ lit tab ∷ star is_any ∷ []

abbrev from_number : List Item
from_number = group is_digit ∷ three_tabs

tabs-cons : (c : ℕ) (w s : Str) → tabs s ≤ tabs (c ∷ (w ++ s))
unfolding tabs
tabs-cons c w s = ground (arith, tabs-append w s)

tabs-tab : (s : Str) → tabs (tab ∷ s) ≡ suc (tabs s)
unfolding tabs
tabs-tab s = refl

Matches-tabs : (s : Str) (g : List Str) → Matches three_tabs s g → (3 ≤ tabs s) × (g ≡ [])
Matches-tabs s g
      (
        s1,
        e1,
        (c, w, s2, e2, _, (s3, e3, (c', w', s4, e4, _, (s5, e5, (_, _, _, _, (_, none_left)))))),
      ) =
    (
      omega (
        arith,
        ap tabs e1,
        ap tabs e2,
        ap tabs e3,
        ap tabs e4,
        ap tabs e5,
        tabs-tab s1,
        tabs-tab s3,
        tabs-tab s5,
        tabs-cons c w s2,
        tabs-cons c' w' s4,
      ),
      none_left,
    )

-- With fewer tabs the number can stand nowhere.
few_tabs : (s : Str) → tabs s < 3 → regex_match s (star is_any ∷ from_number) ≡ none
few_tabs s few = elim (Option-cases (regex_match s (star is_any ∷ from_number))) [
  | inl fails ↦ fails
  | inr (g, e) ↦ absurd (too_few (sound s (star is_any ∷ from_number) g e))
]
  where
    too_few : {g : List Str} → Matches (star is_any ∷ from_number) s g → ⊥
    too_few (w, s', e, _, (c, v, s'', g', e', _, _, m)) = omega (
      arith,
      ap tabs e,
      tabs-append w s',
      ap tabs e',
      tabs-cons c v s'',
      (Matches-tabs s'' g' m).0,
    )

module _ (objid hex seq : Str) (ho : IsCell objid) (hh : IsCell hex) (hs : All is_cell seq) where
  abbrev T : Str
  T = behind_index objid hex seq

  IsCell-cells : (w : Str) → IsCell w → All is_cell w
  IsCell-cells [] h = absurd h
  IsCell-cells (c ∷ w) h = h

  cells_any : (w : Str) → All is_cell w → All is_any w
  cells_any = All-weaken is_cell is_any λ c h. ground arith

  behind-Matches : (o x : Str) → IsCell o → IsCell x → Matches three_tabs (behind_index o x seq) []
  behind-Matches [] x h k = absurd h
  behind-Matches (c ∷ o) [] h k = absurd k
  behind-Matches (c ∷ o) (d ∷ x) h k = (
    _,
    refl,
    (
      c,
      o,
      _,
      refl,
      cells_any (c ∷ o) h,
      (
        _,
        refl,
        (
          d,
          x,
          _,
          refl,
          cells_any (d ∷ x) k,
          (_, refl, (seq, [], sym (append-nil seq), cells_any seq hs, (refl, refl))),
        ),
      ),
    ),
  )

  match-behind : regex_match T three_tabs ≡ some []
  match-behind =
      let (g, e) = complete three_tabs T [] (behind-Matches objid hex ho hh) in
      e ∙ ap some (Matches-tabs T g (sound T three_tabs g e)).1

  tabs-T : tabs (objid ++ (tab ∷ (hex ++ (tab ∷ seq)))) < 3
  tabs-T = omega (
    arith,
    tabs-append objid (tab ∷ (hex ++ (tab ∷ seq))),
    tabs-tab (hex ++ (tab ∷ seq)),
    tabs-append hex (tab ∷ seq),
    tabs-tab seq,
    tabs-cells objid (IsCell-cells objid ho),
    tabs-cells hex (IsCell-cells hex hh),
    tabs-cells seq hs,
  )

  no_number-behind : regex_match T (star is_any ∷ from_number) ≡ none
  no_number-behind =
      star-stop is_any from_number tab (objid ++ (tab ∷ (hex ++ (tab ∷ seq))))
        (few_tabs (objid ++ (tab ∷ (hex ++ (tab ∷ seq)))) tabs-T)
      ∙ unfold regex_match in refl

  match-number :
      (d : ℕ) → is_digit d ≡ true → regex_match (d ∷ T) from_number ≡ some ((d ∷ []) ∷ [])
  unfolding regex_match
  match-number d digit = rw (digit, match-behind)

  match-front :
      (d : ℕ) (x : Str)
      → is_digit d ≡ true
      → All is_any x
      → regex_match (x ++ (d ∷ T)) (star is_any ∷ from_number) ≡ some ((d ∷ []) ∷ [])
  match-front d [] digit all =
      star-stop is_any from_number d T no_number-behind ∙ match-number d digit
  match-front d (c ∷ x) digit (any, all) =
      star-more is_any from_number c (x ++ (d ∷ T)) ((d ∷ []) ∷ []) any (match-front d x digit all)

pub match-stripe_line :
    (x : Stripe) → IsTable x → regex_match (stripe_line x) stripe_regex ≡ some ((x.last ∷ []) ∷ [])
unfolding regex_match
match-stripe_line x h = by_pad x.pad h.pad
  where
    any : (w : Str) → All is_cell w → All is_any w
    any = All-weaken is_cell is_any λ c h. ground arith

    by_pad :
        (pad : Str)
        → IsCell pad
        → regex_match (stripe_line (record x { pad = pad })) stripe_regex
          ≡ some ((x.last ∷ []) ∷ [])
    by_pad [] h = absurd h
    by_pad (c ∷ pad) (cell, cells) =
        let hit : is_any c ≡ true = ground arith in
        let digits = All-weaken is_digit is_any (λ c h. ground arith) x.tens h.tens in
        rw (hit, ← append_assoc pad x.tens (x.last ∷ behind_index x.objid x.hex x.seq))
          (match-front x.objid x.hex x.seq h.objid h.hex h.seq x.last (pad ++ x.tens) h.last
            (All-append is_any pad x.tens (any pad cells) digits))
