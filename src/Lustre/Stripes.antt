-- ===== src/Lustre/Stripes.antt =====
-- The whole output of "lfs getstripe".
use mathlib.Core.List.{append-nil, append_assoc}
use qos_planner.Common.{
  ℕ, ◌≡◌, ◌⊎◌, inl, inr, refl, sym, ◌∙◌, subst, List, [], ◌∷◌, ◌++◌, Bool, true, false, not, none,
  ◌==◌, Str, arith, Option-cases,
}
use qos_planner.Lustre.Regex.{is_digit, regex_match}
use qos_planner.Lustre.Match.{All, Matches, sound}
use qos_planner.Lustre.Lines.{newline, is_inline, get_lines-line, All-append, All-weaken}
use qos_planner.Lustre.Parse.{get_lines, stripe_regex, stripe_osts, parse_osts_from_get_stripe}
use qos_planner.Lustre.Stripe.{
  tab, is_cell, IsCell, Stripe, stripe_line, IsTable, match-stripe_line,
}

abbrev pub no_digit : ℕ → Bool
no_digit c = not (is_digit c)

-- A line of the output: that of an object, or any other.
pub data OutputLine : Type 0 where
  object : Stripe → OutputLine
  other : Str → OutputLine

abbrev pub text : OutputLine → Str
text (object x) = stripe_line x
text (other l) = l

abbrev pub NoTab : Str → Type 0
NoTab [] = Unit {0}
NoTab (c ∷ l) = (c == tab) ≡ false

-- Another line has no tab at its start, or no digit.
abbrev pub IsProper : OutputLine → Type 0
IsProper (object x) = IsTable x
IsProper (other l) = All is_inline l × (NoTab l ⊎ All no_digit l)

abbrev pub AreProper : List OutputLine → Type 0
AreProper [] = Unit {0}
AreProper (l ∷ ls) = IsProper l × AreProper ls

unfoldable pub output : List OutputLine → Str
output [] = []
output (l ∷ ls) = text l ++ newline ∷ output ls

-- The last digit of the index of each object.
unfoldable pub last_digits : List OutputLine → List Str
last_digits [] = []
last_digits (object x ∷ ls) = (x.last ∷ []) ∷ last_digits ls
last_digits (other l ∷ ls) = last_digits ls

All-behind : (t : ℕ → Bool) (v w : Str) → All t (v ++ w) → All t w
All-behind t [] w h = h
All-behind t (c ∷ v) w (_, h) = All-behind t v w h

not-Matches : (l : Str) (g : List Str) → All no_digit l → Matches stripe_regex l g → ⊥
not-Matches l g h (s, e, (c, w, s', e', _, (d, _, s'', _, e'', _, (digit, _), _))) =
    let (_, h1) = subst (All no_digit) e h in
    let h2 = subst (All no_digit) e' h1 in
    let h3 = subst (All no_digit) e'' (All-behind no_digit (c ∷ w) s' h2) in ground (arith, h3.0)

match-other : (l : Str) → NoTab l ⊎ All no_digit l → regex_match l stripe_regex ≡ none
unfolding regex_match
match-other [] h = refl
match-other (c ∷ l) (inl h) = rw h
match-other (c ∷ l) (inr h) = elim (Option-cases (regex_match (c ∷ l) stripe_regex)) [
  | inl fails ↦ fails
  | inr (g, e) ↦ absurd (not-Matches (c ∷ l) g h (sound (c ∷ l) stripe_regex g e))
]

IsCell-inline : (w : Str) → IsCell w → All is_inline w
IsCell-inline [] h = absurd h
IsCell-inline (c ∷ w) h = All-weaken is_cell is_inline (λ c h. ground arith) (c ∷ w) h

digit-inline : (c : ℕ) → is_digit c ≡ true → is_inline c ≡ true
digit-inline c h = ground arith

stripe_line-inline : (x : Stripe) → IsTable x → All is_inline (stripe_line x)
stripe_line-inline x h =
    let seq = All-weaken is_cell is_inline (λ c h. ground arith) x.seq h.seq in
    let hex = All-append is_inline x.hex _ (IsCell-inline x.hex h.hex) (refl, seq) in
    let objid = All-append is_inline x.objid _ (IsCell-inline x.objid h.objid) (refl, hex) in
    let last = digit-inline x.last h.last in
    let tens = All-weaken is_digit is_inline digit-inline x.tens h.tens in
    (
      refl,
      All-append is_inline x.pad _ (IsCell-inline x.pad h.pad)
          (All-append is_inline x.tens _ tens (last, (refl, objid))),
    )

stripe_osts-output :
    (ls : List OutputLine) (osts : List Str)
    → AreProper ls
    → stripe_osts (get_lines (output ls)) osts ≡ osts ++ last_digits ls
unfolding output last_digits get_lines stripe_osts
stripe_osts-output [] osts h = sym (append-nil osts)
stripe_osts-output (other l ∷ ls) osts ((inline, h), hs) =
    rw (get_lines-line l (output ls) inline, match-other l h, stripe_osts)
      (stripe_osts-output ls osts hs)
stripe_osts-output (object x ∷ ls) osts (h, hs) =
    rw
      (
        get_lines-line (stripe_line x) (output ls) (stripe_line-inline x h),
        match-stripe_line x h,
        stripe_osts,
      )
      (stripe_osts-output ls (osts ++ (x.last ∷ []) ∷ []) hs
        ∙ append_assoc osts ((x.last ∷ []) ∷ []) (last_digits ls))

-- The parser appends the last digit of each index, and nothing for the other lines.
pub parse_osts_from_get_stripe-last_digits :
    (ls : List OutputLine) (osts : List Str)
    → AreProper ls
    → parse_osts_from_get_stripe (output ls) osts ≡ osts ++ last_digits ls
unfolding parse_osts_from_get_stripe
parse_osts_from_get_stripe-last_digits ls osts h = stripe_osts-output ls osts h
