-- ===== src/Lustre/Lines.antt =====
-- Lines of an output, and texts that a class of bytes covers.
use qos_planner.Common.{
  ℕ, ◌≡◌, refl, [], ◌∷◌, ◌++◌, Bool, true, false, ◌==◌, if◌then◌else◌, Bool-cases, inl, inr, Str,
  arith,
}
use qos_planner.Lustre.Parse.{get_lines, all_of}
use qos_planner.Lustre.Match.{All}

abbrev pub newline : ℕ
newline = 10

abbrev pub is_inline : ℕ → Bool
is_inline c = if c == newline then false else true

-- A line that is ended is the first one that is read.
pub get_lines-line : (l s : Str) → All is_inline l → get_lines (l ++ newline ∷ s) ≡ l ∷ get_lines s
unfolding get_lines
get_lines-line [] s h = refl
get_lines-line (c ∷ l) s (inner, h) = ground (arith, get_lines-line l s h)

pub All-append : (t : ℕ → Bool) (v w : Str) → All t v → All t w → All t (v ++ w)
All-append t [] w hv hw = hw
All-append t (c ∷ v) w (here, hv) hw = (here, All-append t v w hv hw)

pub All-weaken :
    (t u : ℕ → Bool) → ((c : ℕ) → t c ≡ true → u c ≡ true) → (w : Str) → All t w → All u w
All-weaken t u k [] h = tt
All-weaken t u k (c ∷ w) (here, h) = (k c here, All-weaken t u k w h)

pub All-all_of : (t : ℕ → Bool) (w : Str) → all_of t w ≡ true → All t w
All-all_of t [] h = tt
All-all_of t (c ∷ w) h = elim (Bool-cases (t c)) [
  | inl hit ↦ (hit, All-all_of t w (rw hit at h))
  | inr miss ↦ absurd (let no_match : ⊥ = cc (rw miss at h) in no_match)
]
