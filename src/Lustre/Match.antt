-- ===== src/Lustre/Match.antt =====
-- What a pattern means, and the matches that are found.
use mathlib.Core.List.{append-nil, append_assoc}
use qos_planner.Common.{
  ℕ, ◌≡◌, refl, sym, ap, ◌∙◌, List, [], ◌∷◌, ◌++◌, Bool, true, Option, none, some, ◌==◌, Str, arith,
  Bool-cases, Option-cases, inl, inr,
}
use qos_planner.Lustre.Regex.{Item, lit, plus, star, group, taken, found, regex_match}

abbrev pub All : (ℕ → Bool) → Str → Type 0
All t [] = Unit {0}
All t (c ∷ w) = (t c ≡ true) × All t w

-- The text is in the language of the pattern, with these texts in its groups.
abbrev pub Matches : List Item → Str → List Str → Type 0
Matches [] s g = (s ≡ []) × (g ≡ [])
Matches (lit k ∷ r) s g = (s' : Str) × (s ≡ k ∷ s') × Matches r s' g
Matches (plus t ∷ r) s g =
    (c : ℕ) × (w s' : Str) × (s ≡ c ∷ (w ++ s')) × All t (c ∷ w) × Matches r s' g
Matches (star t ∷ r) s g = (w s' : Str) × (s ≡ w ++ s') × All t w × Matches r s' g
Matches (group t ∷ r) s g =
    (c : ℕ) × (w s' : Str) × (g' : List Str) × (s ≡ c ∷ (w ++ s'))
    × (g ≡ (c ∷ w) ∷ g')
    × All t (c ∷ w)
    × Matches r s' g'
Matches (taken t v ∷ r) s g =
    (w s' : Str) × (g' : List Str) × (s ≡ w ++ s') × (g ≡ (v ++ w) ∷ g') × All t w × Matches r s' g'

found_inv :
    (w : Str) (o : Option (List Str)) (g : List Str)
    → found w o ≡ some g
    → (g' : List Str) × (o ≡ some g') × (g ≡ w ∷ g')
found_inv w none g e = cc
found_inv w (some g') g e = (g', refl, cc)

module _ (t : ℕ → Bool) (r : List Item) (c : ℕ) (s : Str) (hit : t c ≡ true) where
  star-take : (g : List Str) → Matches (star t ∷ r) s g → Matches (star t ∷ r) (c ∷ s) g
  star-take g (w, s', split, all, m) = (c ∷ w, s', ap (◌∷◌ c) split, (hit, all), m)

  taken-take :
      (v : Str) (g : List Str)
      → Matches (taken t (v ++ c ∷ []) ∷ r) s g
      → Matches (taken t v ∷ r) (c ∷ s) g
  taken-take v g (w, s', g', split, groups, all, m) = (
    c ∷ w,
    s',
    g',
    ap (◌∷◌ c) split,
    groups ∙ ap (λ x. x ∷ g') (append_assoc v (c ∷ []) w),
    (hit, all),
    m,
  )

taken-stop :
    (t : ℕ → Bool) (r : List Item) (v s : Str) (g g' : List Str)
    → g ≡ v ∷ g'
    → Matches r s g'
    → Matches (taken t v ∷ r) s g
taken-stop t r v s g g' e m = ([], s, g', refl, e ∙ ap (λ x. x ∷ g') (sym (append-nil v)), tt, m)

-- What the matcher finds is a match.
pub sound : (s : Str) (r : List Item) (g : List Str) → regex_match s r ≡ some g → Matches r s g
unfolding regex_match
sound [] [] g e = (refl, cc)
sound (c ∷ s) [] g e = cc
sound [] (lit k ∷ r) g e = cc
sound (c ∷ s) (lit k ∷ r) g e = elim (Bool-cases (c == k)) [
  | inl hit ↦ (s, ground arith, sound s r g (rw hit at e))
  | inr miss ↦ absurd (let no_match : ⊥ = cc (rw miss at e) in no_match)
]
sound [] (plus t ∷ r) g e = cc
sound (c ∷ s) (plus t ∷ r) g e = elim (Bool-cases (t c)) [
  | inl hit ↦
      let (w, s', split, all, m) = sound s (star t ∷ r) g (rw hit at e) in
      (c, w, s', ap (◌∷◌ c) split, (hit, all), m)
  | inr miss ↦ absurd (let no_match : ⊥ = cc (rw miss at e) in no_match)
]
sound [] (star t ∷ r) g e = ([], [], refl, tt, sound [] r g e)
sound (c ∷ s) (star t ∷ r) g e = elim (Bool-cases (t c)) [
  | inr miss ↦ ([], c ∷ s, refl, tt, sound (c ∷ s) r g (rw miss at e))
  | inl hit ↦ elim (Option-cases (regex_match s (star t ∷ r))) [
    | inl fails ↦ ([], c ∷ s, refl, tt, sound (c ∷ s) r g (rw (hit, fails) at e))
    | inr (g', longer) ↦
        star-take t r c s hit g (sound s (star t ∷ r) g (longer ∙ rw (hit, longer) at e))
  ]
]
sound [] (group t ∷ r) g e = cc
sound (c ∷ s) (group t ∷ r) g e = elim (Bool-cases (t c)) [
  | inl hit ↦
      let (w, s', g', split, groups, all, m) = sound s (taken t (c ∷ []) ∷ r) g (rw hit at e) in
      (c, w, s', g', ap (◌∷◌ c) split, groups, (hit, all), m)
  | inr miss ↦ absurd (let no_match : ⊥ = cc (rw miss at e) in no_match)
]
sound [] (taken t v ∷ r) g e =
    let (g', rest, groups) = found_inv v (regex_match [] r) g e in
    taken-stop t r v [] g g' groups (sound [] r g' rest)
sound (c ∷ s) (taken t v ∷ r) g e = elim (Bool-cases (t c)) [
  | inr miss ↦
      let (g', rest, groups) = found_inv v (regex_match (c ∷ s) r) g (rw miss at e) in
      taken-stop t r v (c ∷ s) g g' groups (sound (c ∷ s) r g' rest)
  | inl hit ↦ elim (Option-cases (regex_match s (taken t (v ++ c ∷ []) ∷ r))) [
    | inl fails ↦
        let (g', rest, groups) = found_inv v (regex_match (c ∷ s) r) g (rw (hit, fails) at e) in
        taken-stop t r v (c ∷ s) g g' groups (sound (c ∷ s) r g' rest)
    | inr (g', longer) ↦
        taken-take t r c s hit v g
          (sound s (taken t (v ++ c ∷ []) ∷ r) g (longer ∙ rw (hit, longer) at e))
  ]
]

-- Where there is a match, the matcher finds one.
abbrev pub IsFound : Str → List Item → Type 0
IsFound s r = (g : List Str) × (regex_match s r ≡ some g)

module _ (t : ℕ → Bool) (r : List Item) where
  star_complete : (w s : Str) → All t w → IsFound s r → IsFound (w ++ s) (star t ∷ r)
  unfolding regex_match
  star_complete [] [] all f = f
  star_complete [] (c ∷ s) all (g, e) = elim (Bool-cases (t c)) [
    | inr miss ↦ (g, rw (miss, e))
    | inl hit ↦ elim (Option-cases (regex_match s (star t ∷ r))) [
      | inl fails ↦ (g, rw (hit, fails, e))
      | inr (g', longer) ↦ (g', rw (hit, longer))
    ]
  ]
  star_complete (c ∷ w) s (hit, all) f =
      let (g, longer) = star_complete w s all f in (g, rw (hit, longer))

  taken_complete : (v w s : Str) → All t w → IsFound s r → IsFound (w ++ s) (taken t v ∷ r)
  unfolding regex_match
  taken_complete v [] [] all (g, e) = (v ∷ g, rw e)
  taken_complete v [] (c ∷ s) all (g, e) = elim (Bool-cases (t c)) [
    | inr miss ↦ (v ∷ g, rw (miss, e))
    | inl hit ↦ elim (Option-cases (regex_match s (taken t (v ++ c ∷ []) ∷ r))) [
      | inl fails ↦ (v ∷ g, rw (hit, fails, e))
      | inr (g', longer) ↦ (g', rw (hit, longer))
    ]
  ]
  taken_complete v (c ∷ w) s (hit, all) f =
      let (g, longer) = taken_complete (v ++ c ∷ []) w s all f in (g, rw (hit, longer))

-- One round of a star: it goes on if that leads to a match, and stops here if it does not.
module _ (t : ℕ → Bool) (r : List Item) (c : ℕ) (s : Str) where
  pub star-more :
      (g : List Str)
      → t c ≡ true
      → regex_match s (star t ∷ r) ≡ some g
      → regex_match (c ∷ s) (star t ∷ r) ≡ some g
  unfolding regex_match
  star-more g hit longer = rw (hit, longer)

  pub star-stop :
      regex_match s (star t ∷ r) ≡ none → regex_match (c ∷ s) (star t ∷ r) ≡ regex_match (c ∷ s) r
  unfolding regex_match
  star-stop fails = elim (Bool-cases (t c)) [ inl hit ↦ rw (hit, fails) | inr miss ↦ rw miss ]

pub complete : (r : List Item) (s : Str) (g : List Str) → Matches r s g → IsFound s r
unfolding regex_match
complete [] s g (e, _) = rw e ([], refl)
complete (lit k ∷ r) s g (s', e, m) = let (g', f) = complete r s' g m in rw e (g', ground arith)
complete (plus t ∷ r) s g (c, w, s', e, (hit, all), m) =
    let (g', f) = star_complete t r w s' all (complete r s' g m) in rw e (g', rw (hit, f))
complete (star t ∷ r) s g (w, s', e, all, m) = rw e (star_complete t r w s' all (complete r s' g m))
complete (group t ∷ r) s g (c, w, s', g', e, _, (hit, all), m) =
    let (g'', f) = taken_complete t r (c ∷ []) w s' all (complete r s' g' m) in
    rw e (g'', rw (hit, f))
complete (taken t v ∷ r) s g (w, s', g', e, _, all, m) =
    rw e (taken_complete t r v w s' all (complete r s' g' m))
