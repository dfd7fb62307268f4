-- ===== src/Lustre/Regex.antt =====
-- `std::regex_match`, with the parts of a pattern that src/common/Lustre.cpp uses: the greedy
-- backtracking matcher of ECMAScript on bytes, and the texts of the submatches that it reports.
use qos_planner.Common.{
  ℕ, List, [], ◌∷◌, ◌++◌, Bool, true, false, not, ◌||◌, ◌&&◌, Option, none, some, leb, ◌==◌,
  if◌then◌else◌, Str,
}

-- A class of bytes: `.`, `[0-9]`, `[[:alnum:]]` and `[_[:alnum:]-]`.
abbrev pub is_any : ℕ → Bool
is_any c = not (c == 10 || c == 13)

abbrev pub is_digit : ℕ → Bool
is_digit c = leb 48 c && leb c 57

abbrev pub is_alnum : ℕ → Bool
is_alnum c = is_digit c || leb 65 c && leb c 90 || leb 97 c && leb c 122

abbrev pub is_name : ℕ → Bool
is_name c = c == 95 || is_alnum c || c == 45

-- A byte, `t+`, `t*` and `(t+)`; `taken` is a group that has taken some bytes.
pub data Item : Type 0 where
  lit : ℕ → Item
  plus star group : (ℕ → Bool) → Item
  taken : (ℕ → Bool) → Str → Item

abbrev pub found : Str → Option (List Str) → Option (List Str)
found w none = none
found w (some groups) = some (w ∷ groups)

-- The submatches, if the whole text matches.
unfoldable pub regex_match : Str → List Item → Option (List Str)
regex_match [] [] = some []
regex_match (c ∷ s) [] = none
regex_match [] (lit k ∷ r) = none
regex_match (c ∷ s) (lit k ∷ r) = if c == k then regex_match s r else none
regex_match [] (plus t ∷ r) = none
regex_match (c ∷ s) (plus t ∷ r) = if t c then regex_match s (star t ∷ r) else none
regex_match [] (star t ∷ r) = regex_match [] r
regex_match (c ∷ s) (star t ∷ r) = elim (t c) [
  | false ↦ regex_match (c ∷ s) r
  | true ↦ elim (regex_match s (star t ∷ r)) [
    | some groups ↦ some groups
    | none ↦ regex_match (c ∷ s) r
  ]
]
regex_match [] (group t ∷ r) = none
regex_match (c ∷ s) (group t ∷ r) = if t c then regex_match s (taken t (c ∷ []) ∷ r) else none
regex_match [] (taken t w ∷ r) = found w (regex_match [] r)
regex_match (c ∷ s) (taken t w ∷ r) = elim (t c) [
  | false ↦ found w (regex_match (c ∷ s) r)
  | true ↦ elim (regex_match s (taken t (w ++ c ∷ []) ∷ r)) [
    | some groups ↦ some groups
    | none ↦ found w (regex_match (c ∷ s) r)
  ]
]
