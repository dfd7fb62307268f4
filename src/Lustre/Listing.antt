-- ===== src/Lustre/Listing.antt =====
-- The output of "lfs osts", and what ParseOstsFromLfsOsts reads in it.
use mathlib.Core.List.{append-nil, append_assoc}
use qos_planner.Common.{
  ℕ, ◌≡◌, refl, sym, ap, ◌∙◌, List, [], ◌∷◌, ◌++◌, Bool, true, false, Str, none, some, arith,
}
use qos_planner.Lustre.{OstsResults}
use qos_planner.Lustre.Regex.{Item, taken, group, is_digit, is_alnum, is_name, regex_match}
use qos_planner.Lustre.Match.{All}
use qos_planner.Lustre.Lines.{newline, is_inline, get_lines-line, All-append, All-weaken}
use qos_planner.Lustre.Parse.{get_lines, osts_regex, listed_osts, parse_osts_from_lfs_osts}

-- A class ends here.
abbrev pub Stops : (ℕ → Bool) → Str → Type 0
Stops t [] = Unit {0}
Stops t (k ∷ s) = t k ≡ false

-- A group takes all that its class covers, if the rest matches then.
taken-run :
    (t : ℕ → Bool) (r : List Item) (v w s : Str) (g : List Str)
    → All t w
    → Stops t s
    → regex_match s r ≡ some g
    → regex_match (w ++ s) (taken t v ∷ r) ≡ some ((v ++ w) ∷ g)
unfolding regex_match
taken-run t r v [] [] g all end m = rw (m, append-nil v)
taken-run t r v [] (k ∷ s) g all end m = rw (end, m, append-nil v)
taken-run t r v (c ∷ w) s g (hit, all) end m =
    rw (hit, taken-run t r (v ++ c ∷ []) w s g all end m, append_assoc v (c ∷ []) w)

-- A field has a byte, and the class covers it.
abbrev pub IsField : (ℕ → Bool) → Str → Type 0
IsField t [] = ⊥
IsField t (c ∷ w) = All t (c ∷ w)

group-run :
    (t : ℕ → Bool) (r : List Item) (w s : Str) (g : List Str)
    → IsField t w
    → Stops t s
    → regex_match s r ≡ some g
    → regex_match (w ++ s) (group t ∷ r) ≡ some (w ∷ g)
unfolding regex_match
group-run t r [] s g h end m = absurd h
group-run t r (c ∷ w) s g (hit, all) end m = rw (hit, taken-run t r (c ∷ []) w s g all end m)

abbrev pub ost_line : OstsResults → Str
ost_line o = o.number ++ (b':' ∷ b' ' ∷ (o.uuid ++ (b' ' ∷ o.status)))

unfoldable pub ost_lines : List OstsResults → Str
ost_lines [] = []
ost_lines (o ∷ osts) = ost_line o ++ newline ∷ ost_lines osts

abbrev pub IsPlain : OstsResults → Type 0
IsPlain o = IsField is_digit o.number × IsField is_name o.uuid × IsField is_alnum o.status

abbrev pub ArePlain : List OstsResults → Type 0
ArePlain [] = Unit {0}
ArePlain (o ∷ osts) = IsPlain o × ArePlain osts

match-ost_line :
    (o : OstsResults)
    → IsPlain o
    → regex_match (ost_line o) osts_regex ≡ some (o.number ∷ o.uuid ∷ o.status ∷ [])
unfolding regex_match
match-ost_line o (n, u, s) = group-run is_digit _ o.number _ (o.uuid ∷ o.status ∷ []) n refl (
    group-run is_name _ o.uuid (b' ' ∷ o.status) (o.status ∷ []) u refl (
      ap (λ w. regex_match w (group is_alnum ∷ [])) (sym (append-nil o.status))
      ∙ group-run is_alnum [] o.status [] [] s tt refl))

IsField-inline :
    (t : ℕ → Bool)
    → ((c : ℕ) → t c ≡ true → is_inline c ≡ true)
    → (w : Str) → IsField t w
    → All is_inline w
IsField-inline t k [] h = absurd h
IsField-inline t k (c ∷ w) h = All-weaken t is_inline k (c ∷ w) h

ost_line-inline : (o : OstsResults) → IsPlain o → All is_inline (ost_line o)
ost_line-inline o (n, u, s) =
    let status = IsField-inline is_alnum (λ c h. ground arith) o.status s in
    let uuid = IsField-inline is_name (λ c h. ground arith) o.uuid u in
    let number = IsField-inline is_digit (λ c h. ground arith) o.number n in
    All-append is_inline o.number _ number
      (refl, (refl, All-append is_inline o.uuid _ uuid (refl, status)))

listed_osts-ost_lines :
    (osts out : List OstsResults)
    → ArePlain osts
    → listed_osts (get_lines (ost_lines osts)) out ≡ out ++ osts
unfolding ost_lines listed_osts get_lines
listed_osts-ost_lines [] out h = sym (append-nil out)
listed_osts-ost_lines (o ∷ osts) out (h, hs) =
    rw
      (
        get_lines-line (ost_line o) (ost_lines osts) (ost_line-inline o h),
        match-ost_line o h,
        listed_osts,
      )
      (listed_osts-ost_lines osts (out ++ o ∷ []) hs ∙ append_assoc out (o ∷ []) osts)

match-title : (title : Str) → Stops is_digit title → regex_match title osts_regex ≡ none
unfolding regex_match
match-title [] h = refl
match-title (c ∷ title) h = rw h

-- The parser appends the OSTs that stand below the title.
pub parse_osts_from_lfs_osts-ost_lines :
    (title : Str) (osts out : List OstsResults)
    → All is_inline title
    → Stops is_digit title
    → ArePlain osts
    → parse_osts_from_lfs_osts (title ++ newline ∷ ost_lines osts) out ≡ out ++ osts
unfolding parse_osts_from_lfs_osts
parse_osts_from_lfs_osts-ost_lines title osts out inline other h =
    rw (get_lines-line title (ost_lines osts) inline, match-title title other, listed_osts)
      (listed_osts-ost_lines osts out h)
