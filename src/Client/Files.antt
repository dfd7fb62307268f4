-- ===== src/Client/Files.antt =====
-- File names on their way from a file of storage requirements to a request.
use mathlib.Core.List.{append-nil, append_assoc}
use qos_planner.Common.{◌≡◌, refl, sym, ap, ◌∙◌, List, [], ◌∷◌, ◌++◌, true, false, ◌==◌, Str, arith}
use qos_planner.Rules.{is_empty}
use qos_planner.Client.{comma, has_comma, fields, add_filenames, join}

-- Every name has a byte, and none has a comma.
abbrev pub ArePlain : List Str → Type 0
ArePlain [] = Unit {0}
ArePlain (x ∷ xs) = (is_empty x ≡ false) × (has_comma x ≡ false) × ArePlain xs

fields-plain : (acc x s : Str) → has_comma x ≡ false → fields acc (x ++ s) ≡ fields (acc ++ x) s
unfolding fields has_comma
fields-plain acc [] s h = ap (λ a. fields a s) (sym (append-nil acc))
fields-plain acc (c ∷ x) s h =
    let other : (c == comma) ≡ false = ground arith in
    let rest : has_comma x ≡ false = ground arith in
    rw (other, fields)
      (fields-plain (acc ++ c ∷ []) x s rest ∙ ap (λ a. fields a s) (append_assoc acc (c ∷ []) x))

fields-join : (x : Str) (xs : List Str) → ArePlain (x ∷ xs) → fields [] (join (x ∷ xs)) ≡ x ∷ xs
unfolding fields join
fields-join x [] (full, plain, _) =
    let last : fields x [] ≡ x ∷ [] = rw full in
    ap (fields []) (sym (append-nil x)) ∙ fields-plain [] x [] plain ∙ last
fields-join x (y ∷ ys) (full, plain, rest) =
    fields-plain [] x (comma ∷ join (y ∷ ys)) plain ∙ ap (◌∷◌ x) (fields-join y ys rest)

has_comma-append : (x s : Str) → has_comma (x ++ comma ∷ s) ≡ true
unfolding has_comma
has_comma-append [] s = refl
has_comma-append (c ∷ x) s = ground (arith, has_comma-append x s)

pub is_empty-append : (x s : Str) → is_empty x ≡ false → is_empty (x ++ s) ≡ false
is_empty-append [] s h = cc
is_empty-append (c ∷ x) s h = refl

-- The names of a file of storage requirements, if they have a byte and no comma each, come out of
-- the request as they went in: what ParseContent joins, addFilenames takes apart again.
pub add_filenames-join : (names : List Str) → ArePlain names → add_filenames (join names) ≡ names
unfolding add_filenames join
add_filenames-join [] plain = refl
add_filenames-join (x ∷ []) (full, plain, _) = rw (full, plain)
add_filenames-join (x ∷ y ∷ ys) (full, plain, rest) =
    rw (is_empty-append x (comma ∷ join (y ∷ ys)) full, has_comma-append x (join (y ∷ ys)))
      (fields-join x (y ∷ ys) (full, plain, rest))
