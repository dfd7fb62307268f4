-- ===== src/Lustre/Address.antt =====
-- The output of "lctl get_param" for the address of an OST, and what ParseOstIpFromGetParamOsc reads in
-- it.
use mathlib.Core.List.{append_assoc}
use qos_planner.Common.{
  ℕ, suc, ◌+◌, ◌≡◌, refl, sym, ap, ◌∙◌, List, [], ◌∷◌, ◌++◌, map, ◌==◌, Str, str, arith,
  if◌then◌else◌,
}
use qos_planner.Lustre.Regex.{Item, lit, plus, group, is_any}
use qos_planner.Lustre.Match.{Matches}

abbrev pub equals : ℕ
equals = b'='

-- How many times "=" stands in a text.
unfoldable pub count_equals : Str → ℕ
count_equals [] = 0
count_equals (c ∷ s) = if c == equals then suc (count_equals s) else count_equals s

pub count_equals-append : (v w : Str) → count_equals (v ++ w) ≡ count_equals v + count_equals w
unfolding count_equals
count_equals-append [] w = omega arith
count_equals-append (c ∷ v) w = ground (arith, count_equals-append v w)

-- The only "=" of a text splits it in one way.
split_unique :
    (a b v w : Str)
    → a ++ (equals ∷ v) ≡ b ++ (equals ∷ w)
    → count_equals a ≡ 0
    → count_equals b ≡ 0
    → v ≡ w
unfolding count_equals
split_unique [] [] v w e ha hb = cc
split_unique [] (d ∷ b) v w e ha hb = ground arith
split_unique (c ∷ a) [] v w e ha hb = ground arith
split_unique (c ∷ a) (d ∷ b) v w e ha hb =
    split_unique a b v w (cc) (ground arith) (ground (arith, let same : c ≡ d = cc in same))

-- The text behind a "=" of another.
abbrev pub Behind : Str → Str → Type 0
Behind s v = (a : Str) × (s ≡ a ++ (equals ∷ v))

pub Behind-append : (x s s' v : Str) → s' ≡ x ++ s → Behind s v → Behind s' v
Behind-append x s s' v e (a, split) =
    (x ++ a, e ∙ ap (◌++◌ x) split ∙ sym (append_assoc x a (equals ∷ v)))

pub Behind-unique : (s v w : Str) → count_equals s ≡ 1 → Behind s v → Behind s w → v ≡ w
Behind-unique s v w once (a, e) (b, f) =
    split_unique a b v w (sym e ∙ f) (alone a v e) (alone b w f)
  where
    here : (v : Str) → count_equals (equals ∷ v) ≡ suc (count_equals v)
    here v = unfold count_equals in refl

    alone : (a v : Str) → s ≡ a ++ (equals ∷ v) → count_equals a ≡ 0
    alone a v e = omega (arith, ap count_equals e, count_equals-append a (equals ∷ v), here v, once)

lits_inv :
    (k : Str) (r : List Item) (s : Str) (g : List Str)
    → Matches (map lit k ++ r) s g
    → (s' : Str) × (s ≡ k ++ s') × Matches r s' g
lits_inv [] r s g m = (s, refl, m)
lits_inv (c ∷ k) r s g (s1, e, m) =
    let (s', f, rest) = lits_inv k r s1 g m in (s', e ∙ ap (◌∷◌ c) f, rest)

pub lits_intro :
    (k : Str) (r : List Item) (s : Str) (g : List Str)
    → Matches r s g
    → Matches (map lit k ++ r) (k ++ s) g
lits_intro [] r s g m = m
lits_intro (c ∷ k) r s g m = (k ++ s, refl, lits_intro k r s g m)

-- The parts of the pattern for a plain id.
abbrev pub from_address : List Item
from_address = group is_any ∷ map lit (str "@tcp")

abbrev pub from_key : List Item
from_key = map lit (str "ost_conn_uuid=") ++ from_address

abbrev pub from_id : Str → List Item
from_id id = map lit id ++ (plus is_any ∷ from_key)

abbrev pub plain_regex : Str → List Item
plain_regex id = plus is_any ∷ from_id id

-- Every match reads an address behind a "=".
pub Matches-Behind :
    (id s : Str) (g : List Str)
    → Matches (plain_regex id) s g
    → (ip : Str) × (g ≡ ip ∷ []) × Behind s (ip ++ str "@tcp")
Matches-Behind id s g (c, w, s1, e1, _, m1) =
    let (s2, e2, (d, v, s3, e3, _, m3)) = lits_inv id (plus is_any ∷ from_key) s1 g m1 in
    let (s4, e4, (i, p, s5, g', e5, groups, _, m5)) =
      lits_inv (str "ost_conn_uuid=") from_address s3 g m3 in
    let (s6, e6, (e7, no_more)) = lits_inv (str "@tcp") [] s5 g' m5 in
    let address : s4 ≡ (i ∷ p) ++ str "@tcp" =
      e5 ∙ ap (λ x. i ∷ (p ++ x)) (e6 ∙ ap (◌++◌ (str "@tcp")) e7) in
    let key : Behind s3 ((i ∷ p) ++ str "@tcp") =
      (str "ost_conn_uuid", e4 ∙ ap (◌++◌ (str "ost_conn_uuid=")) address) in
    let own = Behind-append (d ∷ v) s3 s2 _ e3 key in
    (
      i ∷ p,
      groups ∙ ap (◌∷◌ (i ∷ p)) no_more,
      Behind-append (c ∷ w) s1 s _ e1 (Behind-append id s2 s1 _ e2 own),
    )
