-- ===== src/Lustre/AddressLine.antt =====
-- The line that "lctl get_param" prints for an OST, and what GetIPOfOst reads in it.
use mathlib.Core.List.{append_cancel_right}
use qos_planner.Common.{
  ℕ, ◌≡◌, refl, ap, ◌∙◌, List, [], ◌∷◌, ◌++◌, map, Bool, true, not, some, ◌==◌, ◌&&◌, Str, str,
  arith,
}
use qos_planner.Lustre.Regex.{Item, lit, is_any, is_name, regex_match}
use qos_planner.Lustre.Match.{All, Matches, sound, complete}
use qos_planner.Lustre.Lines.{
  newline, is_inline, get_lines-line, All-append, All-weaken, All-all_of,
}
use qos_planner.Lustre.Parse.{all_of, first_address, parse_ost_ip_from_get_param_osc}
use qos_planner.Lustre.Address.{
  equals, count_equals, count_equals-append, Behind, Behind-append, Behind-unique, lits_intro,
  from_address, plain_regex, Matches-Behind,
}

-- The line for an OST: what stands before and behind its id, and the address.
pub record AddressLine : Type 0 where
  pub front : Str
  pub middle : Str
  pub ip : Str

abbrev pub address_line : Str → AddressLine → Str
address_line id x = x.front ++ (id ++ (x.middle ++ (str "ost_conn_uuid=" ++ (x.ip ++ str "@tcp"))))

-- A text of at least one byte, without a "=".
abbrev pub is_plain : ℕ → Bool
is_plain c = is_any c && not (c == equals)

abbrev pub IsPlain : Str → Type 0
IsPlain [] = ⊥
IsPlain (c ∷ w) = All is_plain (c ∷ w)

pub record IsAddress (x : AddressLine) : Type 0 where
  pub front : IsPlain x.front
  pub middle : IsPlain x.middle
  pub ip : IsPlain x.ip

count_equals-plain : (w : Str) → All is_plain w → count_equals w ≡ 0
unfolding count_equals
count_equals-plain [] h = refl
count_equals-plain (c ∷ w) (here, h) = ground (arith, count_equals-plain w h)

plain_any : (w : Str) → All is_plain w → All is_any w
plain_any = All-weaken is_plain is_any λ c h. ground arith

plain_inline : (w : Str) → IsPlain w → All is_inline w
plain_inline [] h = absurd h
plain_inline (c ∷ w) h = All-weaken is_plain is_inline (λ c h. ground arith) (c ∷ w) h

IsPlain-count : (w : Str) → IsPlain w → count_equals w ≡ 0
IsPlain-count [] h = absurd h
IsPlain-count (c ∷ w) h = count_equals-plain (c ∷ w) h

name_plain : (id : Str) → All is_name id → All is_plain id
name_plain = All-weaken is_name is_plain λ c h. ground arith

Matches-address_line :
    (id front middle ip : Str)
    → IsPlain front
    → IsPlain middle
    → IsPlain ip
    → Matches
        (plain_regex id)
        (address_line id (record { front = front; middle = middle; ip = ip }))
        (ip ∷ [])
Matches-address_line id [] middle ip f m i = absurd f
Matches-address_line id (c ∷ w) [] ip f m i = absurd m
Matches-address_line id (c ∷ w) (d ∷ v) [] f m i = absurd i
Matches-address_line id (c ∷ w) (d ∷ v) (b ∷ p) f m i =
    let tail : Matches (map lit (str "@tcp")) (str "@tcp") [] =
      lits_intro (str "@tcp") [] [] [] (refl, refl) in
    let address =
      lits_intro (str "ost_conn_uuid=") from_address ((b ∷ p) ++ str "@tcp") ((b ∷ p) ∷ [])
        (b, p, str "@tcp", [], refl, refl, plain_any (b ∷ p) i, tail) in
    (
      c,
      w,
      _,
      refl,
      plain_any (c ∷ w) f,
      lits_intro id _ _ ((b ∷ p) ∷ []) (d, v, _, refl, plain_any (d ∷ v) m, address),
    )

module _ (id : Str) (x : AddressLine) (plain : all_of is_name id ≡ true) (h : IsAddress x) where
  abbrev L : Str
  L = address_line id x

  key_once : count_equals (str "ost_conn_uuid=" ++ (x.ip ++ str "@tcp")) ≡ 1
  unfolding count_equals
  key_once = omega (arith, count_equals-append x.ip (str "@tcp"), IsPlain-count x.ip h.ip)

  line_once : count_equals L ≡ 1
  line_once = omega (
    arith,
    count_equals-append x.front
        (id ++ (x.middle ++ (str "ost_conn_uuid=" ++ (x.ip ++ str "@tcp")))),
    count_equals-append id (x.middle ++ (str "ost_conn_uuid=" ++ (x.ip ++ str "@tcp"))),
    count_equals-append x.middle (str "ost_conn_uuid=" ++ (x.ip ++ str "@tcp")),
    IsPlain-count x.front h.front,
    IsPlain-count x.middle h.middle,
    count_equals-plain id (name_plain id (All-all_of is_name id plain)),
    key_once,
  )

  line_Behind : Behind L (x.ip ++ str "@tcp")
  line_Behind =
      Behind-append x.front _ L _ refl (
        Behind-append id _ _ _ refl (Behind-append x.middle _ _ _ refl (str "ost_conn_uuid", refl)))

  match-address_line : regex_match L (plain_regex id) ≡ some (x.ip ∷ [])
  match-address_line =
      let m = Matches-address_line id x.front x.middle x.ip h.front h.middle h.ip in
      let (g, e) = complete (plain_regex id) L (x.ip ∷ []) m in
      let (ip, one, own) = Matches-Behind id L g (sound L (plain_regex id) g e) in
      let same =
        append_cancel_right ip x.ip (str "@tcp")
          (Behind-unique L (ip ++ str "@tcp") (x.ip ++ str "@tcp") line_once own line_Behind) in
      e ∙ ap some (one ∙ ap (λ y. y ∷ []) same)

  line-inline : All is_inline L
  line-inline =
      let id_inline =
        All-weaken is_name is_inline (λ c h. ground arith) id (All-all_of is_name id plain) in
      let key =
        All-append is_inline (str "ost_conn_uuid=") _
          (All-all_of is_inline (str "ost_conn_uuid=") refl)
          (All-append is_inline x.ip _ (plain_inline x.ip h.ip)
            (All-all_of is_inline (str "@tcp") refl)) in
      All-append is_inline x.front _ (plain_inline x.front h.front) (
        All-append is_inline id _ id_inline
          (All-append is_inline x.middle _ (plain_inline x.middle h.middle) key))

  pub parse-address_line :
      (special : Str → List Item) (rest old : Str)
      → parse_ost_ip_from_get_param_osc special (L ++ newline ∷ rest) id old ≡ x.ip
  unfolding parse_ost_ip_from_get_param_osc
  parse-address_line special rest old =
      rw (get_lines-line L rest line-inline, plain, match-address_line, first_address)
