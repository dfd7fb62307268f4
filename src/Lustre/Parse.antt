-- ===== src/Lustre/Parse.antt =====
-- src/common/Lustre.cpp: the parsers of what the commands of Lustre print.
use qos_planner.Common.{
  ℕ, List, [], ◌∷◌, ◌++◌, map, Bool, true, some, ◌&&◌, ◌==◌, if◌then◌else◌, Str, str,
}
use qos_planner.Lustre.{OstsResults}
use qos_planner.Lustre.Regex.{
  Item, lit, plus, star, group, is_any, is_digit, is_alnum, is_name, regex_match,
}

abbrev first_line : ℕ → List Str → List Str
first_line c [] = (c ∷ []) ∷ []
first_line c (l ∷ ls) = (c ∷ l) ∷ ls

-- What `std::getline` returns of a stream, one call after the other.
unfoldable pub get_lines : Str → List Str
get_lines [] = []
get_lines (c ∷ s) = if c == 10 then [] ∷ get_lines s else first_line c (get_lines s)

-- "\t.+([0-9]+)\t.+\t.+\t.*"
abbrev pub stripe_regex : List Item
stripe_regex =
    lit 9
    ∷ plus is_any
    ∷ group is_digit
    ∷ lit 9
    ∷ plus is_any
    ∷ lit 9
    ∷ plus is_any
    ∷ lit 9
    ∷ star is_any
    ∷ []

-- The loop of `ParseOstsFromGetStripe`.
unfoldable pub stripe_osts : List Str → List Str → List Str
stripe_osts [] osts = osts
stripe_osts (line ∷ lines) osts = elim (regex_match line stripe_regex) [
  | some (ost ∷ []) ↦ stripe_osts lines (osts ++ ost ∷ [])
  | _ ↦ stripe_osts lines osts
]

-- `ParseOstsFromGetStripe`
unfoldable pub parse_osts_from_get_stripe : Str → List Str → List Str
unfolding get_lines stripe_osts regex_match
parse_osts_from_get_stripe lfs_out osts = stripe_osts (get_lines lfs_out) osts

-- "([0-9]+): ([_[:alnum:]-]+) ([[:alnum:]]+)"
abbrev pub osts_regex : List Item
osts_regex = group is_digit ∷ lit b':' ∷ lit b' ' ∷ group is_name ∷ lit b' ' ∷ group is_alnum ∷ []

-- The loop of `ParseOstsFromLfsOsts`.
unfoldable pub listed_osts : List Str → List OstsResults → List OstsResults
listed_osts [] out = out
listed_osts (line ∷ lines) out = elim (regex_match line osts_regex) [
  | some (number ∷ uuid ∷ status ∷ []) ↦
      listed_osts lines (out ++ record { number = number; uuid = uuid; status = status } ∷ [])
  | _ ↦ listed_osts lines out
]

-- `ParseOstsFromLfsOsts`
unfoldable pub parse_osts_from_lfs_osts : Str → List OstsResults → List OstsResults
unfolding get_lines listed_osts regex_match
parse_osts_from_lfs_osts lfs_out out = listed_osts (get_lines lfs_out) out

abbrev pub all_of : (ℕ → Bool) → Str → Bool
all_of t [] = true
all_of t (c ∷ s) = t c && all_of t s

-- ".+" + ost_id + ".+ost_conn_uuid=(.+)@tcp$". The id is a part of the pattern: `special` is what it
-- means there if it holds bytes other than letters, digits, `_` and `-`.
abbrev pub address_regex : (Str → List Item) → Str → List Item
address_regex special ost_id =
    let id_regex = if all_of is_name ost_id then map lit ost_id else special ost_id in
    let address = group is_any ∷ map lit (str "@tcp") in
    plus is_any ∷ (id_regex ++ (plus is_any ∷ (map lit (str "ost_conn_uuid=") ++ address)))

-- The loop of `ParseOstIpFromGetParamOsc`.
unfoldable pub first_address : List Item → List Str → Str → Str
first_address r [] ip_address = ip_address
first_address r (line ∷ lines) ip_address = elim (regex_match line r) [
  | some (ip ∷ []) ↦ ip
  | _ ↦ first_address r lines ip_address
]

-- `ParseOstIpFromGetParamOsc`
unfoldable pub parse_ost_ip_from_get_param_osc : (Str → List Item) → Str → Str → Str → Str
unfolding get_lines first_address regex_match
parse_ost_ip_from_get_param_osc special to_parse ost_id ip_address =
    first_address (address_regex special ost_id) (get_lines to_parse) ip_address
