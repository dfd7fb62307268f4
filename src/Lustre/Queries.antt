-- ===== src/Lustre/Queries.antt =====
-- The queries of LocalLustre from the command to the answer, with `exec` on what `popen` gives.
use qos_planner.Common.{
  ◌≡◌, refl, ap, List, [], ◌∷◌, ◌++◌, Bool, true, Option, some, ◌>>=◌, Str, str,
}
use qos_planner.Retry.{c_str}
use qos_planner.Lustre.{OstsResults}
use qos_planner.Lustre.Regex.{Item, is_digit, is_name}
use qos_planner.Lustre.Match.{All}
use qos_planner.Lustre.Lines.{newline, is_inline}
use qos_planner.Lustre.Exec.{exec, HasNoZero, exec_correct}
use qos_planner.Lustre.Parse.{all_of}
use qos_planner.Lustre.Local.{shortened, get_osts_for_file, get_ost_list, get_ip_of_ost}
use qos_planner.Lustre.Listing.{Stops, ost_lines, ArePlain, parse_osts_from_lfs_osts-ost_lines}
use qos_planner.Lustre.Stripes.{
  OutputLine, AreProper, output, last_digits, parse_osts_from_get_stripe-last_digits,
}
use qos_planner.Lustre.AddressLine.{AddressLine, IsAddress, address_line, parse-address_line}

c_str-HasNoZero : (s : Str) → HasNoZero s → c_str s ≡ s
unfolding c_str
c_str-HasNoZero [] h = refl
c_str-HasNoZero (c ∷ s) (full, h) = rw full (ap (◌∷◌ c) (c_str-HasNoZero s h))

-- `exec` with the empty output that each of the queries hands it.
abbrev pub run : (Str → Option Str) → Str → Option Str
run popen cmd = exec popen cmd []

-- For a file that is there, and an output of "lfs getstripe" without zero bytes, made of lines of
-- objects and of other lines that have no tab at their start or no digit, GetOstsForFile succeeds
-- and appends, for each object, the last digit of the index of its OST, and not its other digits.
pub get_osts_for_file-last_digits :
    (popen : Str → Option Str) (stat : Str → Bool) (file : Str) (osts : List Str)
    → (ls : List OutputLine) → stat file ≡ true
    → popen (str "lfs getstripe " ++ file) ≡ some (output ls)
    → HasNoZero (output ls)
    → AreProper ls
    → get_osts_for_file (run popen) stat file osts ≡ some (osts ++ last_digits ls)
unfolding get_osts_for_file
get_osts_for_file-last_digits popen stat file osts ls there e full h =
    let read = exec_correct popen (str "lfs getstripe " ++ file) [] (output ls) e full in
    rw (there, read, ◌>>=◌, c_str-HasNoZero (output ls) full)
      (ap some (parse_osts_from_get_stripe-last_digits ls osts h))

-- The OSTs that "lfs osts" prints below a title without a digit at its start, with digits for the
-- number, letters, digits, - and _ in the uuid, and letters and digits in the status, none of them
-- empty, are appended by GetOstList as they were printed, if no byte is zero.
pub get_ost_list-ost_lines :
    (popen : Str → Option Str) (path title : Str) (osts out : List OstsResults)
    → popen (str "lfs osts " ++ path) ≡ some (title ++ newline ∷ ost_lines osts)
    → HasNoZero (title ++ newline ∷ ost_lines osts)
    → All is_inline title
    → Stops is_digit title
    → ArePlain osts
    → get_ost_list (run popen) path out ≡ some (out ++ osts)
unfolding get_ost_list
get_ost_list-ost_lines popen path title osts out e full inline other h =
    let read = exec_correct popen (str "lfs osts " ++ path) [] _ e full in
    rw (read, ◌>>=◌) (ap some (parse_osts_from_lfs_osts-ost_lines title osts out inline other h))

-- If the first line of the output of lctl names the connection of an OST, with the id (letters,
-- digits, - and _) between two texts and the address at its end, and with no other = in it,
-- GetIPOfOst succeeds with that address, if no byte is zero, whatever lines follow.
pub get_ip_of_ost-address_line :
    (popen : Str → Option Str) (special : Str → List Item) (uuid rest old : Str) (x : AddressLine)
    → popen (str "lctl get_param osc." ++ shortened uuid ++ str "*.ost_conn_uuid")
      ≡ some (address_line (shortened uuid) x ++ newline ∷ rest)
    → HasNoZero (address_line (shortened uuid) x ++ newline ∷ rest)
    → all_of is_name (shortened uuid) ≡ true
    → IsAddress x
    → get_ip_of_ost (run popen) special uuid old ≡ some x.ip
unfolding get_ip_of_ost
get_ip_of_ost-address_line popen special uuid rest old x e full plain h =
    let read = exec_correct popen _ [] _ e full in
    rw (read, ◌>>=◌) (ap some (parse-address_line (shortened uuid) x plain h special rest old))
