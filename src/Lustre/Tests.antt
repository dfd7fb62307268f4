-- ===== src/Lustre/Tests.antt =====
-- Runs of the queries of Lustre.
use qos_planner.Common.{
  ◌≡◌, refl, List, [], ◌∷◌, ◌++◌, true, not, Option, some, ◌==◌, inl, inr, Str, str, arith,
}
use qos_planner.Lustre.{OstsResults}
use qos_planner.Lustre.Regex.{is_digit, is_name, is_alnum, regex_match}
use qos_planner.Lustre.Exec.{HasNoZero}
use qos_planner.Lustre.Lines.{newline, is_inline, All-all_of}
use qos_planner.Lustre.Parse.{all_of, stripe_regex}
use qos_planner.Lustre.Local.{get_osts_for_file, get_ost_list, get_ip_of_ost, shortened}
use qos_planner.Lustre.Listing.{ost_lines, ArePlain}
use qos_planner.Lustre.Stripe.{Stripe, is_cell}
use qos_planner.Lustre.Stripes.{OutputLine, object, other, output, last_digits, no_digit, AreProper}
use qos_planner.Lustre.AddressLine.{AddressLine, address_line, is_plain, IsAddress}
use qos_planner.Lustre.Queries.{
  run, get_osts_for_file-last_digits, get_ost_list-ost_lines, get_ip_of_ost-address_line,
}

HasNoZero-check : (s : Str) → all_of (λ c. not (c == 0)) s ≡ true → HasNoZero s
HasNoZero-check [] h = tt
HasNoZero-check (c ∷ s) h = (ground arith, HasNoZero-check s (ground arith))

match_third :
    regex_match (str "\t     3\t             2\t          0x2\t             0") stripe_regex
    ≡ some (str "3" ∷ [])
unfolding regex_match
match_third = refl

-- OST 12
abbrev twelfth : Stripe
twelfth = record {
  pad = str "    ";
  tens = str "1";
  last = b'2';
  objid = str "  7";
  hex = str "  0x7";
  seq = str "  0";
}

abbrev stripes : List OutputLine
stripes = other (str "/f") ∷ other (str "\tobdidx\t objid\t objid\t group") ∷ object twelfth ∷ []

abbrev popen_stripes : Str → Option Str
popen_stripes cmd = some (output stripes)

output-HasNoZero : HasNoZero (output stripes)
unfolding output
output-HasNoZero = HasNoZero-check (output stripes) refl

last_of_twelfth : last_digits stripes ≡ str "2" ∷ []
unfolding last_digits
last_of_twelfth = refl

stripes-AreProper : AreProper stripes
stripes-AreProper = (
  (All-all_of is_inline (str "/f") refl, inl refl),
  (
    (
      All-all_of is_inline (str "\tobdidx\t objid\t objid\t group") refl,
      inr (All-all_of no_digit (str "\tobdidx\t objid\t objid\t group") refl),
    ),
    (
      record {
        pad = All-all_of is_cell twelfth.pad refl;
        tens = All-all_of is_digit twelfth.tens refl;
        last = refl;
        objid = All-all_of is_cell twelfth.objid refl;
        hex = All-all_of is_cell twelfth.hex refl;
        seq = All-all_of is_cell twelfth.seq refl;
      },
      tt,
    ),
  ),
)

get_osts_for_file-last_digits_example :
    get_osts_for_file (run popen_stripes) (λ file. true) (str "/f") []
    ≡ some (◌++◌ {A = Str} [] (last_digits stripes))
get_osts_for_file-last_digits_example =
    get_osts_for_file-last_digits popen_stripes (λ file. true) (str "/f") [] stripes refl refl
      output-HasNoZero stripes-AreProper

abbrev two_osts : List OstsResults
two_osts =
    record { number = str "0"; uuid = str "l-OST0000_UUID"; status = str "ACTIVE" }
    ∷ record { number = str "12"; uuid = str "l-OST000c_UUID"; status = str "ACTIVE" }
    ∷ []

abbrev popen_osts : Str → Option Str
popen_osts cmd = some (str "OBDS::" ++ newline ∷ ost_lines two_osts)

osts_full : HasNoZero (str "OBDS::" ++ newline ∷ ost_lines two_osts)
unfolding ost_lines
osts_full = HasNoZero-check (str "OBDS::" ++ newline ∷ ost_lines two_osts) refl

two_osts-ArePlain : ArePlain two_osts
two_osts-ArePlain = (
  (
    All-all_of is_digit (str "0") refl,
    All-all_of is_name (str "l-OST0000_UUID") refl,
    All-all_of is_alnum (str "ACTIVE") refl,
  ),
  (
    (
      All-all_of is_digit (str "12") refl,
      All-all_of is_name (str "l-OST000c_UUID") refl,
      All-all_of is_alnum (str "ACTIVE") refl,
    ),
    tt,
  ),
)

get_ost_list-ost_lines_example :
    get_ost_list (run popen_osts) [] [] ≡ some (◌++◌ {A = OstsResults} [] two_osts)
get_ost_list-ost_lines_example =
    get_ost_list-ost_lines popen_osts [] (str "OBDS::") two_osts [] refl osts_full
      (All-all_of is_inline (str "OBDS::") refl) refl two_osts-ArePlain

abbrev osc : AddressLine
osc = record { front = str "osc."; middle = str "-osc-ffff88."; ip = str "192.168.122.241" }

abbrev popen_osc : Str → Option Str
popen_osc cmd = some (address_line (shortened (str "toto-OST0000_UUID")) osc ++ newline ∷ [])

osc_full : HasNoZero (address_line (shortened (str "toto-OST0000_UUID")) osc ++ newline ∷ [])
unfolding shortened
osc_full =
    HasNoZero-check (address_line (shortened (str "toto-OST0000_UUID")) osc ++ newline ∷ []) refl

osc-IsAddress : IsAddress osc
osc-IsAddress = record {
  front = All-all_of is_plain osc.front refl;
  middle = All-all_of is_plain osc.middle refl;
  ip = All-all_of is_plain osc.ip refl;
}

get_ip_of_ost-address_line_example :
    get_ip_of_ost (run popen_osc) (λ id. []) (str "toto-OST0000_UUID") [] ≡ some osc.ip
unfolding shortened
get_ip_of_ost-address_line_example =
    get_ip_of_ost-address_line popen_osc (λ id. []) (str "toto-OST0000_UUID") [] [] osc refl
      osc_full refl osc-IsAddress
