-- ===== src/Lustre.antt =====
-- src/common/Lustre.h: what the planner asks of Lustre, as the answers of one moment. An answer is
-- `none` where the call returns false.
pub mod Regex
pub mod Match
pub mod Exec
pub mod Parse
pub mod Local
pub mod Lines
pub mod Listing
pub mod Stripe
pub mod Stripes
pub mod Address
pub mod AddressLine
pub mod Queries
mod Tests
use qos_planner.Common.{List, Option, Str}

-- `getOstsResults`
pub record OstsResults : Type 0 where
  pub number : Str
  pub uuid : Str
  pub status : Str

-- `Lustre`, its queries.
pub record Lustre : Type 0 where
  pub get_ost_list : Str → Option (List OstsResults)
  pub get_ip_of_ost : Str → Option Str
  pub get_osts_for_file : Str → Option (List Str)
