-- ===== src/Rules/Cache.antt =====
-- src/common/OstIdsConverter.cpp and OstIpsCache.cpp: from the number of an OST to its uuid, and
-- from there to the address of its machine. Each call holds the cache's mutex throughout.
use qos_planner.Common.{
  ◌≡◌, ◌≢◌, List, [], ◌∷◌, Option, none, some, Str, arith, Option-cases, inl, inr,
}
use qos_planner.Common.Map.{find, assign, find-assign}
use qos_planner.Lustre.{Lustre, OstsResults}

-- `id_to_uuid_`
abbrev pub Ids : Type 0
Ids = List (Str × Str)

-- `uuid_to_ip_cache_`
abbrev pub Ips : Type 0
Ips = List (Str × Str)

-- The loop of `UpdateCache`.
unfoldable pub ids_of : List OstsResults → Ids → Ids
ids_of [] ids = ids
ids_of (r ∷ rs) ids = ids_of rs (assign r.number r.uuid ids)

-- `UpdateCache`
unfoldable pub update_cache : Lustre → Ids → Ids
unfolding ids_of
update_cache lustre ids = elim (lustre.get_ost_list []) [ none ↦ ids | some rs ↦ ids_of rs [] ]

abbrev or_empty : Option Str → Str
or_empty none = []
or_empty (some s) = s

-- `ToUUID`
unfoldable pub to_uuid : Lustre → Ids → Str → Ids × Str
unfolding update_cache
to_uuid lustre ids id = elim (find id ids) [
  | some uuid ↦ (ids, uuid)
  | none ↦ (update_cache lustre ids, or_empty (find id (update_cache lustre ids)))
]

-- `GetIp`
unfoldable pub get_ip : Lustre → Ips → Str → Ips × Str
get_ip lustre ips uuid = elim (find uuid ips) [
  | some ip ↦ (ips, ip)
  | none ↦ elim (lustre.get_ip_of_ost uuid) [
    | none ↦ (ips, [])
    | some ip ↦ (assign uuid ip ips, ip)
  ]
]

-- For a uuid that is not cached, whatever GetIp takes from a successful query is its answer to
-- every later call for that uuid, whatever Lustre says by then.
pub get_ip_cached :
    (now later : Lustre) (ips : Ips) (uuid ip : Str)
    → find uuid ips ≡ none
    → now.get_ip_of_ost uuid ≡ some ip
    → get_ip later (get_ip now ips uuid).0 uuid ≡ ((get_ip now ips uuid).0, ip)
unfolding get_ip
get_ip_cached now later ips uuid ip missing answer = ground (arith, find-assign uuid uuid ip ips)

-- ToUUID answers from the map it leaves behind, and a known number needs no query.
pub to_uuid-find :
    (lustre : Lustre) (ids : Ids) (id : Str)
    → ((to_uuid lustre ids id).1 ≡ or_empty (find id (to_uuid lustre ids id).0))
      × ((find id ids ≢ none) → (to_uuid lustre ids id).0 ≡ ids)
unfolding to_uuid
to_uuid-find lustre ids id = elim (Option-cases (find id ids)) [
  | inl e ↦ ground arith
  | inr (uuid, e) ↦ ground arith
]
