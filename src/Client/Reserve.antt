-- ===== src/Client/Reserve.antt =====
-- When a reservation is sent, and what it says.
use qos_planner.Common.{
  ℕ, zero, suc, ◌≡◌, ◌≢◌, ◌⊎◌, refl, List, [], ◌∷◌, Bool, true, false, Option, none, some, Str,
  arith, inl, inr,
}
use qos_planner.Rules.{is_empty}
use qos_planner.Message.{ℤ, pos, negsuc, Request, reserve}
use qos_planner.Retry.{SocketCall, c_str}
use qos_planner.Retry.Attempts.{messages, Attempts, send_and_receive-Attempts}
use qos_planner.Client.{
  add_filenames, build_reserve_request, is_input_valid, reserve_resources, send_request,
}

-- The request of a reservation.
abbrev pub reservation : Str → Str → ℤ → ℕ → Request
reservation id filenames throughput seconds = record {
  request_type = reserve;
  resource_request = record {
    id = id;
    throughput_mb = throughput;
    duration_sec = pos seconds;
    files = add_filenames filenames;
  };
  delete_ids = [];
  regex = [];
}

-- What happens to a reservation: nothing is sent, and it fails, without file names or without a
-- positive duration; otherwise its request is sent until a poll finds a reply, and it succeeds exactly
-- if one of three polls does, whatever the reply says.
abbrev pub Reserved :
    (Request → Str) → (ℕ → Option Str) → Str → Str → ℤ → ℤ → Bool × List SocketCall → Type 0
Reserved encode polls id filenames throughput duration (done, calls) =
    ((done ≡ false)
      × (calls ≡ [])
      × ((filenames ≡ []) ⊎ ((seconds : ℕ) → duration ≢ pos (suc seconds))))
    ⊎ (seconds : ℕ) × (duration ≡ pos (suc seconds))
      × (is_empty filenames ≡ false)
      × ((reply : Option Str) × (repeated : List Str) × let text =
              encode (reservation id filenames throughput (suc seconds)) in
            (messages calls ≡ text ∷ repeated)
            × Attempts 3 polls (c_str text) repeated reply
            × (done ≡ elim reply [ none ↦ false | some r ↦ true ]))

-- TryReserveResources without a file of storage requirements sends nothing, and fails, without file
-- names or without a positive duration; otherwise it sends the request that these make until one of
-- three polls finds a reply, and succeeds exactly if one does, whatever the reply says.
pub reserve_resources-Reserved :
    (encode : Request → Str) (polls : ℕ → Option Str) (id filenames : Str) (throughput duration : ℤ)
    → Reserved encode polls id filenames throughput duration
        (reserve_resources encode polls id filenames throughput duration)
unfolding reserve_resources is_input_valid build_reserve_request send_request
reserve_resources-Reserved encode polls id filenames throughput (negsuc n) =
    inl (refl, refl, inr λ s e. cc)
reserve_resources-Reserved encode polls id [] throughput (pos n) = inl (refl, refl, inl refl)
reserve_resources-Reserved encode polls id (c ∷ s) throughput (pos zero) =
    inl (refl, refl, inr λ s e. ground arith)
reserve_resources-Reserved encode polls id (c ∷ s) throughput (pos (suc n)) =
    let text = encode (reservation id (c ∷ s) throughput (suc n)) in
    let (repeated, sent, attempts) = send_and_receive-Attempts 2 polls text in
    inr (n, refl, refl, (_, repeated, (sent, attempts, refl)))
