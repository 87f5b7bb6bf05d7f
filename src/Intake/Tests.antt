-- ===== src/Intake/Tests.antt =====
-- The theorems of the intake budget at concrete histories.
use ipfs_node.Base.Texts.{text, text_eq}
use ipfs_node.Base.Int.{pos}
use ipfs_node.Base.{◌+◌, ◌≤◌, ◌≡◌, refl, Option, none, some, List, [], ◌∷◌, arith}
use ipfs_node.Intake.{
  Budget, Reservation, per_peer_bytes, per_peer_requests, total_requests, reset_intake_budget,
  is_live, live, sum_bytes, sum_requests, bucket_start, charge_in, charged_id, charge, get_spend,
  set_spend, over_budget, admit, reserve_intake, settle, take_reservation, correct, has_spend,
  refuse,
}
use ipfs_node.Intake.History.{
  Event, reserves, settles, run, start, recent, recent_of, grants_within_hour,
}

abbrev first : Budget × Option Reservation
first = reserve_intake (text "a") 1000 700000 reset_intake_budget

abbrev first_reservation : Reservation
first_reservation = record { id = 2; peer_bucket = 0; total_bucket = 1; max_bytes = 1000 }

first_granted : first.1 ≡ some first_reservation
unfolding reserve_intake reset_intake_budget over_budget admit get_spend live is_live sum_bytes
    sum_requests charged_id
first_granted = refl

-- The unused part of the reservation comes back to both windows.
settles_down : sum_bytes (settle 2 (pos 300) first.0).total ≡ 300
unfolding reserve_intake reset_intake_budget over_budget admit get_spend live is_live sum_bytes
    sum_requests charged_id charge charge_in settle take_reservation correct bucket_start
settles_down = refl

too_large : (reserve_intake (text "b") (per_peer_bytes + 1) 800000 first.0).1 ≡ none
unfolding reserve_intake reset_intake_budget over_budget admit get_spend set_spend live is_live
    sum_bytes sum_requests charged_id charge charge_in text_eq bucket_start refuse has_spend
too_large = refl

abbrev history : List Event
history =
    reserves (text "a") 1000 700000 ∷ settles 2 (pos 300) ∷ reserves (text "b") 2000 900000 ∷ []

grants_within_hour_example :
    (recent 950000 (run history start).grants ≤ total_requests)
    × (recent_of (text "a") 950000 (run history start).grants ≤ per_peer_requests)
grants_within_hour_example =
    grants_within_hour history (text "a") 950000 (omega arith) (omega arith)
