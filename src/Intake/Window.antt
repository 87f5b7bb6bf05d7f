-- ===== src/Intake/Window.antt =====
-- About the rolling window of one spender (src/storage/intakeBudget.ts): pruning, charging and totals.
use ipfs_node.Base.{
  ℕ, ◌+◌, ◌≤◌, ◌<◌, ◌≡◌, refl, inl, inr, false, [], ◌∷◌, arith, Bool-cases, ltb, if◌then◌else◌,
  length,
}
use ipfs_node.Intake.{
  Spend, window_ms, bucket_ms, is_live, live, sum_bytes, sum_requests, bucket_start, charge_in,
  charge, spent, correct,
}

-- Pruning at one time and then at a later one is pruning at the later one.
pub live-live : (t u : ℕ) (s : Spend) → t ≤ u → live u (live t s) ≡ live u s
unfolding live
live-live t u [] h = refl
live-live t u (b ∷ bs) h = elim (Bool-cases (is_live t b)) [
  | inl e ↦ rw e (ground (arith, live-live t u bs h))
  | inr e ↦ rw e (ground (arith, live-live t u bs h))
]

-- What is charged to the bucket that starts at `start` counts until that bucket is an hour past its end.
abbrev pub counts_at : ℕ → ℕ → ℕ → ℕ
counts_at now start n = if ltb now (start + bucket_ms + window_ms) then n else 0

pub requests-charge_in :
    (u fresh start bytes requests : ℕ) (s : Spend)
    → sum_requests (live u (charge_in fresh start bytes requests s))
      ≡ sum_requests (live u s) + counts_at u start requests
unfolding live sum_requests charge_in
requests-charge_in u fresh start bytes requests [] = ground arith
requests-charge_in u fresh start bytes requests (b ∷ bs) =
    ground (arith, requests-charge_in u fresh start bytes requests bs)

pub bytes-charge_in :
    (u fresh start bytes requests : ℕ) (s : Spend)
    → sum_bytes (live u (charge_in fresh start bytes requests s))
      ≡ sum_bytes (live u s) + counts_at u start bytes
unfolding live sum_bytes charge_in
bytes-charge_in u fresh start bytes requests [] = ground arith
bytes-charge_in u fresh start bytes requests (b ∷ bs) =
    ground (arith, bytes-charge_in u fresh start bytes requests bs)

pub bucket_start_bounds : (t : ℕ) → (bucket_start t ≤ t) × (t < bucket_start t + bucket_ms)
unfolding bucket_start
bucket_start_bounds t = omega arith

pub requests-charge :
    (u fresh now bytes requests : ℕ) (s : Spend)
    → now ≤ u
    → sum_requests (live u (charge fresh now bytes requests s))
      ≡ sum_requests (live u s) + counts_at u (bucket_start now) requests
unfolding charge
requests-charge u fresh now bytes requests s h =
    rw (
      requests-charge_in u fresh (bucket_start now) bytes requests (live now s),
      live-live now u s h,
    )

pub bytes-charge :
    (u fresh now bytes requests : ℕ) (s : Spend)
    → now ≤ u
    → sum_bytes (live u (charge fresh now bytes requests s))
      ≡ sum_bytes (live u s) + counts_at u (bucket_start now) bytes
unfolding charge
bytes-charge u fresh now bytes requests s h =
    rw (bytes-charge_in u fresh (bucket_start now) bytes requests (live now s), live-live now u s h)

-- A charge counts in full for an hour, and no longer than an hour and the length of a bucket.
pub charge_counts :
    (u fresh now bytes requests : ℕ) (s : Spend)
    → now ≤ u
    → (u ≤ now + window_ms
        → (sum_requests (live u (charge fresh now bytes requests s))
            ≡ sum_requests (live u s) + requests)
          × (sum_bytes (live u (charge fresh now bytes requests s)) ≡ sum_bytes (live u s) + bytes))
      × (now + window_ms + bucket_ms ≤ u
          → (sum_requests (live u (charge fresh now bytes requests s)) ≡ sum_requests (live u s))
            × (sum_bytes (live u (charge fresh now bytes requests s)) ≡ sum_bytes (live u s)))
charge_counts u fresh now bytes requests s h =
    let r = requests-charge u fresh now bytes requests s h in
    let b = bytes-charge u fresh now bytes requests s h in
    let k = bucket_start_bounds now in
    (
      (λ early. (ground (arith, r, k), ground (arith, b, k))),
      (λ late. (ground (arith, r, k), ground (arith, b, k))),
    )

-- Totals only fall while nothing is charged.
pub requests_fall :
    (t u : ℕ) (s : Spend) → t ≤ u → sum_requests (live u s) ≤ sum_requests (live t s)
unfolding live sum_requests
requests_fall t u [] h = omega arith
requests_fall t u (b ∷ bs) h = ground (arith, requests_fall t u bs h)

pub bytes_fall : (t u : ℕ) (s : Spend) → t ≤ u → sum_bytes (live u s) ≤ sum_bytes (live t s)
unfolding live sum_bytes
bytes_fall t u [] h = omega arith
bytes_fall t u (b ∷ bs) h = ground (arith, bytes_fall t u bs h)

-- A settlement changes no request count.
pub requests-correct :
    (u id bytes max_bytes : ℕ) (s : Spend)
    → sum_requests (live u (correct id bytes max_bytes s)) ≡ sum_requests (live u s)
unfolding live sum_requests correct
requests-correct u id bytes max_bytes [] = refl
requests-correct u id bytes max_bytes (b ∷ bs) =
    ground (arith, requests-correct u id bytes max_bytes bs)

-- A spender with nothing left in the window has spent nothing.
pub requests-not_spent : (t : ℕ) (s : Spend) → spent t s ≡ false → sum_requests (live t s) ≡ 0
unfolding spent sum_requests
requests-not_spent t s h = nothing (live t s) (ground arith)
  where
    nothing : (xs : Spend) → length xs ≡ 0 → sum_requests xs ≡ 0
    nothing [] e = refl
    nothing (x ∷ xs) e = absurd (omega arith)
