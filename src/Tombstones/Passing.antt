-- ===== src/Tombstones/Passing.antt =====
-- About an abort marker while other stages and aborts come by (src/storage/replicaStage.ts).
use ipfs_node.Base.Texts.{Text, text_eq, text_eq_iff}
use ipfs_node.Base.{
  ℕ, ◌+◌, ◌≤◌, ◌<◌, ◌≡◌, ◌≢◌, inl, inr, true, ◌⊎◌, Option, none, [], ◌∷◌, ltb, length, filter,
  arith, In, here, there, Bool-cases, length-filter-le,
}
use ipfs_node.Tombstones.{
  Tombstones, max_abort_tombstones, transaction_key, prune_abort_tombstones, map_set,
  remember_abort, was_aborted,
}
use ipfs_node.Tombstones.Memory.{trim-id, prune-In, length-prune, marked, remembered}

-- What may happen to the map before the marker expires, so that the marker is not lost: stages ask,
-- and other transactions are aborted while the map has room.
pub data Passing (x : Text × ℕ) : Tombstones → Tombstones → Type 0 where
  now_there : {ts : Tombstones} → Passing x ts ts
  asked :
      {ts us : Tombstones} (cid transaction : Text) (origin : Option Text) (now : ℕ)
      → now < x.1
      → Passing x (was_aborted cid transaction origin now ts).0 us
      → Passing x ts us
  aborted :
      {ts us : Tombstones} (cid transaction : Text) (origin : Option Text) (expires now : ℕ)
      → now < x.1
      → transaction_key cid transaction origin ≢ x.0
      → length ts < max_abort_tombstones
      → Passing x (remember_abort cid transaction expires now origin ts) us
      → Passing x ts us

-- The map holds the marker and is within its bound.
pub record Holds (x : Text × ℕ) (ts : Tombstones) : Type 0 where
  pub there_is : In x ts
  pub bounded : length ts ≤ max_abort_tombstones

map_set-In :
    (k : Text) (n : ℕ) (ts : Tombstones) (x : Text × ℕ) → k ≢ x.0 → In x ts → In x (map_set k n ts)
unfolding map_set
map_set-In k n [] x d m = elim m [ ]
map_set-In k n (_ ∷ ts) x d here = elim (Bool-cases (text_eq x.0 k)) [
  | inl e ↦ absurd (d (cc ((text_eq_iff x.0 k).0 e)))
  | inr e ↦ rw e here
]
map_set-In k n (t ∷ ts) x d (there m) = elim (Bool-cases (text_eq t.0 k)) [
  | inl e ↦ rw e (there m)
  | inr e ↦ rw e (there (map_set-In k n ts x d m))
]

length-map_set : (k : Text) (n : ℕ) (ts : Tombstones) → length (map_set k n ts) ≤ length ts + 1
unfolding map_set
length-map_set k n [] = omega arith
length-map_set k n (t ∷ ts) = ground (arith, length-map_set k n ts)

length-prune-le :
    (now : ℕ) (ts : Tombstones)
    → length ts ≤ max_abort_tombstones
    → length (prune_abort_tombstones now ts) ≤ length ts
unfolding prune_abort_tombstones
length-prune-le now ts h =
    let fresh = filter (λ e. ltb now e.1) ts in
    let fewer = length-filter-le (λ e. ltb now e.1) ts in
    rw (trim-id max_abort_tombstones fresh (omega (arith, h, fewer))) fewer

prune-Holds :
    (now : ℕ) (ts : Tombstones) (x : Text × ℕ)
    → now < x.1
    → Holds x ts
    → Holds x (prune_abort_tombstones now ts)
prune-Holds now ts x h q = record {
  there_is = prune-In now ts x q.bounded q.there_is (ground (arith, h));
  bounded = length-prune now ts;
}

pub Passing-Holds : (x : Text × ℕ) (ts us : Tombstones) → Passing x ts us → Holds x ts → Holds x us
unfolding was_aborted remember_abort
Passing-Holds x ts us now_there q = q
Passing-Holds x ts us (asked c t o now h p) q = Passing-Holds x _ us p (prune-Holds now ts x h q)
Passing-Holds x ts us (aborted c t o e now h d room p) q =
    let kept = prune-Holds now ts x h q in
    let key = transaction_key c t o in
    Passing-Holds x _ us p (
      prune-Holds now (map_set key e (prune_abort_tombstones now ts)) x h (record {
        there_is = map_set-In key e (prune_abort_tombstones now ts) x d kept.there_is;
        bounded = omega (
          arith,
          length-map_set key e (prune_abort_tombstones now ts),
          length-prune-le now ts q.bounded,
          room,
        );
      }))

pub remember_abort-Holds :
    (cid transaction : Text) (origin : Option Text) (expires now : ℕ) (ts : Tombstones)
    → now < expires
    → Holds
        (transaction_key cid transaction origin, expires)
        (remember_abort cid transaction expires now origin ts)
unfolding remember_abort
remember_abort-Holds cid transaction origin expires now ts h = record {
  there_is = remembered now expires (transaction_key cid transaction origin) ts h;
  bounded = length-prune now _;
}

-- A question that comes before the marker expires finds it.
pub Holds-was_aborted :
    (cid transaction : Text) (origin peer : Option Text) (expires later : ℕ) (ts : Tombstones)
    → later < expires
    → (peer ≡ none) ⊎ (peer ≡ origin) ⊎ (origin ≡ none)
    → Holds (transaction_key cid transaction origin, expires) ts
    → (was_aborted cid transaction peer later ts).1 ≡ true
unfolding was_aborted
Holds-was_aborted cid transaction origin peer expires later ts h c q =
    marked cid transaction origin peer expires (prune_abort_tombstones later ts) c
      (prune-Holds later ts (transaction_key cid transaction origin, expires) h q).there_is
