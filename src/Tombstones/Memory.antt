-- ===== src/Tombstones/Memory.antt =====
-- About how long an abort is remembered and how many are (src/storage/replicaStage.ts).
use ipfs_node.Base.Texts.{Text, text_eq, text_eq_iff}
use ipfs_node.Base.{
  ℕ, suc, ◌≤◌, ◌<◌, ◌≡◌, refl, sym, ap, subst, Bool, true, ◌⊎◌, inl, inr, Option, none, some, [],
  ◌∷◌, ◌++◌, ltb, any, filter, length, arith, In, here, there, filter-In, length-filter-le,
  Bool-cases, In-append_right,
}
use ipfs_node.Tombstones.{
  Tombstones, max_abort_tombstones, transaction_prefix, transaction_key, trim,
  prune_abort_tombstones, map_set, remember_abort, starts_with, is_marked, was_aborted,
}

length-trim : (n : ℕ) (ts : Tombstones) → length (trim n ts) ≤ n
unfolding trim
length-trim n [] = omega arith
length-trim n (e ∷ es) = ground (arith, length-trim n es)

pub trim-id : (n : ℕ) (ts : Tombstones) → length ts ≤ n → trim n ts ≡ ts
unfolding trim
trim-id n [] h = refl
trim-id n (e ∷ es) h = ground (arith, h)

-- The newest entry stays.
trim_last : (n : ℕ) (ts : Tombstones) (x : Text × ℕ) → In x (trim (suc n) (ts ++ x ∷ []))
unfolding trim
trim_last n [] x = subst (λ l. In x l) (sym (trim-id (suc n) (x ∷ []) (omega arith))) here
trim_last n (e ∷ es) x = elim (Bool-cases (ltb (suc n) (length (e ∷ es ++ x ∷ [])))) [
  | inl t ↦ rw t (trim_last n es x)
  | inr t ↦ rw t (there (In-append_right es (x ∷ []) here))
]

-- Setting a key puts it at the end, or replaces it and adds nothing.
map_set-parts :
    (k : Text) (n : ℕ) (ts : Tombstones)
    → (map_set k n ts ≡ ts ++ (k, n) ∷ [])
      ⊎ (In (k, n) (map_set k n ts) × (length (map_set k n ts) ≡ length ts))
unfolding map_set
map_set-parts k n [] = inl refl
map_set-parts k n (e ∷ es) = elim (Bool-cases (text_eq e.0 k)) [
  | inl t ↦ rw t (inr (here, refl))
  | inr t ↦ rw t (elim (map_set-parts k n es) [
    | inl q ↦ inl (ap (λ (l : Tombstones). e ∷ l) q)
    | inr q ↦ inr (there q.0, ap suc q.1)
  ])
]

filter_last :
    (p : Text × ℕ → Bool) (ts : Tombstones) (x : Text × ℕ)
    → p x ≡ true
    → filter p (ts ++ x ∷ []) ≡ filter p ts ++ x ∷ []
filter_last p [] x e = rw e
filter_last p (t ∷ ts) x e = elim (Bool-cases (p t)) [
  | inl k ↦ rw (k, filter_last p ts x e)
  | inr k ↦ rw k (filter_last p ts x e)
]

pub length-prune :
    (now : ℕ) (ts : Tombstones) → length (prune_abort_tombstones now ts) ≤ max_abort_tombstones
unfolding prune_abort_tombstones
length-prune now ts = length-trim max_abort_tombstones (filter (λ e. ltb now e.1) ts)

-- Pruning a map within the bound drops only what has expired.
pub prune-In :
    (now : ℕ) (ts : Tombstones) (x : Text × ℕ)
    → length ts ≤ max_abort_tombstones
    → In x ts
    → ltb now x.1 ≡ true
    → In x (prune_abort_tombstones now ts)
unfolding prune_abort_tombstones
prune-In now ts x h m e =
    subst (λ l. In x l)
      (sym (
        trim-id max_abort_tombstones (filter (λ t. ltb now t.1) ts)
          (omega (arith, h, length-filter-le (λ t. ltb now t.1) ts))))
      (filter-In (λ t. ltb now t.1) ts m e)

newest-In :
    (now expires : ℕ) (k : Text) (ts : Tombstones)
    → ltb now expires ≡ true
    → In (k, expires) (prune_abort_tombstones now (ts ++ (k, expires) ∷ []))
unfolding prune_abort_tombstones
newest-In now expires k ts e =
    subst (λ l. In (k, expires) (trim max_abort_tombstones l))
      (sym (filter_last (λ t. ltb now t.1) ts (k, expires) e))
      (trim_last 9999 (filter (λ t. ltb now t.1) ts) (k, expires))

pub remembered :
    (now expires : ℕ) (k : Text) (ts : Tombstones)
    → now < expires
    → In
        (k, expires)
        (prune_abort_tombstones now (map_set k expires (prune_abort_tombstones now ts)))
remembered now expires k ts h =
    let kept = prune_abort_tombstones now ts in
    let fresh : ltb now expires ≡ true = ground (arith, h) in
    elim (map_set-parts k expires kept) [
      | inl q ↦
          subst (λ l. In (k, expires) (prune_abort_tombstones now l)) (sym q)
            (newest-In now expires k kept fresh)
      | inr q ↦
          prune-In now (map_set k expires kept) (k, expires)
            (omega (arith, q.1, length-prune now ts)) q.0 fresh
    ]

starts_with-append : (p t : Text) → starts_with p (p ++ t) ≡ true
unfolding starts_with
starts_with-append [] t = refl
starts_with-append (c ∷ cs) t = ground (arith, starts_with-append cs t)

any-In :
    (p : Text × ℕ → Bool) (ts : Tombstones) (x : Text × ℕ) → In x ts → p x ≡ true → any p ts ≡ true
any-In p [] x m e = elim m [ ]
any-In p (_ ∷ ts) x here e = rw e
any-In p (t ∷ ts) x (there m) e = ground (arith, any-In p ts x m e)

same_peer : (o p : Text) → (some p ≡ none) ⊎ (some p ≡ some o) ⊎ (some o ≡ none) → p ≡ o
same_peer o p (inl e) = cc
same_peer o p (inr (inl e)) = cc
same_peer o p (inr (inr e)) = cc

pub marked :
    (cid transaction : Text) (origin asked : Option Text) (expires : ℕ) (ts : Tombstones)
    → (asked ≡ none) ⊎ (asked ≡ origin) ⊎ (origin ≡ none)
    → In (transaction_key cid transaction origin, expires) ts
    → is_marked cid transaction asked ts ≡ true
unfolding is_marked transaction_key
marked cid transaction origin none expires ts c m =
    any-In (λ e. starts_with (transaction_prefix cid transaction) e.0) ts _ m
      (starts_with-append (transaction_prefix cid transaction) _)
marked cid transaction none (some p) expires ts c m = ground (
  arith,
  any-In (λ e. text_eq e.0 (transaction_key cid transaction none)) ts _ m
      ((text_eq_iff _ _).1 refl),
)
marked cid transaction (some o) (some p) expires ts c m = ground (
  arith,
  any-In (λ e. text_eq e.0 (transaction_key cid transaction (some p))) ts _ m
      ((text_eq_iff _ _).1
        (ap (λ q. transaction_key cid transaction (some q)) (sym (same_peer o p c)))),
)

-- An abort that is remembered before it expires is found by every later question until it expires: by
-- one that names the same peer, by one that names none, and by any if the abort itself named none. The
-- map never holds more than the bound.
pub abort_remembered :
    (cid transaction : Text) (origin asked : Option Text) (expires now later : ℕ) (ts : Tombstones)
    → now < expires
    → later < expires
    → (asked ≡ none) ⊎ (asked ≡ origin) ⊎ (origin ≡ none)
    → let kept = remember_abort cid transaction expires now origin ts in
      ((was_aborted cid transaction asked later kept).1 ≡ true)
      × (length kept ≤ max_abort_tombstones)
unfolding remember_abort was_aborted
abort_remembered cid transaction origin asked expires now later ts h l c =
    let key = transaction_key cid transaction origin in
    let set = map_set key expires (prune_abort_tombstones now ts) in
    let kept = prune_abort_tombstones now set in
    (
      marked cid transaction origin asked expires (prune_abort_tombstones later kept) c (
          prune-In later kept (key, expires) (length-prune now set)
            (remembered now expires key ts h) (ground (arith, l))),
      length-prune now set,
    )
