-- ===== src/Placement/Order.antt =====
-- About the ranking of nodes and the deduplication of candidates (src/storage/placement.ts).
use ipfs_node.Base.Sort.{sort, insert, sort_unique, sort-Ascending, Distinct-Ascending, length-sort}
use ipfs_node.Base.Texts.{Text, text_eq, text_eq_iff, text_lt_irrefl, text_lt_trans, text_lt_total}
use ipfs_node.Base.{
  ℕ, zero, suc, ◌≡◌, refl, subst, true, false, not, ◌⊎◌, inl, inr, List, [], ◌∷◌, arith, length,
  take, In, here, there, In-filter, filter-In, In-take, All-intro, Distinct, Distinct-filter,
  Bool-cases, filter,
}
use ipfs_node.Placement.{unique, ranks_before, rank_holders}

pub In-unique : {a : Text} (xs : List Text) → In a (unique xs) → In a xs
unfolding unique
In-unique [] m = m
In-unique (x ∷ xs) here = here
In-unique (x ∷ xs) (there m) =
    there (In-unique xs (In-filter (λ y. not (text_eq x y)) (unique xs) m).0)

pub unique-In : {a : Text} (xs : List Text) → In a xs → In a (unique xs)
unfolding unique
unique-In [] m = m
unique-In (x ∷ xs) here = here
unique-In {a} (x ∷ xs) (there m) = elim (Bool-cases (text_eq x a)) [
  | inl e ↦
      subst (λ b. In b (x ∷ filter (λ y. not (text_eq x y)) (unique xs))) ((text_eq_iff x a).0 e)
        here
  | inr e ↦ there (filter-In (λ y. not (text_eq x y)) (unique xs) (unique-In xs m) (rw e))
]

pub unique-Distinct : (xs : List Text) → Distinct (unique xs)
unfolding unique
unique-Distinct [] = tt
unique-Distinct (x ∷ xs) = (
  All-intro _ _ (λ a m e.
      let k = (In-filter (λ y. not (text_eq x y)) (unique xs) m).1 in
      ground (arith, text_eq_iff x a)),
  Distinct-filter (λ y. not (text_eq x y)) (unique xs) (unique-Distinct xs),
)

head-In : {a x : Text} {ys : List Text} → In a (x ∷ ys) → (a ≡ x) ⊎ In a ys
head-In here = inl refl
head-In (there m) = inr m

behind :
    {a x y : Text} {ys zs : List Text}
    → (In a zs → (a ≡ x) ⊎ In a ys)
    → In a (y ∷ zs)
    → (a ≡ x) ⊎ In a (y ∷ ys)
behind f here = inr here
behind f (there m) = elim (f m) [ inl e ↦ inl e | inr k ↦ inr (there k) ]

In-take-suc : {a : Text} (n : ℕ) (xs : List Text) → In a (take n xs) → In a (take (suc n) xs)
In-take-suc zero xs m = elim m [ ]
In-take-suc (suc n) [] m = m
In-take-suc (suc n) (x ∷ xs) here = here
In-take-suc (suc n) (x ∷ xs) (there m) = there (In-take-suc n xs m)

module _ (score : Text → Text → ℕ) (cid : Text) where
  ranks_before_irrefl : (a : Text) → ranks_before score cid a a ≡ false
  unfolding ranks_before
  ranks_before_irrefl a = ground (arith, text_lt_irrefl a)

  ranks_before_trans :
      (a b c : Text)
      → ranks_before score cid a b ≡ true
      → ranks_before score cid b c ≡ true
      → ranks_before score cid a c ≡ true
  unfolding ranks_before
  ranks_before_trans a b c h k = ground (arith, text_lt_trans a b c)

  ranks_before_total :
      (a b : Text) → ranks_before score cid a b ≡ false → ranks_before score cid b a ≡ false → a ≡ b
  unfolding ranks_before
  ranks_before_total a b h k = ground (arith, text_lt_total a b)

  -- The ranking depends on the set of candidates alone.
  pub rank_holders_unique :
      (xs ys : List Text)
      → Distinct xs
      → Distinct ys
      → ((a : Text) → In a xs → In a ys)
      → ((a : Text) → In a ys → In a xs)
      → rank_holders score cid xs ≡ rank_holders score cid ys
  unfolding rank_holders
  rank_holders_unique =
      sort_unique (ranks_before score cid) ranks_before_irrefl ranks_before_trans ranks_before_total

  pub rank_holders-Distinct : (xs : List Text) → Distinct xs → Distinct (rank_holders score cid xs)
  unfolding rank_holders
  rank_holders-Distinct xs d = Distinct-Ascending (ranks_before score cid) _ ranks_before_irrefl (
      sort-Ascending (ranks_before score cid) ranks_before_irrefl ranks_before_trans
        ranks_before_total xs d)

  pub length-rank_holders : (xs : List Text) → length (rank_holders score cid xs) ≡ length xs
  unfolding rank_holders
  length-rank_holders xs = length-sort (ranks_before score cid) xs

  In-take-insert :
      (n : ℕ) (x a : Text) (ys : List Text)
      → In a (take n (insert (ranks_before score cid) x ys))
      → (a ≡ x) ⊎ In a (take n ys)
  unfolding insert
  In-take-insert zero x a ys m = elim m [ ]
  In-take-insert (suc n) x a [] m = elim (head-In m) [
    | inl e ↦ inl e
    | inr k ↦ elim (In-take n [] k) [ ]
  ]
  In-take-insert (suc n) x a (y ∷ ys) m = elim (Bool-cases (ranks_before score cid y x)) [
    | inl e ↦ behind (In-take-insert n x a ys) (rw e at m)
    | inr e ↦ elim (head-In (rw e at m)) [ inl p ↦ inl p | inr k ↦ inr (In-take-suc n (y ∷ ys) k) ]
  ]

  -- A new candidate displaces holders but promotes nobody else: whoever is among the first `n` with
  -- it, and is not it, was among the first `n` without it.
  pub rank_holders_join :
      (n : ℕ) (x a : Text) (ids : List Text)
      → In a (take n (rank_holders score cid (x ∷ ids)))
      → (a ≡ x) ⊎ In a (take n (rank_holders score cid ids))
  unfolding rank_holders sort
  rank_holders_join n x a ids m = In-take-insert n x a (sort (ranks_before score cid) ids) m
