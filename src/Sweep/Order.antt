-- ===== src/Sweep/Order.antt =====
-- The sorted records of a sweep (src/storage/sweep.ts): what stands after a cursor.
use mathlib.Core.Option
use ipfs_node.Base.Sort.{sort, insert, Ascending, sort-Ascending}
use ipfs_node.Base.Texts.{
  Text, text_eq, text_lt, text_eq_iff, text_lt_irrefl, text_lt_trans, text_lt_total,
}
use ipfs_node.Base.{
  ℕ, zero, suc, ◌≡◌, refl, sym, subst, Bool, true, false, ◌⊎◌, inl, inr, none, some, List, [], ◌∷◌,
  arith, take, drop, get_last?, filter, map, In, All, All-In, All-intro, Distinct, Bool-cases,
  filter-In, In-map, In-append, take-append-drop,
}
use ipfs_node.Sweep.{index_of, ordered, start_of}

module _ {ℓ} {T : Type ℓ} (cid : T → Text) where
  abbrev by_cid : T → T → Bool
  by_cid left right = text_lt (cid left) (cid right)

  map-insert :
      (x : T) (xs : List T) → map cid (insert by_cid x xs) ≡ insert text_lt (cid x) (map cid xs)
  unfolding insert
  map-insert x [] = refl
  map-insert x (y ∷ xs) = elim (Bool-cases (text_lt (cid y) (cid x))) [
    | inl e ↦ rw (e, map-insert x xs)
    | inr e ↦ rw e
  ]

  map-sort : (xs : List T) → map cid (sort by_cid xs) ≡ sort text_lt (map cid xs)
  unfolding sort
  map-sort [] = refl
  map-sort (x ∷ xs) = rw (map-insert x (sort by_cid xs), map-sort xs)

  pub ordered-Ascending :
      (xs : List T) → Distinct (map cid xs) → Ascending text_lt (map cid (ordered cid xs))
  unfolding ordered
  ordered-Ascending xs d =
      subst (Ascending text_lt) (sym (map-sort xs))
        (sort-Ascending text_lt text_lt_irrefl text_lt_trans text_lt_total (map cid xs) d)

  abbrev pub after : Text → List T → List T
  after c = filter (λ r. text_lt c (cid r))

  nothing_dropped :
      (c : Text) (xs : List T) → All (λ d. text_lt c d ≡ true) (map cid xs) → after c xs ≡ xs
  nothing_dropped c [] h = refl
  nothing_dropped c (x ∷ xs) h = rw (h.0, nothing_dropped c xs h.1)

  above_trans :
      (c d : Text) (xs : List Text)
      → text_lt c d ≡ true
      → All (λ e. text_lt d e ≡ true) xs
      → All (λ e. text_lt c e ≡ true) xs
  above_trans c d xs h k = All-intro _ xs (λ e m. text_lt_trans c d e h (All-In _ xs k m))

  none_equal :
      (c : Text) (xs : List T)
      → All (λ e. text_lt c e ≡ true) (map cid xs)
      → index_of (λ r. text_eq (cid r) c) xs ≡ none
  unfolding index_of
  none_equal c [] h = refl
  none_equal c (x ∷ xs) h =
      ground (arith, text_eq_iff (cid x) c, text_lt_irrefl c, none_equal c xs h.1, h.0)

  -- A shift of both searches is a shift of the start.
  shifted_start :
      (c : Text) (x : T) (xs : List T)
      → text_eq (cid x) c ≡ false
      → text_lt c (cid x) ≡ false
      → start_of cid (x ∷ xs) (some c) ≡ suc (start_of cid xs (some c))
  unfolding start_of index_of
  shifted_start c x xs e k = ground (arith, e, k)

  start_exact :
      (c : Text) (x : T) (xs : List T)
      → text_eq (cid x) c ≡ true
      → start_of cid (x ∷ xs) (some c) ≡ 1
  unfolding start_of index_of
  start_exact c x xs e = ground (arith, e)

  start_next :
      (c : Text) (x : T) (xs : List T)
      → text_eq (cid x) c ≡ false
      → text_lt c (cid x) ≡ true
      → index_of (λ r. text_eq (cid r) c) xs ≡ none
      → start_of cid (x ∷ xs) (some c) ≡ 0
  unfolding start_of index_of
  start_next c x xs e k h = ground (arith, e, k, h)

  -- The records from the start on are those after the cursor.
  pub drop-start_of :
      (c : Text) (xs : List T)
      → Ascending text_lt (map cid xs)
      → drop (start_of cid xs (some c)) xs ≡ after c xs
  unfolding start_of index_of
  drop-start_of c [] s = refl
  drop-start_of c (x ∷ xs) s = elim (Bool-cases (text_eq (cid x) c)) [
    | inl e ↦
        let same = (text_eq_iff (cid x) c).0 e in
        let later = subst (λ d. All (λ t. text_lt d t ≡ true) (map cid xs)) same s.0 in
        let not_after : text_lt c (cid x) ≡ false = cc (same, text_lt_irrefl c) in
        rw (start_exact c x xs e, not_after, nothing_dropped c xs later)
    | inr e ↦ elim (Bool-cases (text_lt c (cid x))) [
      | inl k ↦
          let later = above_trans c (cid x) (map cid xs) k s.0 in
          rw (start_next c x xs e k (none_equal c xs later), k, nothing_dropped c xs later)
      | inr k ↦ rw (shifted_start c x xs e k, k) (drop-start_of c xs s.1)
    ]
  ]

  pub Ascending-drop :
      (n : ℕ) (xs : List T)
      → Ascending text_lt (map cid xs)
      → Ascending text_lt (map cid (drop n xs))
  Ascending-drop zero xs s = s
  Ascending-drop (suc n) [] s = s
  Ascending-drop (suc n) (x ∷ xs) s = Ascending-drop n xs s.1

  -- What a batch leaves stands after its last record.
  pub last-before :
      (n : ℕ) (xs : List T) (y : T)
      → Ascending text_lt (map cid xs)
      → In y (drop (suc n) xs)
      → (d : Text) × (Option.map cid (get_last? (take (suc n) xs)) ≡ some d)
        × (text_lt d (cid y) ≡ true)
  last-before n [] y s m = elim m [ ]
  last-before zero (x ∷ xs) y s m = (cid x, refl, All-In _ (map cid xs) s.0 (In-map cid xs m))
  last-before (suc n) (x ∷ []) y s m = elim m [ ]
  last-before (suc n) (x ∷ z ∷ xs) y s m = last-before n (z ∷ xs) y s.1 m

  pub In-after :
      (c : Text) (xs : List T) (y : T) → In y xs → text_lt c (cid y) ≡ true → In y (after c xs)
  In-after c xs y m h = filter-In (λ r. text_lt c (cid r)) xs m h

  pub In-take-drop : (n : ℕ) (xs : List T) (y : T) → In y xs → In y (take n xs) ⊎ In y (drop n xs)
  In-take-drop n xs y m =
      In-append (take n xs) (drop n xs) (subst (λ l. In y l) (sym (take-append-drop n xs)) m)
