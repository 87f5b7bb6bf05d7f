-- ===== src/Base/Sort.antt =====
-- `Array.prototype.sort` with a comparator: a stable sort, here by insertion. `lt b a` stands for
-- a positive answer of the comparator at `(a, b)`.
use mathlib.Core.Path.{◌≡◌, refl, sym, subst}
use mathlib.Core.Logic.{◌≢◌, ◌⊎◌, inl, inr}
use mathlib.Core.Bool.{Bool, true, false}
use mathlib.Core.List.{List, [], ◌∷◌, ◌++◌}
use native.Mathlib.Omega.{arith}
use ipfs_node.Base.Tests.{if◌then◌else◌, Bool-cases}
use ipfs_node.Base.Lists.{
  All, All-In, All-intro, In, here, there, Distinct, length, In-append_right,
}

module _ {ℓ} {A : Type ℓ} (lt : A → A → Bool) where
  unfoldable pub insert : A → List A → List A
  insert x [] = x ∷ []
  insert x (y ∷ ys) = if lt y x then y ∷ insert x ys else x ∷ y ∷ ys

  unfoldable pub sort : List A → List A
  unfolding insert
  sort [] = []
  sort (x ∷ xs) = insert x (sort xs)

  insert_either :
      {a x y : A} {ys zs : List A}
      → (In a zs → (a ≡ x) ⊎ In a ys)
      → In a (y ∷ zs)
      → (a ≡ x) ⊎ In a (y ∷ ys)
  insert_either f here = inr here
  insert_either f (there m) = elim (f m) [ inl e ↦ inl e | inr k ↦ inr (there k) ]

  head_either : {a x : A} {ys : List A} → In a (x ∷ ys) → (a ≡ x) ⊎ In a ys
  head_either here = inl refl
  head_either (there m) = inr m

  pub In-insert : {a : A} (x : A) (ys : List A) → In a (insert x ys) → (a ≡ x) ⊎ In a ys
  unfolding insert
  In-insert x [] m = head_either m
  In-insert x (y ∷ ys) m = elim (Bool-cases (lt y x)) [
    | inl e ↦ insert_either (In-insert x ys) (rw e at m)
    | inr e ↦ head_either (rw e at m)
  ]

  pub insert-In_self : (x : A) (ys : List A) → In x (insert x ys)
  unfolding insert
  insert-In_self x [] = here
  insert-In_self x (y ∷ ys) = elim (Bool-cases (lt y x)) [
    | inl e ↦ rw e (there (insert-In_self x ys))
    | inr e ↦ rw e here
  ]

  pub insert-In : {a : A} (x : A) (ys : List A) → In a ys → In a (insert x ys)
  unfolding insert
  insert-In x [] m = there m
  insert-In x (y ∷ ys) here = elim (Bool-cases (lt y x)) [
    | inl e ↦ rw e here
    | inr e ↦ rw e (there here)
  ]
  insert-In x (y ∷ ys) (there m) = elim (Bool-cases (lt y x)) [
    | inl e ↦ rw e (there (insert-In x ys m))
    | inr e ↦ rw e (there (there m))
  ]

  -- Sorting neither loses nor adds elements.
  pub In-sort : {a : A} (xs : List A) → In a (sort xs) → In a xs
  unfolding sort
  In-sort [] m = m
  In-sort {a} (x ∷ xs) m = elim (In-insert x (sort xs) m) [
    | inl e ↦ subst (λ b. In b (x ∷ xs)) (sym e) here
    | inr k ↦ there (In-sort xs k)
  ]

  pub sort-In : {a : A} (xs : List A) → In a xs → In a (sort xs)
  unfolding sort
  sort-In [] m = m
  sort-In (x ∷ xs) here = insert-In_self x (sort xs)
  sort-In (x ∷ xs) (there m) = insert-In x (sort xs) (sort-In xs m)

  length-insert : (x : A) (ys : List A) → length (insert x ys) ≡ length (x ∷ ys)
  unfolding insert
  length-insert x [] = refl
  length-insert x (y ∷ ys) = ground (arith, length-insert x ys)

  pub length-sort : (xs : List A) → length (sort xs) ≡ length xs
  unfolding sort
  length-sort [] = refl
  length-sort (x ∷ xs) = omega (arith, length-insert x (sort xs), length-sort xs)

  -- Each element stands before every later one in the order.
  abbrev pub Ascending : List A → Type ℓ
  Ascending [] = Unit
  Ascending (x ∷ xs) = All (λ y. lt x y ≡ true) xs × Ascending xs

  -- No element stands after a greater one.
  abbrev pub Sorted : List A → Type ℓ
  Sorted [] = Unit
  Sorted (x ∷ xs) = All (λ y. lt y x ≡ false) xs × Sorted xs

  pub Sorted-append :
      (xs ys : List A) {a b : A} → Sorted (xs ++ ys) → In a xs → In b ys → lt b a ≡ false
  Sorted-append [] ys s m k = elim m [ ]
  Sorted-append (x ∷ xs) ys s here k = All-In _ (xs ++ ys) s.0 (In-append_right xs ys k)
  Sorted-append (x ∷ xs) ys s (there m) k = Sorted-append xs ys s.1 m k

-- A strict total order.
module _ {ℓ} {A : Type ℓ} (lt : A → A → Bool) (irrefl : (a : A) → lt a a ≡ false)
    (trans : (a b c : A) → lt a b ≡ true → lt b c ≡ true → lt a c ≡ true)
    (total : (a b : A) → lt a b ≡ false → lt b a ≡ false → a ≡ b) where
  below_head :
      (a b : A) (xs : List A)
      → lt a b ≡ true
      → All (λ y. lt b y ≡ true) xs
      → All (λ y. lt a y ≡ true) xs
  below_head a b xs h k = All-intro _ xs (λ y m. trans a b y h (All-In _ xs k m))

  insert-Ascending :
      (x : A) (ys : List A) → All (λ y. x ≢ y) ys → Ascending lt ys → Ascending lt (insert lt x ys)
  unfolding insert
  insert-Ascending x [] d s = (tt, tt)
  insert-Ascending x (y ∷ ys) d s = elim (Bool-cases (lt y x)) [
    | inl e ↦ rw e (
      All-intro _ _ (λ a m. elim (In-insert lt x ys m) [
        | inl p ↦ subst (λ b. lt y b ≡ true) (sym p) e
        | inr k ↦ All-In _ ys s.0 k
      ]),
      insert-Ascending x ys d.1 s.1,
    )
    | inr e ↦
        let first : lt x y ≡ true = elim (Bool-cases (lt x y)) [
          | inl p ↦ p
          | inr p ↦ absurd (d.0 (total x y p e))
        ] in
        rw e ((first, below_head x y ys first s.0), s)
  ]

  pub sort-Ascending : (xs : List A) → Distinct xs → Ascending lt (sort lt xs)
  unfolding sort
  sort-Ascending [] d = tt
  sort-Ascending (x ∷ xs) d =
      insert-Ascending x (sort lt xs) (All-intro _ _ (λ a m. All-In _ xs d.0 (In-sort lt xs m)))
        (sort-Ascending xs d.1)

  not_below_self : (a : A) (xs : List A) → All (λ y. lt a y ≡ true) xs → In a xs → ⊥
  not_below_self a xs h m = cc (All-In _ xs h m, irrefl a)

  tail_In :
      {a x y : A} {xs ys : List A}
      → x ≡ y
      → All (λ z. lt x z ≡ true) xs
      → In a xs
      → In a (y ∷ ys)
      → In a ys
  tail_In {a} {x} {y} {xs} e h m here =
      absurd (not_below_self y xs (subst (λ (c : A). All (λ z. lt c z ≡ true) xs) e h) m)
  tail_In e h m (there k) = k

  head_before :
      {x y : A} (ys : List A)
      → All (λ z. lt y z ≡ true) ys
      → In x (y ∷ ys)
      → (x ≡ y) ⊎ (lt y x ≡ true)
  head_before ys h here = inl refl
  head_before ys h (there m) = inr (All-In _ ys h m)

  heads_eq : {x y : A} → (x ≡ y) ⊎ (lt y x ≡ true) → (y ≡ x) ⊎ (lt x y ≡ true) → x ≡ y
  heads_eq (inl e) q = e
  heads_eq (inr p) (inl e) = sym e
  heads_eq {x} {y} (inr p) (inr q) = absurd (cc (trans x y x q p, irrefl x))

  -- An ascending list is determined by its members.
  pub Ascending-unique :
      (xs ys : List A)
      → Ascending lt xs
      → Ascending lt ys
      → ((a : A) → In a xs → In a ys)
      → ((a : A) → In a ys → In a xs)
      → xs ≡ ys
  Ascending-unique [] [] s t f g = refl
  Ascending-unique [] (y ∷ ys) s t f g = elim (g y here) [ ]
  Ascending-unique (x ∷ xs) [] s t f g = elim (f x here) [ ]
  Ascending-unique (x ∷ xs) (y ∷ ys) s t f g =
      let e = heads_eq (head_before ys t.0 (f x here)) (head_before xs s.0 (g y here)) in
      let rest =
        Ascending-unique xs ys s.1 t.1 (λ a m. tail_In e s.0 m (f a (there m)))
          (λ a m. tail_In (sym e) t.0 m (g a (there m))) in
      cc (e, rest)

  -- So two orders of arrival of the same distinct elements sort to one list.
  pub sort_unique :
      (xs ys : List A)
      → Distinct xs
      → Distinct ys
      → ((a : A) → In a xs → In a ys)
      → ((a : A) → In a ys → In a xs)
      → sort lt xs ≡ sort lt ys
  sort_unique xs ys d e f g =
      Ascending-unique (sort lt xs) (sort lt ys) (sort-Ascending xs d) (sort-Ascending ys e)
        (λ a m. sort-In lt ys (f a (In-sort lt xs m)))
        (λ a m. sort-In lt xs (g a (In-sort lt ys m)))

-- A comparator that is a strict weak order: equal keys keep their order of arrival.
module _ {ℓ} {A : Type ℓ} (lt : A → A → Bool) (asym : (a b : A) → lt a b ≡ true → lt b a ≡ false)
    (weak : (a b c : A) → lt b a ≡ false → lt c b ≡ false → lt c a ≡ false) where
  insert-Sorted : (x : A) (ys : List A) → Sorted lt ys → Sorted lt (insert lt x ys)
  unfolding insert
  insert-Sorted x [] s = (tt, tt)
  insert-Sorted x (y ∷ ys) s = elim (Bool-cases (lt y x)) [
    | inl e ↦ rw e (
      All-intro _ _ (λ a m. elim (In-insert lt x ys m) [
        | inl p ↦ subst (λ b. lt b y ≡ false) (sym p) (asym y x e)
        | inr k ↦ All-In _ ys s.0 k
      ]),
      insert-Sorted x ys s.1,
    )
    | inr e ↦ rw e ((e, All-intro _ ys (λ a m. weak x y a e (All-In _ ys s.0 m))), s)
  ]

  pub sort-Sorted : (xs : List A) → Sorted lt (sort lt xs)
  unfolding sort
  sort-Sorted [] = tt
  sort-Sorted (x ∷ xs) = insert-Sorted x (sort lt xs) (sort-Sorted xs)

-- An ascending order repeats nothing.
pub Distinct-Ascending {ℓ} :
    {A : Type ℓ} (lt : A → A → Bool) (xs : List A)
    → ((a : A) → lt a a ≡ false)
    → Ascending lt xs
    → Distinct xs
Distinct-Ascending lt [] irrefl s = tt
Distinct-Ascending lt (x ∷ xs) irrefl s = (
  All-intro _ xs (λ a m e. let h = All-In _ xs s.0 m in cc (h, irrefl x, e)),
  Distinct-Ascending lt xs irrefl s.1,
)
