-- ===== src/Base/Lists.antt =====
-- The array operations of the source over native numbers and Boolean tests.
use Prim.Native.Nat.{ℕ, zero, suc, ◌+◌, ◌-◌, ◌≤◌, min}
use mathlib.Core.Path.{◌≡◌, refl}
use mathlib.Core.Logic.{◌⊎◌, ◌≢◌, inl, inr}
use mathlib.Core.Bool.{Bool, true, false, ◌&&◌, ◌||◌}
use mathlib.Core.List.{List, [], ◌∷◌, ◌++◌, map}
use mathlib.Core.Option.{Option, none, some}
use native.Mathlib.Omega.{arith}
use ipfs_node.Base.Tests.{if◌then◌else◌, Bool-cases}

module _ {ℓ} {A : Type ℓ} where
  abbrev pub length : List A → ℕ
  length [] = 0
  length (x ∷ xs) = suc (length xs)

  -- `xs.filter(p)`
  abbrev pub filter : (A → Bool) → List A → List A
  filter p [] = []
  filter p (x ∷ xs) = if p x then x ∷ filter p xs else filter p xs

  -- `xs.some(p)`
  abbrev pub any : (A → Bool) → List A → Bool
  any p [] = false
  any p (x ∷ xs) = p x || any p xs

  -- `xs.every(p)`
  abbrev pub all : (A → Bool) → List A → Bool
  all p [] = true
  all p (x ∷ xs) = p x && all p xs

  -- `xs.slice(0, n)`
  abbrev pub take : ℕ → List A → List A
  take zero xs = []
  take (suc n) [] = []
  take (suc n) (x ∷ xs) = x ∷ take n xs

  -- `xs.slice(n)`
  abbrev pub drop : ℕ → List A → List A
  drop zero xs = xs
  drop (suc n) [] = []
  drop (suc n) (x ∷ xs) = drop n xs

  -- `xs.at(-1)`
  abbrev pub get_last? : List A → Option A
  get_last? [] = none
  get_last? (x ∷ []) = some x
  get_last? (x ∷ y ∷ xs) = get_last? (y ∷ xs)

  pub length-append : (xs ys : List A) → length (xs ++ ys) ≡ length xs + length ys
  length-append [] ys = omega arith
  length-append (x ∷ xs) ys = omega (arith, length-append xs ys)

  pub length-take : (n : ℕ) (xs : List A) → length (take n xs) ≡ min n (length xs)
  length-take zero xs = omega arith
  length-take (suc n) [] = omega arith
  length-take (suc n) (x ∷ xs) = omega (arith, length-take n xs)

  pub length-drop : (n : ℕ) (xs : List A) → length (drop n xs) ≡ length xs - n
  length-drop zero xs = omega arith
  length-drop (suc n) [] = omega arith
  length-drop (suc n) (x ∷ xs) = omega (arith, length-drop n xs)

  pub take-append-drop : (n : ℕ) (xs : List A) → take n xs ++ drop n xs ≡ xs
  take-append-drop zero xs = refl
  take-append-drop (suc n) [] = refl
  take-append-drop (suc n) (x ∷ xs) = rw (take-append-drop n xs)

  pub length-filter-le : (p : A → Bool) (xs : List A) → length (filter p xs) ≤ length xs
  length-filter-le p [] = omega arith
  length-filter-le p (x ∷ xs) = ground (arith, length-filter-le p xs)

  -- Membership with its position kept.
  pub data In (a : A) : List A → Type ℓ where
    here : {xs : List A} → In a (a ∷ xs)
    there : {x : A} {xs : List A} → In a xs → In a (x ∷ xs)

-- A predicate of every element, by recursion.
abbrev pub All {ℓ κ} : {A : Type ℓ} → (A → Type κ) → List A → Type κ
All P [] = Unit
All P (x ∷ xs) = P x × All P xs

module _ {ℓ κ} {A : Type ℓ} (P : A → Type κ) where
  pub All-In : {a : A} (xs : List A) → All P xs → In a xs → P a
  All-In [] h m = elim m [ ]
  All-In (x ∷ xs) h here = h.0
  All-In (x ∷ xs) h (there m) = All-In xs h.1 m

  pub All-intro : (xs : List A) → ((a : A) → In a xs → P a) → All P xs
  All-intro [] h = tt
  All-intro (x ∷ xs) h = (h x here, All-intro xs (λ a m. h a (there m)))

  pub All-append : (xs ys : List A) → All P xs → All P ys → All P (xs ++ ys)
  All-append [] ys h k = k
  All-append (x ∷ xs) ys h k = (h.0, All-append xs ys h.1 k)

  pub All-take : (n : ℕ) (xs : List A) → All P xs → All P (take n xs)
  All-take zero xs h = tt
  All-take (suc n) [] h = tt
  All-take (suc n) (x ∷ xs) h = (h.0, All-take n xs h.1)

module _ {ℓ} {A : Type ℓ} (p : A → Bool) where
  filter_step :
      (x : A) (xs : List A) {a : A} → In a (filter p (x ∷ xs)) → (p x ≡ true) ⊎ In a (filter p xs)
  filter_step x xs m = elim (Bool-cases (p x)) [ inl e ↦ inl e | inr e ↦ inr (rw e at m) ]

  In-cons :
      {a x : A} {xs ys : List A}
      → (In a xs → In a ys × (p a ≡ true))
      → p x ≡ true
      → In a (x ∷ xs)
      → In a (x ∷ ys) × (p a ≡ true)
  In-cons f e here = (here, e)
  In-cons f e (there m) = (there (f m).0, (f m).1)

  -- The filter keeps exactly the elements that pass its test.
  pub In-filter : {a : A} (xs : List A) → In a (filter p xs) → In a xs × (p a ≡ true)
  In-filter [] m = elim m [ ]
  In-filter (x ∷ xs) m = elim (Bool-cases (p x)) [
    | inl e ↦ In-cons (In-filter xs) e (rw e at m)
    | inr e ↦ let r = In-filter xs (rw e at m) in (there r.0, r.1)
  ]

  pub filter-In : {a : A} (xs : List A) → In a xs → p a ≡ true → In a (filter p xs)
  filter-In [] m e = elim m [ ]
  filter-In (x ∷ xs) here e = rw e here
  filter-In (x ∷ xs) (there m) e = elim (Bool-cases (p x)) [
    | inl t ↦ rw t (there (filter-In xs m e))
    | inr t ↦ rw t (filter-In xs m e)
  ]

  pub All-filter : (xs : List A) → All (λ a. p a ≡ true) (filter p xs)
  All-filter [] = tt
  All-filter (x ∷ xs) = elim (Bool-cases (p x)) [
    | inl e ↦ rw e (e, All-filter xs)
    | inr e ↦ rw e (All-filter xs)
  ]

module _ {ℓ} {A : Type ℓ} where
  pub In-append_left : {a : A} (xs ys : List A) → In a xs → In a (xs ++ ys)
  In-append_left [] ys m = elim m [ ]
  In-append_left (x ∷ xs) ys here = here
  In-append_left (x ∷ xs) ys (there m) = there (In-append_left xs ys m)

  pub In-append_right : {a : A} (xs ys : List A) → In a ys → In a (xs ++ ys)
  In-append_right [] ys m = m
  In-append_right (x ∷ xs) ys m = there (In-append_right xs ys m)

  cons_or : {a x : A} {xs ys : List A} → In a xs ⊎ In a ys → In a (x ∷ xs) ⊎ In a ys
  cons_or (inl m) = inl (there m)
  cons_or (inr m) = inr m

  pub In-append : {a : A} (xs ys : List A) → In a (xs ++ ys) → In a xs ⊎ In a ys
  In-append [] ys m = inr m
  In-append (x ∷ xs) ys here = inl here
  In-append (x ∷ xs) ys (there m) = cons_or (In-append xs ys m)

  pub In-take : {a : A} (n : ℕ) (xs : List A) → In a (take n xs) → In a xs
  In-take zero xs m = elim m [ ]
  In-take (suc n) [] m = elim m [ ]
  In-take (suc n) (x ∷ xs) here = here
  In-take (suc n) (x ∷ xs) (there m) = there (In-take n xs m)

pub In-map {ℓ κ} :
    {A : Type ℓ} {B : Type κ} (f : A → B) {a : A} (xs : List A) → In a xs → In (f a) (map f xs)
In-map f [] m = elim m [ ]
In-map f (x ∷ xs) here = here
In-map f (x ∷ xs) (there m) = there (In-map f xs m)

-- No element twice.
abbrev pub Distinct {ℓ} : {A : Type ℓ} → List A → Type ℓ
Distinct [] = Unit
Distinct (x ∷ xs) = All (λ y. x ≢ y) xs × Distinct xs

pub Distinct-filter {ℓ} :
    {A : Type ℓ} (p : A → Bool) (xs : List A) → Distinct xs → Distinct (filter p xs)
Distinct-filter p [] h = tt
Distinct-filter p (x ∷ xs) h = elim (Bool-cases (p x)) [
  | inl e ↦
      rw e (All-intro _ _ (λ a m. All-In _ xs h.0 (In-filter p xs m).0), Distinct-filter p xs h.1)
  | inr e ↦ rw e (Distinct-filter p xs h.1)
]

pub Distinct-take {ℓ} : {A : Type ℓ} (n : ℕ) (xs : List A) → Distinct xs → Distinct (take n xs)
Distinct-take zero xs d = tt
Distinct-take (suc n) [] d = tt
Distinct-take (suc n) (x ∷ xs) d = (All-take _ n xs d.0, Distinct-take n xs d.1)

-- An element of a mapped list comes from one of the list.
pub map-In {ℓ κ} :
    {A : Type ℓ} {B : Type κ} (f : A → B) {b : B} (xs : List A)
    → In b (map f xs)
    → (a : A) × In a xs × (f a ≡ b)
map-In f [] m = elim m [ ]
map-In f (x ∷ xs) here = (x, here, refl)
map-In f (x ∷ xs) (there m) = let (a, k, e) = map-In f xs m in (a, there k, e)
