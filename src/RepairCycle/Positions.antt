-- ===== src/RepairCycle/Positions.antt =====
-- Prefixes of a cycle's list, and where a persisted cursor resumes in it (src/storage/repairCycle.ts).
use mathlib.Core.Option
use ipfs_node.Base.Texts.{Text, text_eq, text_lt}
use ipfs_node.Base.{
  ℕ, suc, ◌+◌, ◌≤◌, ◌<◌, ◌≡◌, refl, sym, ap, subst, Bool, inl, inr, Option, none, some, List, [],
  ◌∷◌, ◌++◌, arith, length, take, drop, zero, get_or, Bool-cases,
}
use ipfs_node.Sweep.{index_of}
use ipfs_node.RepairCycle.{resume_index}

take_cons :
    (k m : ℕ) (x : Text) (xs ys : List Text) → suc m ≡ k → ys ≡ take m xs → x ∷ ys ≡ take k (x ∷ xs)
take_cons k m x xs ys e h = subst (λ n. x ∷ ys ≡ take n (x ∷ xs)) e (ap (λ l. x ∷ l) h)

take-nil : (n : ℕ) → take {A = Text} n [] ≡ []
take-nil zero = refl
take-nil (suc n) = refl

pub take-add :
    (i n : ℕ) (xs : List Text)
    → take i xs ++ take n (drop i xs) ≡ take (i + length (take n (drop i xs))) xs
take-add zero zero xs = refl
take-add zero (suc n) [] = refl
take-add zero (suc n) (x ∷ xs) = take_cons _ _ x xs _ (omega arith) (take-add zero n xs)
take-add (suc i) zero [] = sym (take-nil _)
take-add (suc i) (suc n) [] = sym (take-nil _)
take-add (suc i) n (x ∷ xs) = take_cons _ _ x xs _ (omega arith) (take-add i n xs)

pub take-append_within : (i : ℕ) (xs ys : List Text) → i ≤ length xs → take i (xs ++ ys) ≡ take i xs
take-append_within zero xs ys h = refl
take-append_within (suc i) [] ys h = absurd (omega (arith, h))
take-append_within (suc i) (x ∷ xs) ys h =
    ap (λ l. x ∷ l) (take-append_within i xs ys (omega (arith, h)))

pub take-all : (n : ℕ) (xs : List Text) → length xs ≤ n → take n xs ≡ xs
take-all zero [] h = refl
take-all zero (x ∷ xs) h = absurd (omega (arith, h))
take-all (suc n) [] h = refl
take-all (suc n) (x ∷ xs) h = ap (λ l. x ∷ l) (take-all n xs (omega (arith, h)))

map-suc_lt :
    (o : Option ℕ) (i n : ℕ)
    → ((j : ℕ) → o ≡ some j → j < n)
    → Option.map suc o ≡ some i
    → i < suc n
map-suc_lt none i n h e = cc
map-suc_lt (some j) i n h e = ground (arith, e, h j refl)

index_of-lt : (p : Text → Bool) (xs : List Text) (i : ℕ) → index_of p xs ≡ some i → i < length xs
unfolding index_of
index_of-lt p [] i e = ground (arith, e)
index_of-lt p (x ∷ xs) i e = elim (Bool-cases (p x)) [
  | inl t ↦ ground (arith, (rw t at e))
  | inr t ↦ map-suc_lt (index_of p xs) i (length xs) (index_of-lt p xs) (rw t at e)
]

pub resume_index-le :
    (cids : List Text) (cursor : Option Text) → resume_index cids cursor ≤ length cids
unfolding resume_index
resume_index-le cids none = omega arith
resume_index-le cids (some c) =
    go (index_of (λ k. text_eq k c) cids) (index_of (λ k. text_lt c k) cids)
      (index_of-lt (λ k. text_eq k c) cids) (index_of-lt (λ k. text_lt c k) cids)
  where
    go :
        (exact next : Option ℕ)
        → ((i : ℕ) → exact ≡ some i → i < length cids)
        → ((i : ℕ) → next ≡ some i → i < length cids)
        → elim exact [ some i ↦ i + 1 | none ↦ get_or next (length cids) ] ≤ length cids
    go (some i) next h k = omega (arith, h i refl)
    go none none h k = omega arith
    go none (some i) h k = omega (arith, k i refl)
