-- ===== src/Sweep/Termination.antt =====
-- About the number of passes of a sweep (src/storage/sweep.ts).
use mathlib.Core.Option
use ipfs_node.Base.Sort.{Ascending, length-sort}
use ipfs_node.Base.Texts.{Text, text_lt, text_lt_irrefl, text_lt_trans}
use ipfs_node.Base.{
  ℕ, zero, suc, ◌+◌, ◌≤◌, ◌<◌, ◌≡◌, refl, sym, ap, subst, Bool, true, false, inl, inr, Option, none,
  some, List, [], ◌∷◌, arith, length, take, drop, get_last?, map, filter, In, here, there,
  In-filter, In-take, Distinct, Bool-cases, leb, length-take, length-drop, length-filter-le,
}
use ipfs_node.Sweep.{SweepName, repair, demote, ordered, start_of, batch_at, sweep_batch}
use ipfs_node.Sweep.Order.{ordered-Ascending, drop-start_of}
use ipfs_node.Sweep.Coverage.{completes}

no_more_kept {ℓ} :
    {A : Type ℓ} (p q : A → Bool) (xs : List A)
    → ((x : A) → p x ≡ true → q x ≡ true)
    → length (filter p xs) ≤ length (filter q xs)
no_more_kept p q [] f = omega arith
no_more_kept p q (x ∷ xs) f = ground (arith, f x, no_more_kept p q xs f)

-- A stricter test that refuses one more element keeps fewer.
fewer_kept {ℓ} :
    {A : Type ℓ} (p q : A → Bool) (xs : List A) (y : A)
    → ((x : A) → p x ≡ true → q x ≡ true)
    → In y xs
    → q y ≡ true
    → p y ≡ false
    → length (filter p xs) < length (filter q xs)
fewer_kept p q [] y f m e k = elim m [ ]
fewer_kept p q (_ ∷ xs) y f here e k = ground (arith, e, k, no_more_kept p q xs f)
fewer_kept p q (x ∷ xs) y f (there m) e k = ground (arith, f x, fewer_kept p q xs y f m e k)

last-In {ℓ} :
    {A : Type ℓ} (xs : List A) → 1 ≤ length xs → (x : A) × In x xs × (get_last? xs ≡ some x)
last-In [] h = absurd (omega (arith, h))
last-In (x ∷ []) h = (x, here, refl)
last-In (x ∷ z ∷ xs) h = let (y, m, e) = last-In (z ∷ xs) (omega arith) in (y, there m, e)

-- The same records at each pass.
unfoldable pub repeat {ℓ} : {A : Type ℓ} → ℕ → A → List A
repeat zero a = []
repeat (suc n) a = a ∷ repeat n a

filter-true {ℓ} : {A : Type ℓ} (xs : List A) → filter (λ x. true) xs ≡ xs
filter-true [] = refl
filter-true (x ∷ xs) = ap (λ l. x ∷ l) (filter-true xs)

module _ {ℓ} {T : Type ℓ} (cid : T → Text) where
  abbrev comes_after : Option Text → T → Bool
  comes_after none r = true
  comes_after (some c) r = text_lt c (cid r)

  remaining :
      (cursor : Option Text) (xs : List T)
      → Ascending text_lt (map cid xs)
      → drop (start_of cid xs cursor) xs ≡ filter (comes_after cursor) xs
  unfolding start_of
  remaining none xs s = sym (filter-true xs)
  remaining (some c) xs s = drop-start_of cid c xs s

  incomplete :
      (n start : ℕ) (xs : List T)
      → (batch_at cid (suc n) xs start).cycle_completed ≡ false
      → (y : T) × In y (drop start xs)
        × ((batch_at cid (suc n) xs start).next_cursor ≡ some (cid y))
  unfolding batch_at
  incomplete n start xs e = elim (Bool-cases (leb (length xs) start)) [
    | inl t ↦ absurd (cc (rw t at e))
    | inr t ↦
        let batch = take (suc n) (drop start xs) in
        let (y, m, l) =
          last-In batch
            (ground (arith, t, length-take (suc n) (drop start xs), length-drop start xs)) in
        let going : leb (length xs) (start + length batch) ≡ false = rw t at e in
        rw (t, going) (y, In-take (suc n) (drop start xs) m, ap (Option.map cid) l)
  ]

  incomplete_pass :
      (sweep : SweepName) (records : List T) (cursor : Option Text)
      → (sweep_batch cid sweep records cursor).cycle_completed ≡ false
      → (y : T) × In y (drop (start_of cid (ordered cid records) cursor) (ordered cid records))
        × ((sweep_batch cid sweep records cursor).next_cursor ≡ some (cid y))
  unfolding sweep_batch
  incomplete_pass repair records cursor e = incomplete 49 _ (ordered cid records) e
  incomplete_pass demote records cursor e = incomplete 199 _ (ordered cid records) e

  after_later :
      (cursor : Option Text) (y x : T)
      → comes_after cursor y ≡ true
      → comes_after (some (cid y)) x ≡ true
      → comes_after cursor x ≡ true
  after_later none y x h k = refl
  after_later (some c) y x h k = text_lt_trans c (cid y) (cid x) h k

  ends :
      (sweep : SweepName) (records : List T) (n : ℕ) (cursor : Option Text)
      → Ascending text_lt (map cid (ordered cid records))
      → length (filter (comes_after cursor) (ordered cid records)) < n
      → completes cid sweep cursor (repeat n records) ≡ true
  unfolding completes repeat
  ends sweep records zero cursor s h = absurd (omega (arith, h))
  ends sweep records (suc n) cursor s h =
      let b = sweep_batch cid sweep records cursor in
      elim (Bool-cases b.cycle_completed) [
        | inl e ↦ rw e refl
        | inr e ↦
            let (y, m, next) = incomplete_pass sweep records cursor e in
            let k =
              In-filter (comes_after cursor) (ordered cid records)
                (subst (λ l. In y l) (remaining cursor (ordered cid records) s) m) in
            let less =
              fewer_kept (comes_after (some (cid y))) (comes_after cursor) (ordered cid records) y
                (λ x. after_later cursor y x k.1) k.0 k.1 (text_lt_irrefl (cid y)) in
            rw (e, next) (ends sweep records n (some (cid y)) s (omega (arith, h, less)))
      ]

  -- Over records with distinct CIDs that do not change, a sweep from the front reports its cycle
  -- completed within one pass more than there are records.
  pub sweep_terminates :
      (sweep : SweepName) (records : List T)
      → Distinct (map cid records)
      → completes cid sweep none (repeat (suc (length records)) records) ≡ true
  unfolding ordered
  sweep_terminates sweep records d =
      ends sweep records (suc (length records)) none (ordered-Ascending cid records d) (
        omega (
          arith,
          length-filter-le (comes_after none) (ordered cid records),
          length-sort (λ a b. text_lt (cid a) (cid b)) records,
        ))
