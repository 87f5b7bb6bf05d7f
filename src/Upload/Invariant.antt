-- ===== src/Upload/Invariant.antt =====
-- What holds of the sessions and of `inFlightBlocks` after any events (src/storage/uploadSession.ts).
use ipfs_node.Base.Texts.{Text, text_eq, text_eq_iff}
use ipfs_node.Base.{
  ℕ, ◌+◌, ◌≤◌, Bool, true, false, ◌≡◌, refl, sym, ap, ◌∙◌, inl, inr, ◌&&◌, ◌||◌, not, Option, none,
  some, List, [], ◌∷◌, ◌++◌, if◌then◌else◌, arith, Bool-cases,
}
use ipfs_node.Registry.{contains, no_repeats}
use ipfs_node.Upload.{
  InFlight, Session, retain_block, touch_block, record_block, claim, commit, begin_cleanup,
  begin_cleanup_if_unclaimed, visit, may_delete, nth, continue_cleanup, note_deletion, Event,
  put_started, put_finished, claims, commits, cleans, cleans_if_unclaimed, pin_answered,
  deletion_ended, react, release_all,
}
use ipfs_node.Upload.Counts.{count, one_if, count-retain, count-release_all, key_sym}

-- A session in progress; one whose cleanup runs; one that has settled and given its lease back.
pub data Phase : Bool → Option ℕ → ℕ → Type 0 where
  in_progress : Phase false none 0
  in_cleanup : {n : ℕ} → Phase true (some n) 0
  closed : Phase true none 1

pub record IsSound (s : Session) : Type 0 where
  pub distinct : no_repeats s.touched ≡ true
  pub phase : Phase s.settled s.cleaning s.settlements

-- Whether a session holds a block, as a number.
abbrev pub holds : Text → Session → ℕ
holds k s = one_if (contains k s.touched)

-- How many sessions hold a block.
abbrev pub holders : Text → List Session → ℕ
holders k [] = 0
holders k (s ∷ ss) = holds k s + holders k ss

-- A reaction changes the count of a block as it changes what the session holds.
pub record Balanced (blocks : InFlight) (s : Session) (after : InFlight × Session) : Type 0 where
  pub sound : IsSound after.1
  pub balance :
      (k : Text)
      → holds k s ≤ count k blocks
      → count k after.0 + holds k s ≡ count k blocks + holds k after.1

-- Both branches of a test.
if_both {ℓ κ} :
    {A : Type ℓ} (P : A → Type κ) (t : Bool) {x y : A}
    → (t ≡ true → P x)
    → (t ≡ false → P y)
    → P (if t then x else y)
if_both P true f g = f refl
if_both P false f g = g refl

steady : (blocks : InFlight) (s : Session) → IsSound s → Balanced blocks s (blocks, s)
steady blocks s q = record { sound = q; balance = λ k h. refl }

contains-snoc :
    (k key : Text) (xs : List Text) → contains k (xs ++ key ∷ []) ≡ (contains k xs || text_eq k key)
unfolding contains
contains-snoc k key [] = ground arith
contains-snoc k key (x ∷ xs) = ground (arith, contains-snoc k key xs)

no_repeats-snoc :
    (key : Text) (xs : List Text)
    → no_repeats xs ≡ true
    → contains key xs ≡ false
    → no_repeats (xs ++ key ∷ []) ≡ true
unfolding no_repeats contains
no_repeats-snoc key [] h e = refl
no_repeats-snoc key (x ∷ xs) h e =
    ground (arith, h, e, no_repeats-snoc key xs, contains-snoc x key xs, key_sym x key)

touch_block-Balanced :
    (key : Text) (blocks : InFlight) (s : Session)
    → IsSound s
    → Balanced blocks s (touch_block key blocks s)
unfolding touch_block
touch_block-Balanced key blocks s q =
    if_both (Balanced blocks s) (contains key s.touched) (λ t. steady blocks s q)
      (λ t. record {
        sound = record { distinct = no_repeats-snoc key s.touched q.distinct t; phase = q.phase };
        balance = λ k h. taken k (contains k s.touched) refl t;
      })
  where
    taken :
        (k : Text) (b : Bool)
        → contains k s.touched ≡ b
        → contains key s.touched ≡ false
        → count k (retain_block key blocks) + one_if (contains k s.touched)
          ≡ count k blocks + one_if (contains k (s.touched ++ key ∷ []))
    taken k b e t = elim (Bool-cases (text_eq k key)) [
      | inl same ↦
          let k_free : contains k s.touched ≡ false =
            ap (λ x. contains x s.touched) ((text_eq_iff k key).0 same) ∙ t in
          rw (count-retain k key blocks, key_sym key k, contains-snoc k key s.touched, same, k_free)
            (omega arith)
      | inr apart ↦
          rw (count-retain k key blocks, key_sym key k, contains-snoc k key s.touched, apart)
            (ground arith)
    ]

record_block-Balanced :
    (key : Text) (existed : Bool) (size : ℕ) (blocks : InFlight) (s : Session)
    → IsSound s
    → Balanced blocks s (blocks, record_block key existed size s)
unfolding record_block
record_block-Balanced key existed size blocks s q =
    if_both (λ x. Balanced blocks s (blocks, x)) (not existed && not (contains key s.created))
      (λ t. record {
        sound = record { distinct = q.distinct; phase = q.phase };
        balance = λ k h. refl;
      })
      (λ t. steady blocks s q)

claim-Balanced :
    (blocks : InFlight) (s : Session) → IsSound s → Balanced blocks s (blocks, (claim s).0)
unfolding claim
claim-Balanced blocks s q =
    if_both (λ (x : Session × Bool). Balanced blocks s (blocks, x.0)) s.settled
      (λ t. steady blocks s q)
      (λ t. record {
        sound = record { distinct = q.distinct; phase = q.phase };
        balance = λ k h. refl;
      })

release_all-balance :
    (k : Text) (s : Session) (blocks : InFlight)
    → IsSound s
    → holds k s ≤ count k blocks
    → count k (release_all s.touched blocks).0 + holds k s ≡ count k blocks + 0
release_all-balance k s blocks q h =
    omega (arith, count-release_all k s.touched blocks q.distinct, h)

Phase-parts : (b : Bool) (c : Option ℕ) (n : ℕ) → Phase b c n → b ≡ false → (c ≡ none) × (n ≡ 0)
Phase-parts b c n in_progress e = (refl, refl)
Phase-parts b c n in_cleanup e = cc
Phase-parts b c n closed e = cc

-- A session that settles holds nothing any more.
settle-Balanced :
    (blocks : InFlight) (s after : Session)
    → IsSound s
    → after.touched ≡ []
    → Phase after.settled after.cleaning after.settlements
    → Balanced blocks s ((release_all s.touched blocks).0, after)
unfolding contains no_repeats
settle-Balanced blocks s after q none_left phase = record {
  sound = record { distinct = ap no_repeats none_left ∙ nothing; phase = phase };
  balance = λ k h.
      release_all-balance k s blocks q h
      ∙ ap (λ xs. count k blocks + one_if (contains k xs)) (sym none_left);
}
  where
    nothing : no_repeats [] ≡ true
    nothing = refl

commit-Balanced :
    (blocks : InFlight) (s : Session) → IsSound s → Balanced blocks s (commit blocks s)
unfolding commit
commit-Balanced blocks s q =
    if_both (Balanced blocks s) s.settled (λ t. steady blocks s q)
      (λ t. settle-Balanced blocks s _ q refl (closing _ _ _ q.phase t))
  where
    closing : (b : Bool) (c : Option ℕ) (n : ℕ) → Phase b c n → b ≡ false → Phase true c (n + 1)
    closing b c n in_progress e = closed
    closing b c n in_cleanup e = cc
    closing b c n closed e = cc

begin_cleanup-Balanced :
    (blocks : InFlight) (s : Session) → IsSound s → Balanced blocks s (begin_cleanup blocks s)
unfolding begin_cleanup
begin_cleanup-Balanced blocks s q =
    if_both (Balanced blocks s) s.settled (λ t. steady blocks s q)
      (λ t. settle-Balanced blocks s _ q refl (opening _ _ _ q.phase t))
  where
    opening : (b : Bool) (c : Option ℕ) (n : ℕ) → Phase b c n → b ≡ false → Phase true (some 0) n
    opening b c n in_progress e = in_cleanup
    opening b c n in_cleanup e = cc
    opening b c n closed e = cc

continue_cleanup-Balanced :
    (blocks : InFlight) (s : Session) (pinned : Bool)
    → IsSound s
    → Balanced blocks s (blocks, (continue_cleanup blocks s pinned).0)
unfolding continue_cleanup visit
continue_cleanup-Balanced blocks s pinned q = go s.cleaning refl
  where
    moves :
        (b : Bool) (c : Option ℕ) (n p : ℕ) → Phase b c n → c ≡ some p → Phase b (some (p + 1)) n
    moves b c n p in_progress e = cc
    moves b c n p in_cleanup e = in_cleanup
    moves b c n p closed e = cc

    ends : (b : Bool) (c : Option ℕ) (n p : ℕ) → Phase b c n → c ≡ some p → Phase b none (n + 1)
    ends b c n p in_progress e = cc
    ends b c n p in_cleanup e = closed
    ends b c n p closed e = cc

    held :
        (after : Session)
        → after.touched ≡ s.touched
        → Phase after.settled after.cleaning after.settlements
        → Balanced blocks s (blocks, after)
    held after same phase = record {
      sound = record { distinct = ap no_repeats same ∙ q.distinct; phase = phase };
      balance = λ k h. ap (λ xs. count k blocks + one_if (contains k xs)) (sym same);
    }

    visited :
        (p : ℕ)
        → s.cleaning ≡ some p
        → (o : Option Text)
        → Balanced blocks s (
          blocks,
          (let out : Session × Option Text = elim o [
            | none ↦ (record s { cleaning = none; settlements = s.settlements + 1 }, none)
            | some key ↦
                if may_delete blocks s key pinned
                then (record s { cleaning = some (p + 1) }, some key)
                else (record s { cleaning = some (p + 1) }, none)
          ] in
              out.0),
        )
    visited p e none = held _ refl (ends _ _ _ p q.phase e)
    visited p e (some key) =
        if_both (λ (x : Session × Option Text). Balanced blocks s (blocks, x.0))
          (may_delete blocks s key pinned) (λ t. held _ refl (moves _ _ _ p q.phase e))
          (λ t. held _ refl (moves _ _ _ p q.phase e))

    go :
        (c : Option ℕ)
        → s.cleaning ≡ c
        → Balanced blocks s (
          blocks,
          (let out : Session × Option Text = elim c [
            | none ↦ (s, none)
            | some p ↦ visit blocks s p pinned
          ] in
              out.0),
        )
    go none e = steady blocks s q
    go (some p) e = visited p e (nth p s.created)

pub react-Balanced :
    (e : Event) (blocks : InFlight) (s : Session)
    → IsSound s
    → Balanced blocks s (react e blocks s).0
unfolding react begin_cleanup_if_unclaimed note_deletion
react-Balanced (put_started key) blocks s q = touch_block-Balanced key blocks s q
react-Balanced (put_finished key existed size) blocks s q =
    record_block-Balanced key existed size blocks s q
react-Balanced claims blocks s q = claim-Balanced blocks s q
react-Balanced commits blocks s q = commit-Balanced blocks s q
react-Balanced cleans blocks s q = begin_cleanup-Balanced blocks s q
react-Balanced cleans_if_unclaimed blocks s q =
    if_both (Balanced blocks s) (s.settled || s.claimed) (λ t. steady blocks s q)
      (λ t. begin_cleanup-Balanced blocks s q)
react-Balanced (pin_answered pinned) blocks s q = continue_cleanup-Balanced blocks s pinned q
react-Balanced (deletion_ended succeeded) blocks s q =
    if_both (λ x. Balanced blocks s (blocks, x)) succeeded
      (λ t. record {
        sound = record { distinct = q.distinct; phase = q.phase };
        balance = λ k h. refl;
      })
      (λ t. steady blocks s q)
