-- ===== src/Upload/Cleanup.antt =====
-- About the blocks that a failed upload deletes, whatever the uploads beside it do
-- (src/storage/uploadSession.ts).
use ipfs_node.Base.Texts.{Text, text_eq, text_eq_iff}
use ipfs_node.Base.{
  ℕ, zero, suc, ◌+◌, ◌≤◌, Bool, true, false, ◌≡◌, refl, sym, ap, subst, ◌∙◌, ◌&&◌, not, Option,
  none, some, List, [], ◌∷◌, ◌++◌, if◌then◌else◌, is_some, get_or, arith, All, All-append,
}
use ipfs_node.Registry.{contains, no_repeats}
use ipfs_node.Upload.{
  InFlight, Session, new_session, references, is_block_in_flight, nth, may_delete, visit,
  continue_cleanup, Event, put_started, put_finished, claims, commits, cleans, cleans_if_unclaimed,
  pin_answered, deletion_ended, Uploads, react, session_at, put_session, Step, opens, happens, step,
  run, no_uploads,
}
use ipfs_node.Upload.Counts.{count, one_if}
use ipfs_node.Upload.Invariant.{
  Phase, in_progress, in_cleanup, closed, IsSound, holds, holders, react-Balanced,
}

-- The map counts, for every block, the sessions that hold it.
pub record IsCounted (u : Uploads) : Type 0 where
  pub counted : (k : Text) → count k u.in_flight ≡ holders k u.sessions
  pub sound : All IsSound u.sessions

holders-append :
    (k : Text) (ss ts : List Session) → holders k (ss ++ ts) ≡ holders k ss + holders k ts
holders-append k [] ts = omega arith
holders-append k (s ∷ ss) ts = omega (arith, holders-append k ss ts)

session_at-holds :
    (k : Text) (n : ℕ) (s : Session) (ss : List Session)
    → session_at n ss ≡ some s
    → holds k s ≤ holders k ss
unfolding session_at
session_at-holds k n s [] e = cc
session_at-holds k zero s (x ∷ ss) e =
    let same : holds k x ≡ holds k s = ap (holds k) (the_same e) in omega (arith, same)
  where
    the_same : some x ≡ some s → x ≡ s
    the_same y = cc y
session_at-holds k (suc n) s (x ∷ ss) e = omega (arith, session_at-holds k n s ss e)

session_at-IsSound :
    (n : ℕ) (s : Session) (ss : List Session)
    → session_at n ss ≡ some s
    → All IsSound ss
    → IsSound s
unfolding session_at
session_at-IsSound n s [] e q = cc
session_at-IsSound zero s (x ∷ ss) e q = subst IsSound (the_same e) q.0
  where
    the_same : some x ≡ some s → x ≡ s
    the_same y = cc y
session_at-IsSound (suc n) s (x ∷ ss) e q = session_at-IsSound n s ss e q.1

put_session-holders :
    (k : Text) (n : ℕ) (s t : Session) (ss : List Session)
    → session_at n ss ≡ some s
    → holders k (put_session n t ss) + holds k s ≡ holders k ss + holds k t
unfolding session_at put_session
put_session-holders k n s t [] e = cc
put_session-holders k zero s t (x ∷ ss) e =
    let same : holds k x ≡ holds k s = ap (holds k) (the_same e) in omega (arith, same)
  where
    the_same : some x ≡ some s → x ≡ s
    the_same y = cc y
put_session-holders k (suc n) s t (x ∷ ss) e = omega (arith, put_session-holders k n s t ss e)

put_session-IsSound :
    (n : ℕ) (t : Session) (ss : List Session)
    → All IsSound ss
    → IsSound t
    → All IsSound (put_session n t ss)
unfolding put_session
put_session-IsSound n t [] q r = tt
put_session-IsSound zero t (x ∷ ss) q r = (r, q.1)
put_session-IsSound (suc n) t (x ∷ ss) q r = (q.0, put_session-IsSound n t ss q.1 r)

new_session-IsSound : IsSound new_session
unfolding no_repeats
new_session-IsSound = record { distinct = no_blocks; phase = in_progress }
  where
    no_blocks : no_repeats [] ≡ true
    no_blocks = refl

step-IsCounted : (x : Step) (u : Uploads) → IsCounted u → IsCounted (step x u).0
unfolding step contains
step-IsCounted opens u q = record {
  counted = λ k. omega (arith, q.counted k, holders-append k u.sessions (new_session ∷ []));
  sound = All-append IsSound u.sessions (new_session ∷ []) q.sound (new_session-IsSound, tt);
}
step-IsCounted (happens n e) u q = go (session_at n u.sessions) refl
  where
    go :
        (o : Option Session)
        → session_at n u.sessions ≡ o
        → IsCounted (
            let out : Uploads × Option Text = elim o [
              | none ↦ (u, none)
              | some s ↦
                  let ((blocks, after), key) = react e u.in_flight s in
                  (record { in_flight = blocks; sessions = put_session n after u.sessions }, key)
            ] in
            out.0)
    go none f = q
    go (some s) f =
        let b = react-Balanced e u.in_flight s (session_at-IsSound n s u.sessions f q.sound) in
        record {
          counted = λ k. omega (
            arith,
            b.balance k (
                subst (λ x. holds k s ≤ x) (sym (q.counted k))
                  (session_at-holds k n s u.sessions f)),
            put_session-holders k n s (react e u.in_flight s).0.1 u.sessions f,
            q.counted k,
          );
          sound = put_session-IsSound n (react e u.in_flight s).0.1 u.sessions q.sound b.sound;
        }

run-IsCounted : (xs : List Step) (u : Uploads) → IsCounted u → IsCounted (run xs u)
unfolding run
run-IsCounted [] u q = q
run-IsCounted (x ∷ xs) u q = run-IsCounted xs (step x u).0 (step-IsCounted x u q)

no_uploads-IsCounted : IsCounted no_uploads
unfolding references
no_uploads-IsCounted = record { counted = λ k. refl; sound = tt }

-- What is so when the deletion of a block starts.
pub record Deletes (n : ℕ) (e : Event) (key : Text) (u : Uploads) : Type 0 where
  pub session : Session
  pub found : session_at n u.sessions ≡ some session
  pub unpinned : e ≡ pin_answered false
  pub is_settled : session.settled ≡ true
  pub is_created : contains key session.created ≡ true
  pub unused : All (λ (s : Session). contains key s.touched ≡ false) u.sessions

Phase-settled : (b : Bool) (c : Option ℕ) (n : ℕ) → Phase b c n → is_some c ≡ true → b ≡ true
Phase-settled b c n in_progress e = cc
Phase-settled b c n in_cleanup e = refl
Phase-settled b c n closed e = refl

nth-contains : (n : ℕ) (key : Text) (xs : List Text) → nth n xs ≡ some key → contains key xs ≡ true
unfolding nth contains
nth-contains n key [] e = cc
nth-contains zero key (x ∷ xs) e =
    let same : text_eq key x ≡ true = (text_eq_iff key x).1 (sym (the_same e)) in
    ground (arith, same)
  where
    the_same : some x ≡ some key → x ≡ key
    the_same y = cc y
nth-contains (suc n) key (x ∷ xs) e = ground (arith, nth-contains n key xs e)

-- Why a deletion starts.
record Chosen (blocks : InFlight) (s : Session) (e : Event) (key : Text) : Type 0 where
  pub unpinned : e ≡ pin_answered false
  pub cleans_now : is_some s.cleaning ≡ true
  pub is_created : contains key s.created ≡ true
  pub is_free : is_block_in_flight key blocks ≡ false

react-Chosen :
    (e : Event) (blocks : InFlight) (s : Session) (key : Text)
    → (react e blocks s).1 ≡ some key
    → Chosen blocks s e key
unfolding react continue_cleanup visit may_delete
react-Chosen (put_started k) blocks s key h = cc
react-Chosen (put_finished k x n) blocks s key h = cc
react-Chosen claims blocks s key h = cc
react-Chosen commits blocks s key h = cc
react-Chosen cleans blocks s key h = cc
react-Chosen cleans_if_unclaimed blocks s key h = cc
react-Chosen (deletion_ended b) blocks s key h = cc
react-Chosen (pin_answered pinned) blocks s key h = go s.cleaning refl h
  where
    parts : (a b c : Bool) → (a && (not b && not c)) ≡ true → (b ≡ false) × (c ≡ false)
    parts a b c t = (ground (arith, t), ground (arith, t))

    chosen :
        (p : ℕ) (b : Bool) (k : Text)
        → s.cleaning ≡ some p
        → nth p s.created ≡ some k
        → may_delete blocks s k pinned ≡ b
        → (let out : Session × Option Text =
              if b
              then (record s { cleaning = some (p + 1) }, some k)
              else (record s { cleaning = some (p + 1) }, none) in
            out.1)
          ≡ some key
        → Chosen blocks s (pin_answered pinned) key
    chosen p false k c f t x = cc
    chosen p true k c f t x =
        let q = parts (contains k s.releasable) pinned (is_block_in_flight k blocks) t in
        let same : k ≡ key = cc x in
        record {
          unpinned = ap pin_answered q.0;
          cleans_now = ap is_some c;
          is_created = nth-contains p key s.created (f ∙ ap (λ j. some j) same);
          is_free = ap (λ j. is_block_in_flight j blocks) (sym same) ∙ q.1;
        }

    visited :
        (p : ℕ) (o : Option Text)
        → s.cleaning ≡ some p
        → nth p s.created ≡ o
        → (let out : Session × Option Text = elim o [
          | none ↦ (record s { cleaning = none; settlements = s.settlements + 1 }, none)
          | some k ↦
              if may_delete blocks s k pinned
              then (record s { cleaning = some (p + 1) }, some k)
              else (record s { cleaning = some (p + 1) }, none)
        ] in
            out.1)
          ≡ some key
        → Chosen blocks s (pin_answered pinned) key
    visited p none c f x = cc
    visited p (some k) c f x = chosen p (may_delete blocks s k pinned) k c f refl x

    go :
        (c : Option ℕ)
        → s.cleaning ≡ c
        → (let out : Session × Option Text = elim c [
          | none ↦ (s, none)
          | some p ↦ visit blocks s p pinned
        ] in
            out.1)
          ≡ some key
        → Chosen blocks s (pin_answered pinned) key
    go none f x = cc
    go (some p) f x = visited p (nth p s.created) f refl x

nobody_holds :
    (k : Text) (ss : List Session)
    → holders k ss ≡ 0
    → All (λ (s : Session). contains k s.touched ≡ false) ss
nobody_holds k [] h = tt
nobody_holds k (s ∷ ss) h =
    (free (contains k s.touched) (omega (arith, h)), nobody_holds k ss (omega (arith, h)))
  where
    free : (b : Bool) → one_if b ≡ 0 → b ≡ false
    free b x = ground (arith, x)

step-Deletes :
    (n : ℕ) (e : Event) (key : Text) (u : Uploads)
    → IsCounted u
    → (step (happens n e) u).1 ≡ some key
    → Deletes n e key u
unfolding step is_block_in_flight
step-Deletes n e key u q h = go (session_at n u.sessions) refl h
  where
    uncounted : (o : Option ℕ) → is_some o ≡ false → get_or o 0 ≡ 0
    uncounted none x = refl
    uncounted (some m) x = cc

    go :
        (o : Option Session)
        → session_at n u.sessions ≡ o
        → (let out : Uploads × Option Text = elim o [
          | none ↦ (u, none)
          | some s ↦
              let ((blocks, after), k) = react e u.in_flight s in
              (record { in_flight = blocks; sessions = put_session n after u.sessions }, k)
        ] in
            out.1)
          ≡ some key
        → Deletes n e key u
    go none f x = cc
    go (some s) f x =
        let c = react-Chosen e u.in_flight s key x in
        let r = session_at-IsSound n s u.sessions f q.sound in
        record {
          session = s;
          found = f;
          unpinned = c.unpinned;
          is_settled = Phase-settled s.settled s.cleaning s.settlements r.phase c.cleans_now;
          is_created = c.is_created;
          unused =
              nobody_holds key u.sessions
                (sym (q.counted key) ∙ uncounted (references key u.in_flight) c.is_free);
        }

-- Whatever uploads do at once: when a cleanup starts to delete a block, its session has settled and
-- created the block, the store has just answered that the block is not pinned, and no session of the
-- node, this one included, holds the block.
pub cleanup-Deletes :
    (xs : List Step) (n : ℕ) (e : Event) (key : Text)
    → (step (happens n e) (run xs no_uploads)).1 ≡ some key
    → Deletes n e key (run xs no_uploads)
cleanup-Deletes xs n e key h =
    step-Deletes n e key (run xs no_uploads) (run-IsCounted xs no_uploads no_uploads-IsCounted) h

-- After any events the in-flight map counts every block as often as there are sessions that hold it,
-- and every session has given its lease back once, if it is committed or its cleanup has ended, and
-- else not yet.
pub in_flight_is_exact :
    (xs : List Step)
    → ((k : Text) → count k (run xs no_uploads).in_flight ≡ holders k (run xs no_uploads).sessions)
      × All (λ (s : Session). Phase s.settled s.cleaning s.settlements) (run xs no_uploads).sessions
in_flight_is_exact xs =
    let q = run-IsCounted xs no_uploads no_uploads-IsCounted in
    (q.counted, phases (run xs no_uploads).sessions q.sound)
  where
    phases :
        (ss : List Session)
        → All IsSound ss
        → All (λ (s : Session). Phase s.settled s.cleaning s.settlements) ss
    phases [] h = tt
    phases (s ∷ ss) h = (h.0.phase, phases ss h.1)
