-- ===== src/Collector/Steps.antt =====
-- What the steps of `runGarbageCollection` (src/storage/gc.ts) do to a CID that they are not about, and
-- to one that is confirmed.
use ipfs_node.Base.Texts.{Text, text_eq, text_eq_iff, text_ne}
use ipfs_node.Base.{
  Bool, true, false, ◌≡◌, ◌≢◌, refl, sym, ap, subst, ◌∙◌, inl, inr, ◌&&◌, not, Option, none, some,
  if◌then◌else◌, Bool-cases,
}
use ipfs_node.Registry.{FileRecord, ReplicaStage, ReplicaStageBaseline, is_confirmed}
use ipfs_node.Host.{Host, Error, aggregate, aggregate_one, Result, Done, ok, threw, and_then}
use ipfs_node.Host.Laws.{Post, on_ok, on_threw, HostView, HostLaws, Same}
use ipfs_node.FileRegistry.{get, save}
use ipfs_node.Lifecycle.{pin_file, unpin_file, released_record}
use ipfs_node.Lifecycle.Steps.{
  and_then-Post, or_else-Post, weaken-Post, if-Post, record_at, record_at-cid, get-Post, save-Post,
}
use ipfs_node.Lifecycle.Frame.{
  Keeps, unchanged, in_turn, Stays, Stays-and_then, Stays-or_else, read-Stays, get-Stays,
  pin_file-Stays, unpin_file-Stays, save-Stays, read_as_before,
}
use ipfs_node.Replica.Settling.{
  restore_replica_stage, write_baseline, baseline_of, restage, restage_and_throw,
}
use ipfs_node.Collector.{
  Collector, is_held_confirmed, has_local_dag, undo_repair, repair_pin, check_found, check_one,
  undo_release, release_plain, release_current,
}

-- What Helia is relied on for: a CID with a direct pin is kept, and a question changes nothing.
pub record CollectorLaws (h : Host) (v : HostView h) (c : Collector h) : Type 0 where
  pub is_pinned_lem :
      (k : Text) (w : h.World)
      → Post
          (λ b after. (v.pin_at w k ≡ true → b ≡ true) × Same h v w after)
          (λ e after. Same h v w after)
          (c.is_pinned k w)
  pub query_lem : (prefix : Text) (w : h.World) → Same h v w (c.query prefix w).0

pub both-Post {ℓ κ ν ξ} :
    {W : Type ℓ} {A : Type κ} {Q : A → W → Type ν} {E : Error → W → Type ν} {R : A → W → Type ξ}
    {F : Error → W → Type ξ} {m : W × Result A}
    → Post Q E m
    → Post R F m
    → Post (λ a w. Q a w × R a w) (λ e w. E e w × F e w) m
both-Post (on_ok q) (on_ok r) = on_ok (q, r)
both-Post (on_threw q) (on_threw r) = on_threw (q, r)

module _ (h : Host) (v : HostView h) (k : Text) where
  -- The CID has a confirmed record and a direct pin.
  pub record Durable (w : h.World) : Type 0 where
    pub file : FileRecord
    pub found : record_at h v w k ≡ some file
    pub is_durable : is_confirmed file.state ≡ true
    pub pinned : v.pin_at w k ≡ true

  pub Durable-Keeps : {w after : h.World} → Keeps h v k w after → Durable w → Durable after
  Durable-Keeps q d = record {
    file = d.file;
    found = q.kept_record ∙ d.found;
    is_durable = d.is_durable;
    pinned = q.kept_pin ∙ d.pinned;
  }

  module _ (laws : HostLaws h v) (c : Collector h) (more : CollectorLaws h v c) where
    is_pinned-Stays : (j : Text) (w : h.World) → Stays h v k w (c.is_pinned j w)
    is_pinned-Stays j w =
        read-Stays h v k (λ b after q. q.1) (λ e after q. q) (more.is_pinned_lem j w)

    -- What a read finds: the record of the CID that was asked for.
    get_known :
        (j : Text) (w : h.World)
        → Post
            (λ o after. (o ≡ record_at h v w j) × Keeps h v k w after)
            (λ e after. Keeps h v k w after)
            (get h j w)
    get_known j w =
        weaken-Post (both-Post (get-Post h v laws j w) (get-Stays h v k laws j w))
          (λ o after q. (q.0.0, q.1)) (λ e after q. q.1)

    -- However the call ends, the CID is as before, and an answer is as `P` says.
    abbrev pub StaysWith {ℓ} : {A : Type ℓ} → (A → Type 0) → h.World → h.World × Result A → Type ℓ
    StaysWith P w = Post (λ a after. Keeps h v k w after × P a) (λ e after. Keeps h v k w after)

    -- A step on the record of another CID, or on that of this one, which is confirmed.
    pub get_then {ℓ} :
        {A : Type ℓ} (P : A → Type 0) (f : Option FileRecord → h.World → h.World × Result A)
        (j : Text) (w : h.World)
        → Durable w
        → ((after : h.World) → StaysWith P after (f none after))
        → ((r : FileRecord) (after : h.World) → r.cid ≢ k → StaysWith P after (f (some r) after))
        → ((r : FileRecord) (after : h.World)
            → r.cid ≡ k
            → is_confirmed r.state ≡ true
            → v.pin_at after k ≡ true
            → StaysWith P after (f (some r) after))
        → StaysWith P w (and_then (get h j w) f)
    get_then P f j w d missing other own =
        and_then-Post f (get_known j w)
          (λ o after q.
            weaken-Post (found o after q.0 q.1) (λ a final s. (in_turn h v k q.1 s.0, s.1))
              (λ e final s. in_turn h v k q.1 s))
          (λ e after q. q)
      where
        same_file :
            (r : FileRecord) → some r ≡ record_at h v w j → r.cid ≡ k → r.cid ≡ j → r ≡ d.file
        same_file r e own_cid cid = cc (e, ap (record_at h v w) (sym cid ∙ own_cid), d.found)

        found :
            (o : Option FileRecord) (after : h.World)
            → o ≡ record_at h v w j
            → Keeps h v k w after
            → StaysWith P after (f o after)
        found none after e q = missing after
        found (some r) after e q =
            let cid = record_at-cid h v w j r (sym e) in
            elim (Bool-cases (text_eq r.cid k)) [
              | inl t ↦
                  let own_cid = (text_eq_iff r.cid k).0 t in
                  own r after own_cid
                    (ap (λ (x : FileRecord). is_confirmed x.state) (same_file r e own_cid cid)
                      ∙ d.is_durable)
                    (q.kept_pin ∙ d.pinned)
              | inr t ↦ other r after (text_ne r.cid k t)
            ]

    with_any {ℓ} :
        {A : Type ℓ} {w : h.World} {m : h.World × Result A}
        → Stays h v k w m
        → StaysWith (λ a. Unit) w m
    with_any p = weaken-Post p (λ a after q. (q, tt)) (λ e after q. q)

    repair_pin-Stays :
        (r : FileRecord) (w : h.World) → r.cid ≢ k → Stays h v k w (repair_pin h c r w)
    unfolding repair_pin has_local_dag undo_repair
    repair_pin-Stays r w apart =
        Stays-and_then h v k _
          (Stays-or_else h v k _
            (Stays-and_then h v k _
              (read-Stays h v k (λ s after q. q) (λ e after q. q) (laws.stat_lem r.cid w))
              (λ s after. on_ok (unchanged h v k after)))
            (λ e after. on_ok (unchanged h v k after)))
          (λ is_local known.
            if-Post is_local
              (λ t.
                Stays-and_then h v k _ (pin_file-Stays h v k laws r.cid apart false known)
                  (λ created pinned.
                    Stays-or_else h v k _
                      (Stays-and_then h v k _
                        (save-Stays h v k laws (record r { pinned = true }) pinned apart)
                        (λ s after. on_ok (unchanged h v k after)))
                      (λ e after.
                        if-Post (created && not r.pinned)
                          (λ x.
                            Stays-and_then h v k _ (unpin_file-Stays h v k laws r.cid apart after)
                              (λ b final. on_threw (unchanged h v k final)))
                          (λ x. on_threw (unchanged h v k after)))))
              (λ t. on_threw (unchanged h v k known)))

    pub check_one-Stays :
        (dry : Bool) (j : Text) (w : h.World) → Durable w → Stays h v k w (check_one h c dry j w)
    unfolding check_one check_found
    check_one-Stays true j w d =
        Stays-and_then h v k _ (is_pinned-Stays j w) (λ b after. on_ok (unchanged h v k after))
    check_one-Stays false j w d =
        weaken-Post
          (get_then (λ a. Unit) (check_found h c) j w d
            (λ after. with_any (on_ok (unchanged h v k after)))
            (λ r after apart. with_any (
              if-Post (is_held_confirmed r)
                (λ t. Stays-and_then h v k _ (is_pinned-Stays r.cid after) (λ safe known.
                  if-Post safe (λ x. on_ok (unchanged h v k known))
                    (λ x. repair_pin-Stays r known apart)))
                (λ t. on_ok (unchanged h v k after))))
            (λ r after own durable pinned. with_any (
              if-Post (is_held_confirmed r)
                (λ t.
                  and_then-Post _ (more.is_pinned_lem r.cid after)
                    (λ safe known q.
                      if-Post safe (λ x. on_ok (read_as_before h v k q.1))
                        (λ x. absurd (
                          unsafe safe x
                            (q.0 (subst (λ i. v.pin_at after i ≡ true) (sym own) pinned)))))
                    (λ e known q. read_as_before h v k q))
                (λ t. on_ok (unchanged h v k after)))))
          (λ a after q. q.0) (λ e after q. q)
      where
        unsafe : (b : Bool) → b ≡ false → b ≡ true → ⊥
        unsafe b x y = cc

    restage-Stays :
        (removed : Bool) (r : FileRecord) (w : h.World)
        → r.cid ≢ k
        → Stays h v k w (restage h removed r w)
    unfolding restage
    restage-Stays removed r w apart = Stays-and_then h v k _ (repinned removed) (λ b pinned.
        Stays-and_then h v k _ (save-Stays h v k laws r pinned apart)
          (λ s after. on_ok (unchanged h v k after)))
      where
        repinned :
            (b : Bool) → Stays h v k w (if b then pin_file h false r.cid w else (w, ok false))
        repinned true = pin_file-Stays h v k laws r.cid apart false w
        repinned false = on_ok (unchanged h v k w)

    restage_and_throw-Stays {ℓ} :
        {A : Type ℓ} (removed : Bool) (r : FileRecord) (e : Error) (w : h.World)
        → r.cid ≢ k
        → Stays h v k {A = A} w (restage_and_throw h removed r e w)
    unfolding restage_and_throw
    restage_and_throw-Stays {A = A} removed r e w apart =
        go (restage h removed r w) (restage-Stays removed r w apart)
      where
        go :
            (m : h.World × Result Done)
            → Stays h v k w m
            → Stays h v k w (
                let (after, result) = m in
                let answer : h.World × Result A = elim result [
                  | ok u ↦ (after, threw (aggregate e))
                  | threw x ↦ (after, threw (aggregate_one e x))
                ] in
                answer)
        go _ (on_ok q) = on_threw q
        go _ (on_threw q) = on_threw q

    write_baseline-Stays :
        (removed : Bool) (r : FileRecord) (b : Option ReplicaStageBaseline) (w : h.World)
        → r.cid ≢ k
        → Stays h v k w (write_baseline h removed r b true w)
    unfolding write_baseline baseline_of
    write_baseline-Stays removed r none w apart =
        Stays-and_then h v k _ (save-Stays h v k laws (baseline_of r none) w apart)
          (λ s after. on_ok (unchanged h v k after))
    write_baseline-Stays removed r (some b) w apart =
        Stays-and_then h v k _ (save-Stays h v k laws (baseline_of r (some b)) w apart)
          (λ s after. on_ok (unchanged h v k after))

    pub release_current-Stays :
        (r : FileRecord) (w : h.World) → r.cid ≢ k → Stays h v k w (release_current h c r w)
    unfolding release_current restore_replica_stage release_plain undo_release released_record
    release_current-Stays r w apart = go r.replica_stage
      where
        go :
            (s : Option ReplicaStage)
            → Stays h v k {A = Option FileRecord} w (elim s [
              | none ↦ release_plain h c r w
              | some x ↦ restore_replica_stage h r x.previous true w
            ])
        go none =
            Stays-and_then h v k _ (unpin_file-Stays h v k laws r.cid apart w) (λ removed unpinned.
              Stays-or_else h v k _
                (Stays-and_then h v k _ (save-Stays h v k laws (released_record r) unpinned apart)
                  (λ s after. on_ok (unchanged h v k after)))
                (λ e after.
                  if-Post (removed && r.pinned)
                    (λ t.
                      Stays-and_then h v k _ (pin_file-Stays h v k laws r.cid apart false after)
                        (λ b final. on_threw (unchanged h v k final)))
                    (λ t. on_threw (unchanged h v k after))))
        go (some x) =
            Stays-and_then h v k _ (unpin_file-Stays h v k laws r.cid apart w)
              (λ removed unpinned. write_baseline-Stays removed r x.previous unpinned apart)

    -- The record that is answered is one of the file that was released.
    save-cid :
        (r : FileRecord) (w : h.World)
        → Post (λ s after. s.cid ≡ r.cid) (λ e after. Unit) (save h r w)
    save-cid r w =
        weaken-Post (save-Post h v laws r w) (λ s after q. ap (λ (x : FileRecord). x.cid) q.1)
          (λ e after q. tt)

    -- Whatever the call answers.
    abbrev Anything {ℓ} : {A : Type ℓ} → h.World × Result A → Type ℓ
    Anything = Post (λ a after. Unit {0}) (λ e after. Unit {0})

    anything {ℓ} : {A : Type ℓ} (m : h.World × Result A) → Anything m
    anything (w, ok a) = on_ok tt
    anything (w, threw e) = on_threw tt

    abbrev pub Names {ℓ} : {E : Type ℓ} → Text → Option FileRecord → E → Type 0
    Names j o after = (s : FileRecord) → o ≡ some s → s.cid ≡ j

    saved-Names :
        (j : Text) (r : FileRecord) (w : h.World)
        → r.cid ≡ j
        → Post (Names j) (λ e after. Unit) (and_then (save h r w) (λ s after. (after, ok (some s))))
    saved-Names j r w own =
        and_then-Post _ (save-cid r w) (λ s after q. on_ok (λ x e. cc (e, q, own)))
          (λ e after q. tt)

    throws-Names :
        (j : Text) (m : h.World × Result Bool) (e : Error)
        → Post (Names j) (λ x after. Unit) (and_then m (λ b after. (after, threw e)))
    throws-Names j m e = and_then-Post _ (anything m) (λ b after q. on_threw tt) (λ x after q. tt)

    pub release_current-Names :
        (r : FileRecord) (w : h.World)
        → Post (Names r.cid) (λ e after. Unit) (release_current h c r w)
    unfolding release_current restore_replica_stage release_plain undo_release released_record
        write_baseline baseline_of
    release_current-Names r w = go r.replica_stage
      where
        baseline :
            (removed : Bool) (b : Option ReplicaStageBaseline) (after : h.World)
            → Post (Names r.cid) (λ e final. Unit) (write_baseline h removed r b true after)
        baseline removed none after = saved-Names r.cid (baseline_of r none) after refl
        baseline removed (some b) after = saved-Names r.cid (baseline_of r (some b)) after refl

        go :
            (s : Option ReplicaStage)
            → Post {W = h.World} {A = Option FileRecord}
                (Names r.cid)
                (λ e after. Unit {0})
                (elim s [
                  | none ↦ release_plain h c r w
                  | some x ↦ restore_replica_stage h r x.previous true w
                ])
        go none =
            and_then-Post _ (anything (unpin_file h r.cid w))
              (λ removed unpinned q.
                or_else-Post _ (saved-Names r.cid (released_record r) unpinned refl)
                  (λ o after x. x)
                  (λ e after x.
                    if-Post (removed && r.pinned) (λ t. throws-Names r.cid _ e) (λ t. on_threw tt)))
              (λ e after q. tt)
        go (some x) =
            and_then-Post _ (anything (unpin_file h r.cid w))
              (λ removed unpinned q. baseline removed x.previous unpinned) (λ e after q. tt)
