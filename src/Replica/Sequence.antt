-- ===== src/Replica/Sequence.antt =====
-- About sequences of stages, commits and aborts of one CID, by any transactions, any of which may fail
-- (src/storage/replicaStage.ts).
use ipfs_node.Base.Texts.{Text, text_eq, text_eq_iff}
use ipfs_node.Base.{
  Bool, true, false, ◌≡◌, ◌≢◌, refl, sym, subst, ◌∙◌, inl, inr, List, [], ◌∷◌, ◌++◌, arith,
  Bool-cases,
}
use ipfs_node.Registry.{contains, set_delete}
use ipfs_node.Host.{Host, Result}
use ipfs_node.Host.Laws.{on_ok, on_threw, HostView, HostLaws}
use ipfs_node.Tombstones.{Tombstones}
use ipfs_node.Replica.{ReplicaStageTarget, stage_replica}
use ipfs_node.Replica.Settling.{SettleReplicaOptions, commit_replica, abort_replica}
use ipfs_node.Replica.Diagram.{
  Copy, durable, prepared, Stages, first, first_known, join, again, adopt, adopt_known, protect,
  Commits, settle, settled, Aborts, leave, last, miss,
}
use ipfs_node.Replica.Outcome.{copy_at}
use ipfs_node.Replica.Moves.{Moves}
use ipfs_node.Replica.Stage.{stage_replica-Stages}
use ipfs_node.Replica.Commit.{commit_replica-Commits}
use ipfs_node.Replica.Abort.{abort_replica-Aborts}

pub data Operation : Type 0 where
  stage : ReplicaStageTarget → Operation
  commit : SettleReplicaOptions → Operation
  abort : SettleReplicaOptions → Operation

-- A copy that the transaction can count on: it is prepared for the transaction, or durable.
pub data CountsOn (t : Text) : Copy → Type 0 where
  is_prepared : {b : Bool} {ids : List Text} → contains t ids ≡ true → CountsOn t (prepared b ids)
  is_durable : CountsOn t durable

-- `stageReplica` and `commitReplica` of any transaction, and `abortReplica` of another one.
pub data Spares (t : Text) : Operation → Type 0 where
  by_stage : {o : ReplicaStageTarget} → Spares t (stage o)
  by_commit : {o : SettleReplicaOptions} → Spares t (commit o)
  by_abort : {o : SettleReplicaOptions} → o.transaction_id ≢ t → Spares t (abort o)

pub data AllSpare (t : Text) : List Operation → Type 0 where
  done : AllSpare t []
  beside :
      {op : Operation} {ops : List Operation} → Spares t op → AllSpare t ops → AllSpare t (op ∷ ops)

module _ (h : Host) where
  -- What an operation on a CID leaves, whether it returns or throws.
  unfoldable pub perform : Text → Operation → Tombstones × h.World → Tombstones × h.World
  perform k (stage o) (ts, w) =
      let (marks, (after, result)) = stage_replica h (record o { cid = k }) ts w in (marks, after)
  perform k (commit o) (ts, w) =
      let (after, result) = commit_replica h (record o { cid = k }) w in (ts, after)
  perform k (abort o) (ts, w) =
      let (marks, (after, result)) = abort_replica h (record o { cid = k }) ts w in (marks, after)

  unfoldable pub perform_all : Text → List Operation → Tombstones × h.World → Tombstones × h.World
  perform_all k [] s = s
  perform_all k (op ∷ ops) s = perform_all k ops (perform k op s)

contains-append :
    (t : Text) (ids more : List Text) → contains t ids ≡ true → contains t (ids ++ more) ≡ true
unfolding contains
contains-append t [] more h = cc
contains-append t (x ∷ ids) more h = ground (arith, contains-append t ids more, h)

contains-delete :
    (t u : Text) (ids : List Text)
    → u ≢ t
    → contains t ids ≡ true
    → contains t (set_delete u ids) ≡ true
unfolding contains set_delete
contains-delete t u [] n h = cc
contains-delete t u (x ∷ ids) n h = elim (Bool-cases (text_eq u x)) [
  | inl e ↦ rw e (contains-delete t u ids n (ground (arith, h, apart e)))
  | inr e ↦ rw e (ground (arith, contains-delete t u ids n, h))
]
  where
    apart : text_eq u x ≡ true → text_eq t x ≡ false
    apart e = elim (Bool-cases (text_eq t x)) [
      | inl f ↦ absurd (n ((text_eq_iff u x).0 e ∙ sym ((text_eq_iff t x).0 f)))
      | inr f ↦ f
    ]

contains-nil : (t : Text) (ids : List Text) → ids ≡ [] → contains t ids ≡ true → ⊥
unfolding contains
contains-nil t [] e h = cc
contains-nil t (x ∷ ids) e h = cc

stage_keeps : (t u : Text) (c d : Copy) → Stages u c d → CountsOn t c → CountsOn t d
stage_keeps t u c d first q = elim q [ ]
stage_keeps t u c d first_known q = elim q [ ]
stage_keeps t u c d adopt q = is_durable
stage_keeps t u c d adopt_known q = is_durable
stage_keeps t u c d (join {ids = ids} e) (is_prepared m) =
    is_prepared (contains-append t ids (u ∷ []) m)
stage_keeps t u c d (again e) q = q
stage_keeps t u c d protect q = q

commit_keeps : (t u : Text) (c d : Copy) → Commits u c d → CountsOn t c → CountsOn t d
commit_keeps t u c d (settle e) q = is_durable
commit_keeps t u c d settled q = q

abort_keeps : (t u : Text) (c d : Copy) → u ≢ t → Aborts u c d → CountsOn t c → CountsOn t d
abort_keeps t u c d n (leave {ids = ids} e f) (is_prepared m) =
    is_prepared (contains-delete t u ids n m)
abort_keeps t u c d n (last {ids = ids} e f) (is_prepared m) =
    absurd (contains-nil t (set_delete u ids) f (contains-delete t u ids n m))
abort_keeps t u c d n (miss e) q = q

commit_stays : (u : Text) (d : Copy) → Commits u durable d → d ≡ durable
commit_stays u d settled = refl

stage_stays : (u : Text) (d : Copy) → Stages u durable d → d ≡ durable
stage_stays u d protect = refl

abort_stays : (u : Text) (d : Copy) → Aborts u durable d → d ≡ durable
abort_stays u d (miss e) = refl

module _ (h : Host) (v : HostView h) where
  -- What a move keeps, a call that moves keeps, even where it throws.
  kept {ℓ} :
      {A : Type ℓ} (P : Copy → Type 0) (M : Copy → Copy → Type 0) (k : Text) (c : Copy)
      {m : h.World × Result A}
      → ((d : Copy) → M c d → P d)
      → P c
      → Moves h v k M c m
      → P (copy_at h v m.0 k)
  kept P M k c each now (on_ok q) = each _ q
  kept P M k c each now (on_threw (inl q)) = each _ q
  kept P M k c each now (on_threw (inr q)) = subst P (sym q) now

  module _ (laws : HostLaws h v) (k : Text) where
    perform-CountsOn :
        (t : Text) (op : Operation) (s : Tombstones × h.World)
        → Spares t op
        → CountsOn t (copy_at h v s.1 k)
        → CountsOn t (copy_at h v (perform h k op s).1 k)
    unfolding perform
    perform-CountsOn t (stage o) (ts, w) spares now =
        kept (CountsOn t) (Stages o.transaction_id) k _
          (λ d move. stage_keeps t o.transaction_id _ d move now) now
          (stage_replica-Stages h v laws (record o { cid = k }) ts w)
    perform-CountsOn t (commit o) (ts, w) spares now =
        kept (CountsOn t) (Commits o.transaction_id) k _
          (λ d move. commit_keeps t o.transaction_id _ d move now) now
          (commit_replica-Commits h v laws (record o { cid = k }) w)
    perform-CountsOn t (abort o) (ts, w) (by_abort n) now =
        kept (CountsOn t) (Aborts o.transaction_id) k _
          (λ d move. abort_keeps t o.transaction_id _ d n move now) now
          (abort_replica-Aborts h v laws (record o { cid = k }) ts w)

    -- A copy that is prepared for a transaction stays prepared for it or becomes durable, through any
    -- sequence of stages and commits of any transactions and of aborts of other ones, whichever of
    -- them fail.
    pub perform_all-CountsOn :
        (t : Text) (ops : List Operation) (s : Tombstones × h.World)
        → AllSpare t ops
        → CountsOn t (copy_at h v s.1 k)
        → CountsOn t (copy_at h v (perform_all h k ops s).1 k)
    unfolding perform_all
    perform_all-CountsOn t [] s spares now = now
    perform_all-CountsOn t (op ∷ ops) s (beside one more) now =
        perform_all-CountsOn t ops (perform h k op s) more (perform-CountsOn t op s one now)

    perform-durable :
        (op : Operation) (s : Tombstones × h.World)
        → copy_at h v s.1 k ≡ durable
        → copy_at h v (perform h k op s).1 k ≡ durable
    unfolding perform
    perform-durable (stage o) (ts, w) now =
        kept (λ c. c ≡ durable) (Stages o.transaction_id) k _
          (λ d move. stage_stays _ d (subst (λ c. Stages o.transaction_id c d) now move)) now
          (stage_replica-Stages h v laws (record o { cid = k }) ts w)
    perform-durable (commit o) (ts, w) now =
        kept (λ c. c ≡ durable) (Commits o.transaction_id) k _
          (λ d move. commit_stays _ d (subst (λ c. Commits o.transaction_id c d) now move)) now
          (commit_replica-Commits h v laws (record o { cid = k }) w)
    perform-durable (abort o) (ts, w) now =
        kept (λ c. c ≡ durable) (Aborts o.transaction_id) k _
          (λ d move. abort_stays _ d (subst (λ c. Aborts o.transaction_id c d) now move)) now
          (abort_replica-Aborts h v laws (record o { cid = k }) ts w)

    -- A durable copy stays durable through any sequence of stages, commits and aborts, whichever of
    -- them fail.
    pub perform_all-durable :
        (ops : List Operation) (s : Tombstones × h.World)
        → copy_at h v s.1 k ≡ durable
        → copy_at h v (perform_all h k ops s).1 k ≡ durable
    unfolding perform_all
    perform_all-durable [] s now = now
    perform_all-durable (op ∷ ops) s now =
        perform_all-durable ops (perform h k op s) (perform-durable op s now)
