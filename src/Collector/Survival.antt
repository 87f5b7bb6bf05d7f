-- ===== src/Collector/Survival.antt =====
-- About one confirmed and pinned file during `runGarbageCollection` (src/storage/gc.ts).
use ipfs_node.Base.Texts.{Text}
use ipfs_node.Base.{
  Bool, true, false, ◌≡◌, ◌≢◌, refl, sym, ◌∙◌, ◌&&◌, ◌||◌, not, Option, none, some, List, [], ◌∷◌,
  filter, if◌then◌else◌, arith,
}
use ipfs_node.Registry.{FileRecord, nonempty}
use ipfs_node.Host.{Host, Error, Result, ok, threw, and_then}
use ipfs_node.Host.Laws.{on_ok, on_threw, HostView, HostLaws}
use ipfs_node.FileRegistry.{keep, remove, transition, apply_transition, registry_prefix, listed}
use ipfs_node.Admission.{same_revision}
use ipfs_node.Gc.Plan.{GcPlan, plan_garbage_collection}
use ipfs_node.Lifecycle.Steps.{and_then-Post, weaken-Post, if-Post}
use ipfs_node.Lifecycle.Frame.{
  Keeps, unchanged, in_turn, Stays, Stays-and_then, world_left, get-Stays, remove_record-Stays,
  read_as_before,
}
use ipfs_node.Collector.{
  Collector, GcRunOptions, GcReport, GcEvent, GcFailure, release_failed, is_held_confirmed,
  is_as_planned, check_one, check_each, note_check, release_found, release_one, release_each,
  cleanup_one, cleanup_each, revision_of, finish_run, carry_out, run_plan, run_garbage_collection,
  all_records, is_missing_store, report_of, input_of, some_not_deleted, cleanup_failed,
}
use ipfs_node.Collector.Steps.{
  CollectorLaws, Durable, Durable-Keeps, StaysWith, get_then, check_one-Stays,
  release_current-Stays, release_current-Names, both-Post,
}

module _ (h : Host) (v : HostView h) (k : Text) (laws : HostLaws h v) (c : Collector h)
    (more : CollectorLaws h v c) where
  -- The released record is not one of the CID.
  abbrev IsOther : Option FileRecord → Type 0
  IsOther o = (s : FileRecord) → o ≡ some s → s.cid ≢ k

  release_one-Stays :
      (selected : FileRecord) (w : h.World)
      → Durable h v k w
      → StaysWith h v k laws c more IsOther w (release_one h c selected w)
  unfolding release_one release_found is_as_planned
  release_one-Stays selected w d =
      get_then h v k laws c more IsOther (release_found h c selected) selected.cid w d
        (λ after. on_ok (unchanged h v k after, λ s e. cc))
        (λ r after apart.
          if-Post (is_as_planned (c.process after) selected r)
            (λ t.
              weaken-Post
                (both-Post (release_current-Stays h v k laws c more r after apart)
                  (release_current-Names h v k laws c more r after))
                (λ o final q. (q.0, λ s e same. apart (sym (q.1 s e) ∙ same))) (λ e final q. q.0))
            (λ t. on_ok (unchanged h v k after, λ s e. cc)))
        (λ r after own durable pinned.
          if-Post (is_as_planned (c.process after) selected r)
            (λ t. absurd (impossible _ _ _ durable t))
            (λ t. on_ok (unchanged h v k after, λ s e. cc)))
    where
      impossible : (a b d : Bool) → b ≡ true → (a && (not b && d)) ≡ true → ⊥
      impossible a b d e t = ground (arith, e, t)

  data Others : List FileRecord → Type 0 where
    none_left : Others []
    and_other : {r : FileRecord} {rs : List FileRecord} → r.cid ≢ k → Others rs → Others (r ∷ rs)

  cleanup_one-Stays :
      (r : FileRecord) (w : h.World) → r.cid ≢ k → Stays h v k w (cleanup_one h c r w)
  unfolding cleanup_one transition apply_transition and_then
  cleanup_one-Stays r w apart =
      Stays-and_then h v k _ (get-Stays h v k laws r.cid w)
        (λ current known. chosen (same_revision (revision_of current) r.revision) known)
    where
      chosen :
          (b : Bool) (known : h.World)
          → Stays h v k known (apply_transition h r.cid (if b then remove else keep) known)
      chosen true known =
          Stays-and_then h v k _ (remove_record-Stays h v k laws r.cid apart known)
            (λ d after. on_ok (unchanged h v k after))
      chosen false known = on_ok (unchanged h v k known)

  check_each-Keeps :
      ((w : h.World) → Keeps h v k w (c.others w))
      → (dry : Bool) (rs : List FileRecord) (report : GcReport) (w : h.World) → Durable h v k w
      → Keeps h v k w (check_each h c dry rs report w).0
  unfolding check_each
  check_each-Keeps alone dry [] report w d = unchanged h v k w
  check_each-Keeps alone dry (r ∷ rs) report w d =
      let first = alone w in
      let run = check_one h c dry r.cid (c.others w) in
      let then_kept =
        world_left h v k (
          check_one-Stays h v k laws c more dry r.cid (c.others w) (Durable-Keeps h v k first d)) in
      let so_far = in_turn h v k first then_kept in
      in_turn h v k so_far (
        check_each-Keeps alone dry rs (note_check r.cid run.1 report) run.0
          (Durable-Keeps h v k so_far d))

  -- What the loop over the released files leaves.
  abbrev Released : h.World → h.World × (List FileRecord × List GcFailure) → Type 0
  Released w (after, (released, errors)) = Keeps h v k w after × Others released

  release_each-Released :
      ((w : h.World) → Keeps h v k w (c.others w))
      → (rs : List FileRecord) (w : h.World) → Durable h v k w
      → Released w (release_each h c rs w)
  unfolding release_each
  release_each-Released alone [] w d = (unchanged h v k w, none_left)
  release_each-Released alone (r ∷ rs) w d =
      let first = alone w in
      answer first (release_one h c r (c.others w))
        (release_one-Stays r (c.others w) (Durable-Keeps h v k first d))
        (λ after q. release_each-Released alone rs after (Durable-Keeps h v k q d))
    where
      answer :
          Keeps h v k w (c.others w)
          → (m : h.World × Result (Option FileRecord))
          → StaysWith h v k laws c more IsOther (c.others w) m
          → ((after : h.World) → Keeps h v k w after → Released after (release_each h c rs after))
          → Released w (
              let (after, result) = m in
              let (final, (released, errors)) = release_each h c rs after in
              let out : h.World × (List FileRecord × List GcFailure) = elim result [
                | ok o ↦ elim o [
                  | none ↦ (final, (released, errors))
                  | some s ↦ (final, (s ∷ released, errors))
                ]
                | threw e ↦ (final, (released, release_failed r.cid e ∷ errors))
              ] in
              out)
      answer first (after, ok none) (on_ok q) rest =
          let so_far = in_turn h v k first q.0 in
          let more_kept = rest after so_far in (in_turn h v k so_far more_kept.0, more_kept.1)
      answer first (after, ok (some s)) (on_ok q) rest =
          let so_far = in_turn h v k first q.0 in
          let more_kept = rest after so_far in
          (in_turn h v k so_far more_kept.0, and_other (q.1 s refl) more_kept.1)
      answer first (after, threw e) (on_threw q) rest =
          let so_far = in_turn h v k first q in
          let more_kept = rest after so_far in (in_turn h v k so_far more_kept.0, more_kept.1)

  cleanup_each-Keeps :
      ((w : h.World) → Keeps h v k w (c.others w))
      → (rs : List FileRecord) (w : h.World) → Others rs
      → Keeps h v k w (cleanup_each h c rs w).0
  unfolding cleanup_each
  cleanup_each-Keeps alone [] w q = unchanged h v k w
  cleanup_each-Keeps alone (r ∷ rs) w (and_other apart q) =
      answer (alone w) (cleanup_one h c r (c.others w)) (cleanup_one-Stays r (c.others w) apart)
        (λ after. cleanup_each-Keeps alone rs after q)
    where
      answer :
          Keeps h v k w (c.others w)
          → (m : h.World × Result (Option FileRecord)) → Stays h v k (c.others w) m
          → ((after : h.World) → Keeps h v k after (cleanup_each h c rs after).0)
          → Keeps h v k w (
              let (after, result) = m in
              let (final, errors) = cleanup_each h c rs after in
              let out : h.World × List GcFailure = elim result [
                | ok s ↦ (final, errors)
                | threw e ↦ (final, cleanup_failed r.cid e ∷ errors)
              ] in
              out.0)
      answer first (after, ok s) (on_ok t) rest = in_turn h v k (in_turn h v k first t) (rest after)
      answer first (after, threw e) (on_threw t) rest =
          in_turn h v k (in_turn h v k first t) (rest after)

  finish_run-Stays :
      ((w : h.World) → Keeps h v k w (c.others w))
      → (released : List FileRecord) (report : GcReport) (events : List GcEvent) (w : h.World)
      → Others released
      → Stays h v k w (finish_run h c released report events w)
  unfolding finish_run
  finish_run-Stays alone released report events w q =
      if-Post (some_not_deleted events) (λ t. on_ok (unchanged h v k w))
        (λ t. on_ok (cleanup_each-Keeps alone released w q))

  carry_out-Stays :
      ((w : h.World) → Keeps h v k w (c.others w))
      → ((w : h.World) → Stays h v k w (c.with_lease c.gc w))
      → (collect : Bool) (planned : List FileRecord) (report : GcReport) (w : h.World)
      → Durable h v k w
      → Stays h v k w (carry_out h c collect planned report w)
  unfolding carry_out
  carry_out-Stays alone leased collect planned report w d =
      let q = release_each-Released alone planned w d in
      if-Post collect
        (λ t.
          weaken-Post
            (Stays-and_then h v k _ (leased (c.others (release_each h c planned w).0))
              (λ events after.
                finish_run-Stays alone (release_each h c planned w).1.0 _ events after q.1))
            (λ a final s. in_turn h v k (in_turn h v k q.0 (alone _)) s)
            (λ e final s. in_turn h v k (in_turn h v k q.0 (alone _)) s))
        (λ t. on_ok q.0)

  run_plan-Stays :
      ((w : h.World) → Keeps h v k w (c.others w))
      → ((w : h.World) → Stays h v k w (c.with_lease c.gc w))
      → (o : GcRunOptions) (plan : GcPlan) (w : h.World) → Durable h v k w
      → Stays h v k w (run_plan h c o plan w)
  unfolding run_plan
  run_plan-Stays alone leased o plan w d =
      let checked =
        check_each h c o.dry_run (filter is_held_confirmed plan.retained) (report_of o plan) w in
      let q =
        check_each-Keeps alone o.dry_run (filter is_held_confirmed plan.retained) (report_of o plan)
          w d in
      if-Post (o.dry_run || nonempty checked.1.unprotected) (λ t. on_ok q)
        (λ t.
          weaken-Post
            (carry_out-Stays alone leased _ _ checked.1 checked.0 (Durable-Keeps h v k q d))
            (λ a final s. in_turn h v k q s) (λ e final s. in_turn h v k q s))

  -- A file with a confirmed record and a direct pin keeps both through a collection run, whatever the
  -- plan, the options and the failures of the run, as long as no other task touches its record or pin.
  pub run_garbage_collection-Stays :
      ((w : h.World) → Keeps h v k w (c.others w))
      → ((w : h.World) → Stays h v k w (c.with_lease c.gc w))
      → (o : GcRunOptions) (w : h.World) → Durable h v k w
      → Stays h v k w (run_garbage_collection h c o w)
  unfolding run_garbage_collection all_records
  run_garbage_collection-Stays alone leased o w d =
      let listed_then = read_as_before h v k (more.query_lem registry_prefix w) in
      and_then-Post _ (records (c.query registry_prefix w) listed_then)
        (λ rs known q.
          weaken-Post
            (run_plan-Stays alone leased o
              (plan_garbage_collection (c.process known) (input_of o rs)) known
              (Durable-Keeps h v k q d))
            (λ a final s. in_turn h v k q s) (λ e final s. in_turn h v k q s))
        (λ e known q. q)
    where
      records :
          (m : h.World × (List (Text × h.Bytes) × Option Error))
          → Keeps h v k w m.0
          → Stays h v k w (
              let (after, (entries, failed)) = m in
              let out : h.World × Result (List FileRecord) = elim failed [
                | none ↦ (after, ok (listed h entries))
                | some e ↦
                    if is_missing_store h c e
                    then (after, ok (listed h entries))
                    else (after, threw e)
              ] in
              out)
      records (after, (entries, none)) q = on_ok q
      records (after, (entries, some e)) q =
          if-Post (is_missing_store h c e) (λ t. on_ok q) (λ t. on_threw q)
