-- ===== src/Upload/Tests.antt =====
-- The theorems on uploads at concrete events: two requests import the same block, and one fails.
use ipfs_node.Base.Texts.{Text, text, text_eq}
use ipfs_node.Base.{◌≡◌, refl, true, false, some, List, [], ◌∷◌, All}
use ipfs_node.Registry.{contains}
use ipfs_node.Upload.{
  Session, Step, opens, happens, put_started, put_finished, commits, cleans, pin_answered, step,
  run, no_uploads, react, session_at, put_session, touch_block, record_block, retain_block,
  release_block, release_all, references, set_references, drop_references, commit, begin_cleanup,
  continue_cleanup, visit, nth, may_delete, is_block_in_flight,
}
use ipfs_node.Upload.Counts.{count}
use ipfs_node.Upload.Invariant.{Phase, holders}
use ipfs_node.Upload.Cleanup.{Deletes, cleanup-Deletes, in_flight_is_exact}

abbrev two_uploads : List Step
two_uploads =
    opens
    ∷ opens
    ∷ happens 0 (put_started (text "a"))
    ∷ happens 0 (put_finished (text "a") false 7)
    ∷ happens 1 (put_started (text "a"))
    ∷ happens 1 (put_finished (text "a") true 7)
    ∷ []

abbrev one_failed : List Step
one_failed =
    opens
    ∷ happens 0 (put_started (text "a"))
    ∷ happens 0 (put_finished (text "a") false 7)
    ∷ happens 0 cleans
    ∷ []

-- A write that was under way when the cleanup began takes a reference that nobody gives back.
abbrev late_steps : List Step
late_steps =
    opens
    ∷ happens 0 cleans
    ∷ happens 0 (put_started (text "a"))
    ∷ happens 0 (pin_answered false)
    ∷ happens 0 commits
    ∷ happens 0 cleans
    ∷ []

late_put_stays : count (text "a") (run late_steps no_uploads).in_flight ≡ 1
unfolding run step react session_at put_session touch_block contains retain_block references
    set_references begin_cleanup release_all continue_cleanup visit nth commit text_eq
late_put_stays = refl

counted_twice : count (text "a") (run two_uploads no_uploads).in_flight ≡ 2
unfolding run step react session_at put_session touch_block record_block contains retain_block
    references set_references text_eq
counted_twice = refl

deletes_a : (step (happens 0 (pin_answered false)) (run one_failed no_uploads)).1 ≡ some (text "a")
unfolding run step react session_at put_session touch_block record_block contains retain_block
    references set_references begin_cleanup release_all release_block drop_references
    continue_cleanup visit nth may_delete is_block_in_flight text_eq
deletes_a = refl

cleanup-Deletes_example : Deletes 0 (pin_answered false) (text "a") (run one_failed no_uploads)
cleanup-Deletes_example = cleanup-Deletes one_failed 0 (pin_answered false) (text "a") deletes_a

in_flight_is_exact_example :
    ((k : Text)
      → count k (run two_uploads no_uploads).in_flight
        ≡ holders k (run two_uploads no_uploads).sessions)
    × All
        (λ (s : Session). Phase s.settled s.cleaning s.settlements)
        (run two_uploads no_uploads).sessions
in_flight_is_exact_example = in_flight_is_exact two_uploads
