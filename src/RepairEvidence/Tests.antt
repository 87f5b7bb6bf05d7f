-- ===== src/RepairEvidence/Tests.antt =====
-- The theorems on repair evidence at a concrete cycle.
use ipfs_node.Base.Texts.{text}
use ipfs_node.Base.{◌≡◌, refl, true, none, some, arith}
use ipfs_node.Base.Fields.{count}
use ipfs_node.RepairEvidence.{
  RepairCycleEvidence, object, parse_evidence, is_valid, cycle_is_valid, counts_are_valid,
  completion_is_valid, is_consistent, Parsed,
}
use ipfs_node.RepairEvidence.Trusted.{
  IsTrusted, at, written, parse_evidence-IsTrusted, parse_evidence-written,
}

abbrev finished_cycle : RepairCycleEvidence
finished_cycle = record {
  membership_version = text "m";
  policy_version = text "p";
  cursor = none;
  started_at = 5;
  superseded = true;
  examined = 4;
  checked = 3;
  under_replicated = 1;
  repaired = 1;
  still_missing = 0;
  unrecoverable = 0;
  last_completed_at = some 7;
  last_completed_successfully = true;
  last_completed_backlog = 0;
  consecutive_unsuccessful_cycles = 0;
  last_completed_examined = 4;
  last_completed_still_missing = 0;
  last_completed_unrecoverable = 0;
}

cycle-IsTrusted : IsTrusted 9 finished_cycle
cycle-IsTrusted = record {
  begun = omega arith;
  finished = at (omega arith);
  bounded = omega arith;
  clean = λ e. refl;
}

parse_evidence-written_example :
    parse_evidence (object (written finished_cycle)) 9 ≡ some finished_cycle
parse_evidence-written_example = parse_evidence-written finished_cycle 9 cycle-IsTrusted

parse_evidence-IsTrusted_example : IsTrusted 9 finished_cycle
parse_evidence-IsTrusted_example =
    parse_evidence-IsTrusted (object (written finished_cycle)) 9 finished_cycle
      (parse_evidence-written finished_cycle 9 cycle-IsTrusted)

-- A completion from the future is not accepted.
abbrev from_the_future : Parsed
from_the_future = record (written finished_cycle) { last_completed_at = count 10 }

future_refused : parse_evidence (object from_the_future) 9 ≡ none
unfolding parse_evidence is_valid cycle_is_valid counts_are_valid completion_is_valid is_consistent
future_refused = refl
