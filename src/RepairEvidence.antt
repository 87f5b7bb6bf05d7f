-- ===== src/RepairEvidence.antt =====
-- src/storage/repairEvidence.ts: what of a decoded JSON value the validator looks at.
pub mod Trusted
mod Tests
use ipfs_node.Base.Fields.{Field, undefined, null, other, string, boolean, count}
use ipfs_node.Base.Texts.{Text}
use ipfs_node.Base.{
  ℕ, Bool, true, false, ◌&&◌, ◌||◌, not, Option, none, some, [], leb, ltb, ◌==◌, if◌then◌else◌,
}

-- `Partial<RepairCycleEvidence>`
pub record Parsed : Type 0 where
  pub membership_version : Field
  pub policy_version : Field
  pub cursor : Field
  pub started_at : Field
  pub superseded : Field
  pub examined : Field
  pub checked : Field
  pub under_replicated : Field
  pub repaired : Field
  pub still_missing : Field
  pub unrecoverable : Field
  pub last_completed_at : Field
  pub last_completed_successfully : Field
  pub last_completed_backlog : Field
  pub consecutive_unsuccessful_cycles : Field
  pub last_completed_examined : Field
  pub last_completed_still_missing : Field
  pub last_completed_unrecoverable : Field

pub data Value : Type 0 where
  object : Parsed → Value
  not_object : Value

pub record RepairCycleEvidence : Type 0 where
  pub membership_version : Text
  pub policy_version : Text
  pub cursor : Option Text
  pub started_at : ℕ
  pub superseded : Bool
  pub examined : ℕ
  pub checked : ℕ
  pub under_replicated : ℕ
  pub repaired : ℕ
  pub still_missing : ℕ
  pub unrecoverable : ℕ
  pub last_completed_at : Option ℕ
  pub last_completed_successfully : Bool
  pub last_completed_backlog : ℕ
  pub consecutive_unsuccessful_cycles : ℕ
  pub last_completed_examined : ℕ
  pub last_completed_still_missing : ℕ
  pub last_completed_unrecoverable : ℕ

abbrev pub is_count : Field → Bool
is_count (count n) = true
is_count _ = false

abbrev pub is_string : Field → Bool
is_string (string t) = true
is_string _ = false

abbrev pub is_boolean : Field → Bool
is_boolean (boolean b) = true
is_boolean _ = false

abbrev pub is_null : Field → Bool
is_null null = true
is_null _ = false

abbrev pub is_undefined : Field → Bool
is_undefined undefined = true
is_undefined _ = false

-- The value of a field, or a default for one that has another type.
abbrev pub count_or : Field → ℕ → ℕ
count_or (count n) d = n
count_or _ d = d

abbrev pub boolean_or : Field → Bool → Bool
boolean_or (boolean b) d = b
boolean_or _ d = d

abbrev pub string_of : Field → Text
string_of (string t) = t
string_of _ = []

abbrev pub string_option : Field → Option Text
string_option (string t) = some t
string_option _ = none

abbrev pub count_option : Field → Option ℕ
count_option (count n) = some n
count_option _ = none

-- The fields of the cycle that runs.
unfoldable pub cycle_is_valid : Parsed → ℕ → Bool
cycle_is_valid p now =
    is_string p.membership_version
    && (is_string p.policy_version
        && ((is_undefined p.cursor || is_string p.cursor)
            && ((is_count p.started_at && leb (count_or p.started_at 0) now)
                && ((is_undefined p.examined || is_count p.examined)
                    && (is_undefined p.superseded || is_boolean p.superseded)))))

unfoldable pub counts_are_valid : Parsed → Bool
counts_are_valid p =
    is_count p.checked
    && (is_count p.under_replicated
        && (is_count p.repaired && (is_count p.still_missing && is_count p.unrecoverable)))

-- The fields of the last completion.
unfoldable pub completion_is_valid : Parsed → ℕ → Bool
completion_is_valid p now =
    (is_null p.last_completed_at
      || (is_count p.last_completed_at && leb (count_or p.last_completed_at 0) now))
    && (is_boolean p.last_completed_successfully
        && (is_count p.last_completed_backlog
            && ((is_undefined p.consecutive_unsuccessful_cycles
                  || is_count p.consecutive_unsuccessful_cycles)
                && ((is_undefined p.last_completed_examined || is_count p.last_completed_examined)
                    && ((is_undefined p.last_completed_still_missing
                          || is_count p.last_completed_still_missing)
                        && (is_undefined p.last_completed_unrecoverable
                            || is_count p.last_completed_unrecoverable))))))

unfoldable pub is_consistent : Parsed → Bool
is_consistent p =
    leb (count_or p.checked 0) (count_or p.examined (count_or p.checked 0))
    && (not (boolean_or p.last_completed_successfully false)
        || count_or p.last_completed_backlog 0 == 0)

unfoldable pub is_valid : Parsed → ℕ → Bool
is_valid p now =
    cycle_is_valid p now && (counts_are_valid p && (completion_is_valid p now && is_consistent p))

unfoldable pub unsuccessful_cycles : Parsed → ℕ
unsuccessful_cycles p =
    if is_undefined p.consecutive_unsuccessful_cycles
    then if boolean_or p.last_completed_successfully false
      then 0
      else if ltb 0 (count_or p.last_completed_backlog 0)
      then 1
      else 0
    else count_or p.consecutive_unsuccessful_cycles 0

unfoldable pub evidence_of : Parsed → RepairCycleEvidence
unfolding unsuccessful_cycles
evidence_of p = record {
  membership_version = string_of p.membership_version;
  policy_version = string_of p.policy_version;
  cursor = string_option p.cursor;
  started_at = count_or p.started_at 0;
  superseded = boolean_or p.superseded false;
  examined = count_or p.examined (count_or p.checked 0);
  checked = count_or p.checked 0;
  under_replicated = count_or p.under_replicated 0;
  repaired = count_or p.repaired 0;
  still_missing = count_or p.still_missing 0;
  unrecoverable = count_or p.unrecoverable 0;
  last_completed_at = count_option p.last_completed_at;
  last_completed_successfully = boolean_or p.last_completed_successfully false;
  last_completed_backlog = count_or p.last_completed_backlog 0;
  consecutive_unsuccessful_cycles = unsuccessful_cycles p;
  last_completed_examined = count_or p.last_completed_examined 0;
  last_completed_still_missing =
      count_or p.last_completed_still_missing (count_or p.last_completed_backlog 0);
  last_completed_unrecoverable = count_or p.last_completed_unrecoverable 0;
}

unfoldable pub parse_evidence : Value → ℕ → Option RepairCycleEvidence
parse_evidence not_object now = none
parse_evidence (object p) now = if is_valid p now then some (evidence_of p) else none
