-- ===== src/RepairEvidence/Trusted.antt =====
-- About the evidence that a node accepts from its datastore (src/storage/repairEvidence.ts).
use ipfs_node.Base.Texts.{Text}
use ipfs_node.Base.{
  ℕ, ◌≤◌, Bool, true, false, ◌≡◌, refl, ap, subst, ◌∙◌, ◌&&◌, ◌||◌, Option, none, some, leb,
  if◌then◌else◌, arith, leb→le, le→leb,
}
use ipfs_node.Base.Fields.{Field, undefined, null, other, string, boolean, count}
use ipfs_node.RepairEvidence.{
  Parsed, Value, object, not_object, RepairCycleEvidence, is_count, is_string, is_null,
  is_undefined, count_or, string_option, count_option, cycle_is_valid, counts_are_valid,
  completion_is_valid, is_consistent, is_valid, unsuccessful_cycles, evidence_of, parse_evidence,
}

-- Not stamped ahead of the clock.
pub data NotAfter (now : ℕ) : Option ℕ → Type 0 where
  never : NotAfter now none
  at : {t : ℕ} → t ≤ now → NotAfter now (some t)

pub record IsTrusted (now : ℕ) (e : RepairCycleEvidence) : Type 0 where
  pub begun : e.started_at ≤ now
  pub finished : NotAfter now e.last_completed_at
  pub bounded : e.checked ≤ e.examined
  pub clean : e.last_completed_successfully ≡ true → e.last_completed_backlog ≡ 0

-- The JSON object of an evidence.
abbrev pub string_field : Option Text → Field
string_field none = undefined
string_field (some t) = string t

abbrev pub count_field : Option ℕ → Field
count_field none = null
count_field (some n) = count n

abbrev pub written : RepairCycleEvidence → Parsed
written e = record {
  membership_version = string e.membership_version;
  policy_version = string e.policy_version;
  cursor = string_field e.cursor;
  started_at = count e.started_at;
  superseded = boolean e.superseded;
  examined = count e.examined;
  checked = count e.checked;
  under_replicated = count e.under_replicated;
  repaired = count e.repaired;
  still_missing = count e.still_missing;
  unrecoverable = count e.unrecoverable;
  last_completed_at = count_field e.last_completed_at;
  last_completed_successfully = boolean e.last_completed_successfully;
  last_completed_backlog = count e.last_completed_backlog;
  consecutive_unsuccessful_cycles = count e.consecutive_unsuccessful_cycles;
  last_completed_examined = count e.last_completed_examined;
  last_completed_still_missing = count e.last_completed_still_missing;
  last_completed_unrecoverable = count e.last_completed_unrecoverable;
}

not_after :
    (now : ℕ) (f : Field)
    → (is_null f || (is_count f && leb (count_or f 0) now)) ≡ true
    → NotAfter now (count_option f)
not_after now undefined h = never
not_after now null h = never
not_after now other h = never
not_after now (string t) h = never
not_after now (boolean b) h = never
not_after now (count n) h = at (leb→le n now h)

evidence-IsTrusted : (p : Parsed) (now : ℕ) → is_valid p now ≡ true → IsTrusted now (evidence_of p)
unfolding is_valid cycle_is_valid completion_is_valid is_consistent evidence_of
evidence-IsTrusted p now h =
    let start : leb (count_or p.started_at 0) now ≡ true = ground (arith, h) in
    let finish : (is_null p.last_completed_at
          || (is_count p.last_completed_at && leb (count_or p.last_completed_at 0) now))
        ≡ true =
      ground (arith, h) in
    let order : leb (count_or p.checked 0) (count_or p.examined (count_or p.checked 0)) ≡ true =
      ground (arith, h) in
    record {
      begun = leb→le _ _ start;
      finished = not_after now p.last_completed_at finish;
      bounded = leb→le _ _ order;
      clean = λ s. ground (arith, h, s);
    }

-- Whatever the datastore holds: evidence that is accepted was begun and last completed no later than
-- now, has checked no more than it has examined, and reports no backlog after a clean completion.
pub parse_evidence-IsTrusted :
    (value : Value) (now : ℕ) (e : RepairCycleEvidence)
    → parse_evidence value now ≡ some e
    → IsTrusted now e
unfolding parse_evidence
parse_evidence-IsTrusted not_object now e h = cc
parse_evidence-IsTrusted (object p) now e h = go (is_valid p now) refl h
  where
    the_same : some (evidence_of p) ≡ some e → evidence_of p ≡ e
    the_same x = cc x

    go :
        (b : Bool)
        → is_valid p now ≡ b
        → (if b then some (evidence_of p) else none) ≡ some e
        → IsTrusted now e
    go true v x = subst (IsTrusted now) (the_same x) (evidence-IsTrusted p now v)
    go false v x = cc

cursor_is_valid :
    (c : Option Text) → (is_undefined (string_field c) || is_string (string_field c)) ≡ true
cursor_is_valid none = refl
cursor_is_valid (some t) = refl

completion_time_is_valid :
    (now : ℕ) (o : Option ℕ)
    → NotAfter now o
    → (is_null (count_field o)
        || (is_count (count_field o) && leb (count_or (count_field o) 0) now))
      ≡ true
completion_time_is_valid now none never = refl
completion_time_is_valid now (some t) (at h) = le→leb t now h

is_valid-written :
    (e : RepairCycleEvidence) (now : ℕ) → IsTrusted now e → is_valid (written e) now ≡ true
unfolding is_valid cycle_is_valid counts_are_valid completion_is_valid is_consistent
is_valid-written e now q = ground (
  arith,
  cursor_is_valid e.cursor,
  completion_time_is_valid now e.last_completed_at q.finished,
  le→leb e.started_at now q.begun,
  le→leb e.checked e.examined q.bounded,
  q.clean,
)

evidence_of-written : (e : RepairCycleEvidence) → evidence_of (written e) ≡ e
unfolding evidence_of unsuccessful_cycles
evidence_of-written e =
    ap
      (λ c. record e {
        cursor = c;
        last_completed_at = count_option (count_field e.last_completed_at);
      })
      (text_back e.cursor)
    ∙ ap (λ o. record e { last_completed_at = o }) (count_back e.last_completed_at)
  where
    text_back : (c : Option Text) → string_option (string_field c) ≡ c
    text_back none = refl
    text_back (some t) = refl

    count_back : (o : Option ℕ) → count_option (count_field o) ≡ o
    count_back none = refl
    count_back (some n) = refl

-- Trusted evidence that is written is read back as it was.
pub parse_evidence-written :
    (e : RepairCycleEvidence) (now : ℕ)
    → IsTrusted now e
    → parse_evidence (object (written e)) now ≡ some e
unfolding parse_evidence
parse_evidence-written e now q =
    rw (is_valid-written e now q) (ap (λ (x : RepairCycleEvidence). some x) (evidence_of-written e))
