-- ===== src/Config/Options.antt =====
-- Single options of src/storage/config.ts, and the checks that read them.
use ipfs_node.Base.Fields.{Field, undefined, string, boolean, count}
use ipfs_node.Base.Texts.{Text}
use ipfs_node.Base.{ℕ, Bool, true, false, ltb, if◌then◌else◌}

-- The option that is rejected; a tier of `replication.placement` has an index.
pub data Setting : Type 0 where
  named : Text → Setting
  in_tier : ℕ → Text → Setting

pub data Checked {ℓ} (A : Type ℓ) : Type ℓ where
  valid : A → Checked A
  invalid : Setting → Checked A

infixl 5 ◌>>=◌ ◌>>◌
abbrev pub ◌>>=◌ {ℓ κ} : {A : Type ℓ} {B : Type κ} → Checked A → (A → Checked B) → Checked B
valid a >>= f = f a
invalid p >>= f = invalid p

abbrev pub ◌>>◌ {ℓ} : {B : Type ℓ} → Checked (Unit {0}) → Checked B → Checked B
m >> k = m >>= λ _. k

-- `if (condition) fail(path, …)`
abbrev pub fail_if : Bool → Setting → Checked (Unit {0})
fail_if true path = invalid path
fail_if false path = valid tt

-- A value that should be an object.
pub data Section {ℓ} (A : Type ℓ) : Type ℓ where
  absent : Section A
  contents : A → Section A
  ill_formed : Section A

-- The first argument is `{}`.
unfoldable pub section {ℓ} : {A : Type ℓ} → A → Section A → Setting → Checked A
section empty absent path = valid empty
section empty (contents a) path = valid a
section empty ill_formed path = invalid path

unfoldable pub optional_boolean : Field → Setting → Bool → Checked Bool
optional_boolean undefined path fallback = valid fallback
optional_boolean (boolean b) path fallback = valid b
optional_boolean _ path fallback = invalid path

unfoldable pub optional_string : Field → Setting → Text → Checked Text
optional_string undefined path fallback = valid fallback
optional_string (string t) path fallback = valid t
optional_string _ path fallback = invalid path

unfoldable pub optional_integer : Field → Setting → ℕ → ℕ → Checked ℕ
optional_integer undefined path fallback least = valid fallback
optional_integer (count n) path fallback least = if ltb n least then invalid path else valid n
optional_integer _ path fallback least = invalid path
