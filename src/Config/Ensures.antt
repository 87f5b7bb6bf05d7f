-- ===== src/Config/Ensures.antt =====
-- What holds of the value of a check that passes (src/storage/config.ts).
use ipfs_node.Base.Fields.{Field, undefined, null, other, string, boolean, count}
use ipfs_node.Base.{ℕ, ◌≤◌, Bool, true, false, ◌≡◌, refl, subst, arith, ltb, if◌then◌else◌}
use ipfs_node.Config.{Checked, valid, invalid, Setting, ◌>>=◌, ◌>>◌, fail_if, optional_integer}

-- A check ends, where it passes, in a value of which P holds.
pub data Ensures {ℓ κ} {A : Type ℓ} (P : A → Type κ) : Checked A → Type (ℓ ⊔ κ) where
  passes : {a : A} → P a → Ensures P (valid a)
  stops : {p : Setting} → Ensures P (invalid p)

pub bind-Ensures {ℓ κ λ₁ μ} :
    {A : Type ℓ} {B : Type κ} {P : A → Type λ₁} {Q : B → Type μ} (m : Checked A) {f : A → Checked B}
    → Ensures P m
    → ((a : A) → P a → Ensures Q (f a))
    → Ensures Q (m >>= f)
bind-Ensures (valid a) (passes h) k = k a h
bind-Ensures (invalid p) stops k = stops

-- Where nothing has to be known of the first value.
pub then-Ensures {ℓ κ μ} :
    {A : Type ℓ} {B : Type κ} {Q : B → Type μ} (m : Checked A) {f : A → Checked B}
    → ((a : A) → Ensures Q (f a))
    → Ensures Q (m >>= f)
then-Ensures (valid a) k = k a
then-Ensures (invalid p) k = stops

pub fail_if-Ensures {ℓ κ} :
    {B : Type ℓ} {Q : B → Type κ} (b : Bool) (p : Setting) {m : Checked B}
    → (b ≡ false → Ensures Q m)
    → Ensures Q (fail_if b p >> m)
fail_if-Ensures true p k = stops
fail_if-Ensures false p k = k refl

pub Ensures-valid {ℓ κ} :
    {A : Type ℓ} {P : A → Type κ} (m : Checked A) {a : A} → Ensures P m → m ≡ valid a → P a
Ensures-valid {P = P} (valid b) {a} (passes h) e = subst P the_same h
  where
    the_same : b ≡ a
    the_same = cc e
Ensures-valid (invalid p) stops e = cc e

pub optional_integer-Ensures :
    (f : Field) (p : Setting) (fallback least : ℕ)
    → least ≤ fallback
    → Ensures (λ n. least ≤ n) (optional_integer f p fallback least)
unfolding optional_integer
optional_integer-Ensures undefined p fallback least h = passes h
optional_integer-Ensures null p fallback least h = stops
optional_integer-Ensures other p fallback least h = stops
optional_integer-Ensures (string t) p fallback least h = stops
optional_integer-Ensures (boolean b) p fallback least h = stops
optional_integer-Ensures (count n) p fallback least h = go (ltb n least) refl
  where
    go : (b : Bool) → ltb n least ≡ b → Ensures (λ n. least ≤ n) (if b then invalid p else valid n)
    go true e = stops
    go false e = passes (ground (arith, e))
