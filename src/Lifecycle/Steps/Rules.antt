-- ===== src/Lifecycle/Steps/Rules.antt =====
-- Rules for the awaited calls and the catches of src/storage/lifecycle.ts.
use ipfs_node.Base.{Bool, true, false, ◌≡◌, refl, if◌then◌else◌}
use ipfs_node.Host.{
  is_not_found, is_already_pinned, Error, not_found, already_pinned, failure, busy, aggregate,
  aggregate_one, aggregate_two, Result, ok, threw, and_then, or_else,
}
use ipfs_node.Host.Laws.{Post, on_ok, on_threw}

pub and_then-Post {ℓ κ μ ν ξ} :
    {W : Type ℓ} {A : Type κ} {B : Type μ} {Q : A → W → Type ν} {E : Error → W → Type ν}
    {R : B → W → Type ξ} {F : Error → W → Type ξ} {m : W × Result A} (f : A → W → W × Result B)
    → Post Q E m
    → ((a : A) (w : W) → Q a w → Post R F (f a w))
    → ((e : Error) (w : W) → E e w → F e w)
    → Post R F (and_then m f)
unfolding and_then
and_then-Post f (on_ok q) k l = k _ _ q
and_then-Post f (on_threw e) k l = on_threw (l _ _ e)

pub or_else-Post {ℓ κ ν ξ} :
    {W : Type ℓ} {A : Type κ} {Q : A → W → Type ν} {E : Error → W → Type ν} {R : A → W → Type ξ}
    {F : Error → W → Type ξ} {m : W × Result A} (f : Error → W → W × Result A)
    → Post Q E m
    → ((a : A) (w : W) → Q a w → R a w)
    → ((e : Error) (w : W) → E e w → Post R F (f e w))
    → Post R F (or_else m f)
unfolding or_else
or_else-Post f (on_ok q) k l = on_ok (k _ _ q)
or_else-Post f (on_threw e) k l = l _ _ e

-- The world of a call that returns is the one it ends in.
pub ending-Post {κ} :
    {W : Type 0} {A : Type κ} {Q : A → W → Type 0} {E : Error → W → Type 0} {m : W × Result A}
    → Post Q E m
    → Post (λ a w. Q a w × (w ≡ m.0)) E m
ending-Post (on_ok q) = on_ok (q, refl)
ending-Post (on_threw e) = on_threw e

pub weaken-Post {ℓ κ ν ξ} :
    {W : Type ℓ} {A : Type κ} {Q : A → W → Type ν} {E : Error → W → Type ν} {R : A → W → Type ξ}
    {F : Error → W → Type ξ} {m : W × Result A}
    → Post Q E m
    → ((a : A) (w : W) → Q a w → R a w)
    → ((e : Error) (w : W) → E e w → F e w)
    → Post R F m
weaken-Post (on_ok q) k l = on_ok (k _ _ q)
weaken-Post (on_threw e) k l = on_threw (l _ _ e)

pub if-Post {ℓ κ ν} :
    {W : Type ℓ} {A : Type κ} {Q : A → W → Type ν} {E : Error → W → Type ν} {m n : W × Result A}
    (t : Bool)
    → (t ≡ true → Post Q E m)
    → (t ≡ false → Post Q E n)
    → Post Q E (if t then m else n)
if-Post true h k = h refl
if-Post false h k = k refl

pub absent-Post {ℓ κ ξ} :
    {W : Type ℓ} {A : Type κ} {R : A → W → Type ξ} {F : Error → W → Type ξ} (e : Error) (w : W)
    (x : A)
    → (e ≡ not_found → R x w)
    → F e w
    → Post R F (if is_not_found e then (w, ok x) else (w, threw e))
absent-Post not_found w x r f = on_ok (r refl)
absent-Post already_pinned w x r f = on_threw f
absent-Post (failure t) w x r f = on_threw f
absent-Post (busy t) w x r f = on_threw f
absent-Post (aggregate a) w x r f = on_threw f
absent-Post (aggregate_one a b) w x r f = on_threw f
absent-Post (aggregate_two a b c) w x r f = on_threw f

pub present-Post {ℓ κ ξ} :
    {W : Type ℓ} {A : Type κ} {R : A → W → Type ξ} {F : Error → W → Type ξ} (e : Error) (w : W)
    (x : A)
    → (e ≡ already_pinned → R x w)
    → F e w
    → Post R F (if is_already_pinned e then (w, ok x) else (w, threw e))
present-Post not_found w x r f = on_threw f
present-Post already_pinned w x r f = on_ok (r refl)
present-Post (failure t) w x r f = on_threw f
present-Post (busy t) w x r f = on_threw f
present-Post (aggregate a) w x r f = on_threw f
present-Post (aggregate_one a b) w x r f = on_threw f
present-Post (aggregate_two a b c) w x r f = on_threw f
