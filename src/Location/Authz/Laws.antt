-- ===== src/Location/Authz/Laws.antt =====
-- Inversion of a chain of checks: where the chain passes, its first check did, and so does the rest.
use meshlink_node.Prelude.{Bool, Option, false, none, refl, some, true, ◌≡◌}
use meshlink_node.Location.Authz.{Reason, Checked, ok, ◌>>=◌, or_refuse, or_raise, require}

module _ {ℓ κ μ} {A : Type ℓ} {B : Type κ} {P : Type μ} where
  pub refuse_then :
      (o : Option A) (r : Reason) (f : A → Checked B) (b : B)
      → (or_refuse o r >>= f) ≡ ok b
      → ((a : A) → o ≡ some a → f a ≡ ok b → P)
      → P
  refuse_then none r f b h k = cc
  refuse_then (some a) r f b h k = k a refl h

  pub raise_then :
      (o : Option A) (f : A → Checked B) (b : B)
      → (or_raise o >>= f) ≡ ok b
      → ((a : A) → o ≡ some a → f a ≡ ok b → P)
      → P
  raise_then none f b h k = cc
  raise_then (some a) f b h k = k a refl h

pub require_then {κ μ} :
    {B : Type κ} {P : Type μ} (t : Bool) (r : Reason) (f : Checked B) (b : B)
    → (require t r >>= λ _. f) ≡ ok b
    → (t ≡ true → f ≡ ok b → P)
    → P
require_then true r f b h k = k refl h
require_then false r f b h k = cc

pub or_raise-ok {ℓ} : {A : Type ℓ} (o : Option A) (a : A) → or_raise o ≡ ok a → o ≡ some a
or_raise-ok none a h = cc
or_raise-ok (some b) a h = cc

pub ok-injective {ℓ} : {A : Type ℓ} (a b : A) → ok a ≡ ok b → a ≡ b
ok-injective a b h = cc
