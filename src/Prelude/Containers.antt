-- ===== src/Prelude/Containers.antt =====
-- Python's `dict` with its insertion order: a write to a key that is there keeps its place, a new
-- key goes to the end. A Python `set` that is only tested and updated is a list by `contains`.
use mathlib.Core.Path.{◌≡◌, refl, ◌∙◌, subst}
use mathlib.Core.Bool.{Bool, true, false}
use mathlib.Core.Option.{Option, none, some}
use mathlib.Core.List.{List, [], ◌∷◌, map}
use native.Mathlib.Omega.{arith}
use mathlib.Core.Logic.{inl, inr}
use meshlink_node.Prelude.Tests.{if◌then◌else◌, Option-cases, Bool-cases}
use meshlink_node.Prelude.Equality.{Eq, ◌==◌, contains, beq_eq}

-- d.get(k, default), applied to the entry
abbrev pub or_default {ℓ} : {A : Type ℓ} → Option A → A → A
or_default none a = a
or_default (some b) a = b

abbrev pub or_else {ℓ} : {A : Type ℓ} → Option A → Option A → Option A
or_else none o = o
or_else (some v) o = some v

abbrev pub Dict {ℓ κ} : Type ℓ → Type κ → Type (ℓ ⊔ κ)
Dict K V = List (K × V)

module _ {ℓ κ} {K : Type ℓ} {V : Type κ} where
  abbrev pub keys : Dict K V → List K
  keys d = map (λ p. p.0) d

module _ {ℓ κ} {K : Type ℓ} {V : Type κ} ⦃e : Eq K⦄ where
  -- d.get(k)
  unfoldable pub get : Dict K V → K → Option V
  get [] k = none
  get ((j, v) ∷ d) k = if j == k then some v else get d k

  -- d[k] = v
  unfoldable pub put : Dict K V → K → V → Dict K V
  put [] k v = (k, v) ∷ []
  put ((j, w) ∷ d) k v = if j == k then (j, v) ∷ d else (j, w) ∷ put d k v

  -- d.pop(k, None), del d[k]
  unfoldable pub remove : Dict K V → K → Dict K V
  remove [] k = []
  remove ((j, v) ∷ d) k = if j == k then remove d k else (j, v) ∷ remove d k

  -- setdefault(k, v)
  unfoldable pub set_default : Dict K V → K → V → Dict K V
  unfolding get put
  set_default d k v = elim (get d k) [ none ↦ put d k v | some w ↦ d ]

  pub get-put :
      (d : Dict K V) (k j : K) (v : V) → get (put d k v) j ≡ (if k == j then some v else get d j)
  unfolding get put
  get-put [] k j v = refl
  get-put ((i, w) ∷ d) k j v =
      ground (arith, e.beq_iff i k, e.beq_iff i j, e.beq_iff k j, get-put d k j v)

  pub get-remove :
      (d : Dict K V) (k j : K) → get (remove d k) j ≡ (if k == j then none else get d j)
  unfolding get remove
  get-remove [] k j = ground arith
  get-remove ((i, w) ∷ d) k j =
      ground (arith, e.beq_iff i k, e.beq_iff i j, e.beq_iff k j, get-remove d k j)

  -- d.setdefault(k, w), and a write through the value that it returned
  pub get-put-set_default :
      (d : Dict K V) (k j : K) (w v : V)
      → get (put (set_default d k w) k v) j ≡ (if k == j then some v else get d j)
  unfolding set_default
  get-put-set_default d k j w v = elim (Option-cases (get d k)) [
    | inl e ↦ rw (e, set_default, get-put (put d k w) k j v, get-put d k j w) (ground arith)
    | inr (u, e) ↦ rw (e, set_default, get-put d k j v)
  ]

  -- No key occurs twice.
  abbrev pub IsKeyed : Dict K V → Type 0
  IsKeyed [] = Unit
  IsKeyed ((k, v) ∷ d) = (contains (keys d) k ≡ false) × IsKeyed d

  pub contains-put :
      (d : Dict K V) (k j : K) (v : V)
      → contains (keys (put d k v)) j ≡ (if k == j then true else contains (keys d) j)
  unfolding put
  contains-put [] k j v = refl
  contains-put ((i, w) ∷ d) k j v =
      ground (arith, e.beq_iff i k, e.beq_iff i j, e.beq_iff k j, contains-put d k j v)

  pub put-IsKeyed : (d : Dict K V) (k : K) (v : V) → IsKeyed d → IsKeyed (put d k v)
  unfolding put
  put-IsKeyed [] k v h = (refl, tt)
  put-IsKeyed ((i, w) ∷ d) k v h =
      ground (arith, e.beq_iff i k, e.beq_iff k i, contains-put d k i v, put-IsKeyed d k v h.1)

module _ {ℓ κ} {K : Type ℓ} {V : Type κ} ⦃e : Eq K⦄ where
  contains-remove_absent :
      (d : Dict K V) (k j : K)
      → contains (keys d) j ≡ false
      → contains (keys (remove d k)) j ≡ false
  unfolding remove
  contains-remove_absent [] k j h = refl
  contains-remove_absent ((i, w) ∷ d) k j h = ground (arith, contains-remove_absent d k j)

  pub remove-IsKeyed : (d : Dict K V) (k : K) → IsKeyed d → IsKeyed (remove d k)
  unfolding remove
  remove-IsKeyed [] k h = tt
  remove-IsKeyed ((i, w) ∷ d) k h =
      ground (arith, contains-remove_absent d k i h.0, remove-IsKeyed d k h.1)

-- A Python `set` as the list of its elements.
module _ {ℓ} {A : Type ℓ} ⦃e : Eq A⦄ where
  -- s.add(a)
  unfoldable pub add : List A → A → List A
  add s a = if contains s a then s else a ∷ s

  -- s.discard(a)
  unfoldable pub discard : List A → A → List A
  discard [] a = []
  discard (x ∷ s) a = if x == a then discard s a else x ∷ discard s a

  pub contains-add :
      (s : List A) (a b : A) → contains (add s a) b ≡ (if a == b then true else contains s b)
  unfolding add
  contains-add s a b = ground (arith, e.beq_iff a b)

  pub contains-discard :
      (s : List A) (a b : A) → contains (discard s a) b ≡ (if a == b then false else contains s b)
  unfolding discard
  contains-discard [] a b = ground arith
  contains-discard (x ∷ s) a b =
      ground (arith, e.beq_iff x a, e.beq_iff x b, e.beq_iff a b, contains-discard s a b)

  -- s.update(ks)
  unfoldable pub add_all : List A → List A → List A
  add_all s [] = s
  add_all s (k ∷ ks) = add_all (add s k) ks

  pub contains-add_all :
      (s ks : List A) (a : A)
      → contains (add_all s ks) a ≡ (if contains ks a then true else contains s a)
  unfolding add_all
  contains-add_all s [] a = refl
  contains-add_all s (k ∷ ks) a =
      contains-add_all (add s k) ks a ∙ rw (contains-add s k a) (ground arith)

module _ {ℓ κ} {K : Type ℓ} {V : Type κ} ⦃e : Eq K⦄ where
  -- for k in ks: del d[k]
  unfoldable pub remove_all : Dict K V → List K → Dict K V
  remove_all d [] = d
  remove_all d (k ∷ ks) = remove_all (remove d k) ks

  pub get-remove_all :
      (d : Dict K V) (ks : List K) (j : K)
      → get (remove_all d ks) j ≡ (if contains ks j then none else get d j)
  unfolding remove_all
  get-remove_all d [] j = refl
  get-remove_all d (k ∷ ks) j =
      get-remove_all (remove d k) ks j ∙ rw (get-remove d k j) (ground arith)

  pub remove_all-IsKeyed : (d : Dict K V) (ks : List K) → IsKeyed d → IsKeyed (remove_all d ks)
  unfolding remove_all
  remove_all-IsKeyed d [] h = h
  remove_all-IsKeyed d (k ∷ ks) h = remove_all-IsKeyed (remove d k) ks (remove-IsKeyed d k h)

  -- d.update(f)
  unfoldable pub update : Dict K V → Dict K V → Dict K V
  update d [] = d
  update d ((k, v) ∷ f) = update (put d k v) f

  get_absent : (d : Dict K V) (k : K) → contains (keys d) k ≡ false → get d k ≡ none
  unfolding get
  get_absent [] k h = refl
  get_absent ((j, v) ∷ d) k h = ground (arith, get_absent d k)

  pub get-update :
      (d f : Dict K V) (j : K) → IsKeyed f → get (update d f) j ≡ or_else (get f j) (get d j)
  unfolding update get
  get-update d [] j h = refl
  get-update d ((k, v) ∷ f) j h = elim (Bool-cases (k == j)) [
    | inl same ↦
        let p : k ≡ j = beq_eq k j same in
        let q : get f j ≡ none = subst (λ x. get f x ≡ none) p (get_absent f k h.0) in
        get-update (put d k v) f j h.1 ∙ rw (q, get-put d k j v, same)
    | inr other ↦ get-update (put d k v) f j h.1 ∙ rw (get-put d k j v, other)
  ]

pub ruleset dict_laws = (get-put, get-remove, contains-add, contains-discard)

abbrev pub is_some {ℓ} : {A : Type ℓ} → Option A → Bool
is_some none = false
is_some (some a) = true

-- The keys of a dict are those with an entry.
pub contains-keys {ℓ κ} :
    {K : Type ℓ} {V : Type κ} ⦃e : Eq K⦄ (d : Dict K V) (k : K)
    → contains (keys d) k ≡ is_some (get d k)
unfolding get
contains-keys [] k = refl
contains-keys ((j, v) ∷ d) k = ground (arith, contains-keys d k)

pub is_some-or_else {ℓ} :
    {A : Type ℓ} (o u : Option A) → is_some (or_else o u) ≡ (if is_some u then true else is_some o)
is_some-or_else none u = ground arith
is_some-or_else (some a) u = ground arith

pub or_else_if {ℓ} :
    {A : Type ℓ} (o u : Option A) (b : Bool) (x : A)
    → or_else o (if b then some x else u) ≡ or_else (or_else o (if b then some x else none)) u
or_else_if none u true x = refl
or_else_if none u false x = refl
or_else_if (some v) u b x = refl

pub or_else-none {ℓ} : {A : Type ℓ} (o : Option A) → or_else o none ≡ o
or_else-none none = refl
or_else-none (some v) = refl

-- Chains of results that may be missing, for `do`.
infixl 2 ◌>>=◌
abbrev pub ◌>>=◌ {ℓ κ} : {A : Type ℓ} {B : Type κ} → Option A → (A → Option B) → Option B
none >>= f = none
some a >>= f = f a
