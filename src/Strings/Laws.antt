-- ===== src/Strings/Laws.antt =====
-- Texts that `str.strip` leaves as they are, and a line feed that it takes off.
use meshlink_node.Prelude.{
  &&-parts, Bool, Text, [], arith, not, refl, true, ℕ, ◌++◌, ◌∷◌, ◌≡◌, nat_eq, list_eq,
}
use meshlink_node.Strings.{every, keep, is_space, lstrip, rstrip, strip}

pub every-append :
    (test : ℕ → Bool) (s t : Text)
    → every test s ≡ true
    → every test t ≡ true
    → every test (s ++ t) ≡ true
every-append test [] t h k = k
every-append test (c ∷ s) t h k = ground (arith, every-append test s t)

pub every-weaken :
    (p q : ℕ → Bool) (t : Text)
    → ((c : ℕ) → p c ≡ true → q c ≡ true)
    → every p t ≡ true
    → every q t ≡ true
every-weaken p q [] w h = refl
every-weaken p q (c ∷ t) w h =
    let (a, b) = &&-parts (p c) (every p t) h in rw (w c a, every-weaken p q t w b)

lstrip-id : (t : Text) → every (λ c. not (is_space c)) t ≡ true → lstrip t ≡ t
unfolding lstrip
lstrip-id [] h = refl
lstrip-id (c ∷ t) h = ground arith

keep-id : (c : ℕ) (t : Text) → not (is_space c) ≡ true → keep c t ≡ c ∷ t
keep-id c [] h = ground arith
keep-id c (d ∷ t) h = refl

rstrip-id : (t : Text) → every (λ c. not (is_space c)) t ≡ true → rstrip t ≡ t
unfolding rstrip
rstrip-id [] h = refl
rstrip-id (c ∷ t) h =
    let (a, b) = &&-parts (not (is_space c)) (every (λ c. not (is_space c)) t) h in
    rw (rstrip-id t b) (keep-id c t a)

pub strip-id : (t : Text) → every (λ c. not (is_space c)) t ≡ true → strip t ≡ t
unfolding strip
strip-id t h = rw (rstrip-id t h) (lstrip-id t h)

rstrip-feed : (t : Text) → every (λ c. not (is_space c)) t ≡ true → rstrip (t ++ 10 ∷ []) ≡ t
unfolding rstrip
rstrip-feed [] h = refl
rstrip-feed (c ∷ t) h =
    let (a, b) = &&-parts (not (is_space c)) (every (λ c. not (is_space c)) t) h in
    rw (rstrip-feed t b) (keep-id c t a)

pub strip-feed : (t : Text) → every (λ c. not (is_space c)) t ≡ true → strip (t ++ 10 ∷ []) ≡ t
unfolding strip
strip-feed t h = rw (rstrip-feed t h) (lstrip-id t h)
