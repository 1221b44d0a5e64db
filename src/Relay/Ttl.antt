-- ===== src/Relay/Ttl.antt =====
-- `decrement_ttl` (node/relay.py) changes one byte.
use meshlink_node.Prelude.{
  Bytes, [], ap, arith, drop, false, get_elem?, length, none, refl, some, suc, take, zero, ℕ, ◌++◌,
  ◌+◌, ◌-◌, ◌==◌, ◌∷◌, ◌≡◌, ◌≢◌, nat_eq,
}
use meshlink_node.Relay.Parts.{ttl_offset, decrement_ttl}

abbrev pub Replaced : ℕ → ℕ → Bytes → Bytes → Type 0
Replaced i v xs ys =
    (length ys ≡ length xs)
    × (get_elem? ys i ≡ some v)
    × ((j : ℕ) → j ≢ i → get_elem? ys j ≡ get_elem? xs j)

replace-at :
    (i v w : ℕ) (xs : Bytes)
    → get_elem? xs i ≡ some w
    → Replaced i v xs (take i xs ++ v ∷ drop (suc i) xs)
replace-at i v w [] h = cc
replace-at zero v w (x ∷ xs) h = (refl, refl, λ j ne. other j ne)
  where
    other : (j : ℕ) → j ≢ 0 → get_elem? (v ∷ xs) j ≡ get_elem? (x ∷ xs) j
    other zero ne = absurd (ne refl)
    other (suc j) ne = refl
replace-at (suc i) v w (x ∷ xs) h =
    let (len, at, rest) = replace-at i v w xs h in (ap suc len, at, λ j ne. other rest j ne)
  where
    other :
        ((j : ℕ) → j ≢ i → get_elem? (take i xs ++ v ∷ drop (suc i) xs) j ≡ get_elem? xs j)
        → (j : ℕ) → j ≢ suc i
        → get_elem? (x ∷ (take i xs ++ v ∷ drop (suc i) xs)) j ≡ get_elem? (x ∷ xs) j
    other rest zero ne = refl
    other rest (suc j) ne = rest j (λ e. ne (ap suc e))

-- On a packet with a ttl byte above 0, decrement_ttl returns a packet of the same length in which
-- the ttl is one less and every other byte is the same; on any other packet it raises.
pub decrement_ttl_lem :
    (raw : Bytes)
    → ((t : ℕ)
        → get_elem? raw ttl_offset ≡ some (suc t)
        → (out : Bytes) × (decrement_ttl raw ≡ some out) × Replaced ttl_offset t raw out)
      × (get_elem? raw ttl_offset ≡ none → decrement_ttl raw ≡ none)
      × (get_elem? raw ttl_offset ≡ some 0 → decrement_ttl raw ≡ none)
unfolding decrement_ttl
decrement_ttl_lem raw = (
  λ t e.
      let one : suc t - 1 ≡ t = omega arith in
      let positive : (suc t == 0) ≡ false = ground arith in
      (
        take ttl_offset raw ++ t ∷ drop (ttl_offset + 1) raw,
        rw (e, decrement_ttl, positive, one),
        replace-at ttl_offset t (suc t) raw e,
      ),
  λ e. rw (e, decrement_ttl),
  λ e. rw (e, decrement_ttl),
)
