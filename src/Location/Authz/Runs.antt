-- ===== src/Location/Authz/Runs.antt =====
-- What holds over every sequence of queries and revocations (node/location/authz.py).
use meshlink_node.Prelude.{
  All, Bool, Bool-cases, Bytes, List, Option-cases, [], arith, beq_eq, contains, contains-add,
  false, get, get-put, if◌then◌else◌, inl, inr, or_default, refl, subst, true, ℕ, ◌&&◌, ◌+◌, ◌==◌,
  ◌∷◌, ◌≡◌, ◌≤◌, ◌⊎◌, nat_eq, list_eq, pair_eq,
}
use meshlink_node.Directory.{Directory}
use meshlink_node.Location.Store.{LocationStore}
use meshlink_node.Location.Core.{Message, RevocationKey, Core}
use meshlink_node.Location.Authz.{
  Answer, served, failed, Checked, ok, stop, Authz, Grant, authorise, too_soon, serve, handle_query,
  handle_revoke,
}

-- A query comes with the store, the directory and the clocks of its moment.
pub data Op : Type 0 where
  asks : LocationStore → Directory → ℕ → ℕ → Message → Op
  revokes : Message → Op

and-false : (b : Bool) → (b && false) ≡ false
and-false b = ground arith

if-true : (b : Bool) → (if b then true else true) ≡ true
if-true b = ground arith

module _ (c : Core) where
  unfoldable pub after_op : Authz → Op → Authz
  after_op z (asks rows d now later msg) = (handle_query c rows d z now later msg).1
  after_op z (revokes msg) = (handle_revoke c z msg).1

  unfoldable pub after_ops : Authz → List Op → Authz
  after_ops z [] = z
  after_ops z (op ∷ ops) = after_ops (after_op z op) ops

  abbrev pub is_pair : Bytes × Bytes → Checked Grant → Bool
  is_pair p (stop e) = false
  is_pair p (ok g) = (g.requester_id, g.issuer_id) == p

  abbrev pub is_served : Answer → Bool
  is_served (served b) = true
  is_served (failed e) = false

  -- The clock readings at which queries of a (requester, target) pair are served.
  abbrev pub served_at : Bytes × Bytes → Authz → List Op → List ℕ
  served_at p z [] = []
  served_at p z (asks rows d now later msg ∷ ops) =
      let (a, z') = handle_query c rows d z now later msg in
      let rest = served_at p z' ops in
      if is_served a && is_pair p (authorise c d z now msg) then now ∷ rest else rest
  served_at p z (revokes msg ∷ ops) = served_at p (handle_revoke c z msg).1 ops

  -- Each of the times is at least `gap` after the one before it.
  abbrev pub Spaced : ℕ → List ℕ → Type 0
  Spaced gap [] = Unit
  Spaced gap (t ∷ []) = Unit
  Spaced gap (t ∷ u ∷ ts) = (t + gap ≤ u) × Spaced gap (u ∷ ts)

  abbrev pub last_of : Authz → Bytes × Bytes → ℕ
  last_of z p = or_default (get z.last_query p) 0

  -- One query, by its outcome: the limit of the pair moves to `now` or nothing moves; and an answer is
  -- served only if the limit moved.
  pub serve-limit :
      (rows : LocationStore) (d : Directory) (z : Authz) (now later : ℕ) (m : Checked Grant)
      (p : Bytes × Bytes)
      → let (a, z') = serve c rows d z now later m in
        (z'.min_interval ≡ z.min_interval)
        × (z'.revoked ≡ z.revoked)
        × (((last_of z' p ≡ last_of z p) × ((is_served a && is_pair p m) ≡ false))
            ⊎ ((last_of z' p ≡ now) × (last_of z p + z.min_interval ≤ now)))
  unfolding serve
  serve-limit rows d z now later (stop e) p = (refl, refl, inl (refl, refl))
  serve-limit rows d z now later (ok g) p =
      let q : Bytes × Bytes = (g.requester_id, g.issuer_id) in
      let e = get-put z.last_query q p now in
      elim (Bool-cases (too_soon z now q)) [
        | inl t ↦ rw (t, serve) (refl, refl, inl (refl, refl))
        | inr t ↦ elim (Bool-cases (q == p)) [
          | inl s ↦
              let passed : last_of z q + z.min_interval ≤ now = ground arith in
              rw (t, serve)
                (
                  refl,
                  refl,
                  inr (
                    rw (e, s),
                    subst (λ x. last_of z x + z.min_interval ≤ now) (beq_eq q p s) passed,
                  ),
                )
          | inr s ↦ rw (t, serve) (refl, refl, inl (rw (e, s), rw s (and-false _)))
        ]
      ]

  pub revoke-keeps :
      (z : Authz) (msg : Message)
      → let z' = (handle_revoke c z msg).1 in
        (z'.min_interval ≡ z.min_interval)
        × (z'.last_query ≡ z.last_query)
        × ((k : RevocationKey) → contains z.revoked k ≡ true → contains z'.revoked k ≡ true)
  unfolding handle_revoke
  revoke-keeps z msg = elim (Option-cases (c.decode_revoke msg.payload)) [
    | inl e ↦ rw (e, handle_revoke) (refl, refl, λ k h. h)
    | inr (r, e) ↦ elim (Bool-cases (c.pubkey_id msg.sender_key == c.revoke_issuer r)) [
      | inl own ↦
          rw (e, handle_revoke, own)
            (refl, refl, λ k h. rw (contains-add z.revoked (c.revoke_key r) k, h) (if-true _))
      | inr other ↦ rw (e, handle_revoke, other) (refl, refl, λ k h. h)
    ]
  ]

  abbrev AtLeast : ℕ → List ℕ → Type 0
  AtLeast n ts = All (λ t. n ≤ t) ts

  AtLeast-mono : (m n : ℕ) (ts : List ℕ) → m ≤ n → AtLeast n ts → AtLeast m ts
  AtLeast-mono m n [] h a = tt
  AtLeast-mono m n (t ∷ ts) h a = (omega arith, AtLeast-mono m n ts h a.1)

  Spaced-cons :
      (gap t : ℕ) (ts : List ℕ) → AtLeast (t + gap) ts → Spaced gap ts → Spaced gap (t ∷ ts)
  Spaced-cons gap t [] a s = tt
  Spaced-cons gap t (u ∷ ts) a s = (a.0, s)

  abbrev Limited : Bytes × Bytes → Authz → List ℕ → Type 0
  Limited p z ts = AtLeast (last_of z p + z.min_interval) ts × Spaced z.min_interval ts

  Limited-step :
      (p : Bytes × Bytes) (z z' : Authz) (now : ℕ) (counts : Bool) (rest : List ℕ)
      → z'.min_interval ≡ z.min_interval
      → ((last_of z' p ≡ last_of z p) × (counts ≡ false))
        ⊎ ((last_of z' p ≡ now) × (last_of z p + z.min_interval ≤ now))
      → Limited p z' rest
      → Limited p z (if counts then now ∷ rest else rest)
  Limited-step p z z' now counts rest i (inl (same, no')) l = rw no' (
    AtLeast-mono (last_of z p + z.min_interval) (last_of z' p + z'.min_interval) rest (omega arith)
        l.0,
    subst (λ g. Spaced g rest) i l.1,
  )
  Limited-step p z z' now true rest i (inr (moved, late)) l =
      let i' = z'.min_interval in
      (
        (
          late,
          AtLeast-mono (last_of z p + z.min_interval) (last_of z' p + i') rest (omega arith) l.0,
        ),
        Spaced-cons z.min_interval now rest
            (AtLeast-mono (now + z.min_interval) (last_of z' p + i') rest (omega arith) l.0)
            (subst (λ g. Spaced g rest) i l.1),
      )
  Limited-step p z z' now false rest i (inr (moved, late)) l = (
    AtLeast-mono (last_of z p + z.min_interval) (last_of z' p + z'.min_interval) rest (omega arith)
        l.0,
    subst (λ g. Spaced g rest) i l.1,
  )

  -- The lemma behind the rate limit: from any state, the served times of a pair are spaced, and later
  -- than its last query by the interval.
  served_at-Limited :
      (p : Bytes × Bytes) (z : Authz) (ops : List Op) → Limited p z (served_at p z ops)
  unfolding handle_query
  served_at-Limited p z [] = (tt, tt)
  served_at-Limited p z (asks rows d now later msg ∷ ops) =
      let m = authorise c d z now msg in
      let z' = (serve c rows d z now later m).1 in
      let (i, r, l) = serve-limit rows d z now later m p in
      Limited-step p z z' now _ (served_at p z' ops) i l (served_at-Limited p z' ops)
  served_at-Limited p z (revokes msg ∷ ops) =
      let z' = (handle_revoke c z msg).1 in
      let (i, l, k) = revoke-keeps z msg in
      let rest = served_at-Limited p z' ops in
      let bound : last_of z' p + z'.min_interval ≡ last_of z p + z.min_interval = rw (i, l) in
      let ts = served_at p z' ops in
      (subst (λ n. AtLeast n ts) bound rest.0, subst (λ g. Spaced g ts) i rest.1)

  -- Over every sequence of queries and revocations, under any clocks, two queries of one requester
  -- about one target that are served are at least the minimum interval apart.
  pub served_at-Spaced :
      (p : Bytes × Bytes) (z : Authz) (ops : List Op) → Spaced z.min_interval (served_at p z ops)
  served_at-Spaced p z ops = (served_at-Limited p z ops).1
