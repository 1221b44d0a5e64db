-- ===== src/Framing/Stream.antt =====
-- Chunk boundaries carry no meaning (node/ble/framing.py): however a stream of frames is cut, the
-- packets that come out of it are the same.
use meshlink_node.Prelude.{
  All, Bytes, List, [], ap, append-nil, append_assoc, append_split, arith, concat, dec_lt, length,
  length-append, refl, subst, sym, ◌%◌, ◌++◌, ◌+◌, ◌/◌, ◌<◌, ◌∙◌, ◌∷◌, ◌≡◌,
}
use meshlink_node.Framing.{be16, FrameAssembler, Fed, packets, corrupt, feed}
use meshlink_node.Framing.Wire.{IsPacket, wire, IsPartial, IsCorrupt, feed-wire, feed-corrupt}

-- What a stream of chunks gives: the packets of each `feed` that returns.
abbrev pub returned : Fed → List Bytes
returned (packets ps) = ps
returned (corrupt n) = []

unfoldable pub feed_all : FrameAssembler → List Bytes → List Bytes × FrameAssembler
feed_all s [] = ([], s)
feed_all s (c ∷ cs) =
    let (r, s') = feed s c in let (ps, t) = feed_all s' cs in (returned r ++ ps, t)

-- The start of a partial frame is one.
IsPartial-left : (x y : Bytes) → IsPartial (x ++ y) → IsPartial x
IsPartial-left [] y h = tt
IsPartial-left (hi ∷ []) y h = tt
IsPartial-left (hi ∷ lo ∷ x) y h = omega (arith, length-append x y)

IsPartial-of_short :
    (p x t : Bytes)
    → IsPacket p
    → be16 (length p) ++ p ≡ x ++ t
    → length x < length p + 2
    → IsPartial x
IsPartial-of_short p [] t h e lt = tt
IsPartial-of_short p (hi ∷ []) t h e lt = tt
IsPartial-of_short p (hi ∷ lo ∷ x) t h e lt =
    let a : length p / 256 ≡ hi = cc in let b : length p % 256 ≡ lo = cc in omega arith

-- A stream that is cut anywhere is cut between two packets, or inside one.
pub record Cut (x y : Bytes) (ps : List Bytes) (r : Bytes) : Type 0 where
  pub first : List Bytes
  pub later : List Bytes
  pub open_frame : Bytes
  pub all_packets : ps ≡ first ++ later
  pub left : x ≡ wire first ++ open_frame
  pub starts : IsPartial open_frame
  pub right : open_frame ++ y ≡ wire later ++ r

pub cut :
    (x y : Bytes) (ps : List Bytes) (r : Bytes)
    → x ++ y ≡ wire ps ++ r
    → All IsPacket ps
    → IsPartial r
    → Cut x y ps r
cut x y [] r e h k = record {
  first = [];
  later = [];
  open_frame = x;
  all_packets = refl;
  left = refl;
  starts = IsPartial-left x y (subst IsPartial (sym e) k);
  right = e;
}
cut x y (p ∷ ps) r e h k =
    let f = be16 (length p) ++ p in
    let e' : x ++ y ≡ f ++ (wire ps ++ r) = e ∙ append_assoc f (wire ps) r in
    elim (dec_lt (length x) (length f)) [
      | yes short ↦
          let (t, p', q) = append_split x y f (wire ps ++ r) (sym e') (omega arith) in
          record {
            first = [];
            later = p ∷ ps;
            open_frame = x;
            all_packets = refl;
            left = refl;
            starts = IsPartial-of_short p x t h.0 p' (omega arith);
            right = e;
          }
      | no long ↦
          let (t, p', q) = append_split f (wire ps ++ r) x y e' (omega arith) in
          let c = cut t y ps r q h.1 k in
          record {
            first = p ∷ c.first;
            later = c.later;
            open_frame = c.open_frame;
            all_packets = ap (◌∷◌ p) c.all_packets;
            left = p' ∙ ap (◌++◌ f) c.left ∙ sym (append_assoc f (wire c.first) c.open_frame);
            starts = c.starts;
            right = c.right;
          }
    ]

pub All-left {ℓ κ} : {A : Type ℓ} (P : A → Type κ) (xs ys : List A) → All P (xs ++ ys) → All P xs
All-left P [] ys h = tt
All-left P (x ∷ xs) ys h = (h.0, All-left P xs ys h.1)

pub All-right {ℓ κ} : {A : Type ℓ} (P : A → Type κ) (xs ys : List A) → All P (xs ++ ys) → All P ys
All-right P [] ys h = h
All-right P (x ∷ xs) ys h = All-right P xs ys h.1

whole_frame-not-IsPartial : (p t : Bytes) → IsPacket p → IsPartial ((be16 (length p) ++ p) ++ t) → ⊥
whole_frame-not-IsPartial p t h k = omega (arith, length-append p t)

pub uncut :
    (b : Bytes) (ps : List Bytes) (r : Bytes)
    → b ≡ wire ps ++ r
    → All IsPacket ps
    → IsPartial b
    → (ps ≡ []) × (b ≡ r)
uncut b [] r e h k = (refl, e)
uncut b (p ∷ ps) r e h k =
    let f = be16 (length p) ++ p in
    absurd (
      whole_frame-not-IsPartial p (wire ps ++ r) h.0
        (subst IsPartial (e ∙ append_assoc f (wire ps) r) k))

-- However a stream of frames of at most 460 bytes, and of the start of one more, is cut into
-- chunks, feeding the chunks in order gives exactly its packets, in order, and leaves that start.
pub feed_all-wire :
    (s : FrameAssembler) (chunks ps : List Bytes) (r : Bytes)
    → s.buf ++ concat chunks ≡ wire ps ++ r
    → All IsPacket ps
    → IsPartial r
    → IsPartial s.buf
    → feed_all s chunks ≡ (ps, record { buf = r })
unfolding feed_all
feed_all-wire s [] ps r e h k start =
    let (p, q) = uncut s.buf ps r (sym (append-nil s.buf) ∙ e) h start in
    λ i. (sym p i, record { buf = q i })
feed_all-wire s (c ∷ cs) ps r e h k start =
    let d = cut (s.buf ++ c) (concat cs) ps r (append_assoc s.buf c (concat cs) ∙ e) h k in
    let split = subst (All IsPacket) d.all_packets h in
    let now =
      feed-wire s c d.first d.open_frame d.left (All-left IsPacket d.first d.later split)
        d.starts in
    let rest =
      feed_all-wire (record { buf = d.open_frame }) cs d.later r d.right
        (All-right IsPacket d.first d.later split) k d.starts in
    let order = sym d.all_packets in rw (now, rest) (λ i. (order i, record { buf = r }))

-- On an empty buffer, packets that were fed before a corrupt length came are returned, and the same
-- packets fed in one chunk with it are lost.
pub feed_all-corrupt :
    (s : FrameAssembler) (ps : List Bytes) (r : Bytes)
    → s.buf ≡ []
    → All IsPacket ps
    → IsCorrupt r
    → ((feed_all s (wire ps ∷ r ∷ [])).0 ≡ ps) × ((feed_all s ((wire ps ++ r) ∷ [])).0 ≡ [])
unfolding feed_all
feed_all-corrupt s ps r e h k =
    let whole = feed-wire s (wire ps) ps [] (rw (e, append-nil (wire ps))) h tt in
    let alone = feed-corrupt (record { buf = [] }) r [] r refl tt k in
    let joint = feed-corrupt s (wire ps ++ r) ps r (rw e) h k in
    (rw (whole, alone, append-nil ps), rw joint)
