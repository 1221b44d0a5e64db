-- ===== src/Framing/Wire.antt =====
-- What `feed` does on every buffer (node/ble/framing.py): a buffer is a run of whole frames and a
-- rest, which is the start of a frame or begins with a length that no frame has.
use meshlink_node.Prelude.{
  All, All-append, All-drop, Bytes, List, [], ap, append-nil, append_assoc, arith, dec_lt, drop,
  drop-append_left, inl, inr, length, length-append, length-drop, length-take, refl, suc, suc-add,
  sym, take, take-append-drop, take-append_left, zero, zero-add, ℕ, ◌%◌, ◌*◌, ◌++◌, ◌+◌, ◌-◌, ◌/◌,
  ◌<◌, ◌∙◌, ◌∷◌, ◌≡◌, ◌≤◌, ◌⊎◌,
}
use meshlink_node.Framing.{be16, max_frame, FrameAssembler, packets, corrupt, drain, feed}

abbrev pub IsPacket : Bytes → Type 0
IsPacket p = length p ≤ max_frame

-- The stream that carries some packets.
abbrev pub wire : List Bytes → Bytes
wire [] = []
wire (p ∷ ps) = (be16 (length p) ++ p) ++ wire ps

-- The start of a frame, with a byte still missing.
abbrev pub IsPartial : Bytes → Type 0
IsPartial [] = Unit
IsPartial (hi ∷ []) = Unit
IsPartial (hi ∷ lo ∷ rest) = (hi * 256 + lo ≤ max_frame) × (length rest < hi * 256 + lo)

-- A length prefix that exceeds the longest frame.
abbrev pub IsCorrupt : Bytes → Type 0
IsCorrupt [] = ⊥
IsCorrupt (hi ∷ []) = ⊥
IsCorrupt (hi ∷ lo ∷ rest) = max_frame < hi * 256 + lo

abbrev pub head16 : Bytes → ℕ
head16 [] = 0
head16 (hi ∷ []) = 0
head16 (hi ∷ lo ∷ rest) = hi * 256 + lo

be16-value : (n : ℕ) → (n / 256) * 256 + n % 256 ≡ n
be16-value n = omega arith

length-wire : (ps : List Bytes) → length ps ≤ length (wire ps)
length-wire [] = omega arith
length-wire (p ∷ ps) = omega (arith, length-append p (wire ps), length-wire ps)

-- One round on a whole frame.
drain-frame :
    (fuel : ℕ) (p rest : Bytes) (done : List Bytes)
    → IsPacket p
    → drain (suc fuel) ((be16 (length p) ++ p) ++ rest) done ≡ drain fuel rest (done ++ p ∷ [])
unfolding drain
drain-frame fuel p rest done h =
    let n = length p in
    let v = be16-value n in
    rw (v, take-append_left n p rest refl, drop-append_left n p rest refl)
      (ground (arith, length-append p rest))

drain-partial :
    (fuel : ℕ) (r : Bytes) (done : List Bytes)
    → IsPartial r
    → drain fuel r done ≡ (packets done, record { buf = r })
unfolding drain
drain-partial zero r done h = refl
drain-partial (suc fuel) [] done h = refl
drain-partial (suc fuel) (hi ∷ []) done h = refl
drain-partial (suc fuel) (hi ∷ lo ∷ rest) done h = ground arith

drain-corrupt :
    (fuel : ℕ) (r : Bytes) (done : List Bytes)
    → IsCorrupt r
    → drain (suc fuel) r done ≡ (corrupt (head16 r), record { buf = [] })
unfolding drain
drain-corrupt fuel [] done h = absurd h
drain-corrupt fuel (hi ∷ []) done h = absurd h
drain-corrupt fuel (hi ∷ lo ∷ rest) done h = ground arith

drain-wire :
    (fuel : ℕ) (ps : List Bytes) (r : Bytes) (done : List Bytes)
    → All IsPacket ps
    → drain (length ps + fuel) (wire ps ++ r) done ≡ drain fuel r (done ++ ps)
drain-wire fuel [] r done h = rw (zero-add fuel, append-nil done) refl
drain-wire fuel (p ∷ ps) r done h =
    rw (suc-add (length ps) fuel, append_assoc (be16 (length p) ++ p) (wire ps) r)
      (drain-frame (length ps + fuel) p (wire ps ++ r) done h.0
        ∙ drain-wire fuel ps r (done ++ p ∷ []) h.1
        ∙ ap (drain fuel r) (append_assoc done (p ∷ []) ps))

-- On whole frames and the start of one, `feed` returns the packets and keeps the start.
pub feed-wire :
    (s : FrameAssembler) (bytes : Bytes) (ps : List Bytes) (r : Bytes)
    → s.buf ++ bytes ≡ wire ps ++ r
    → All IsPacket ps
    → IsPartial r
    → feed s bytes ≡ (packets ps, record { buf = r })
unfolding feed
feed-wire s bytes ps r e h k =
    let n = length (wire ps ++ r) - length ps in
    let len = length-append (wire ps) r in
    let split : length (s.buf ++ bytes) ≡ length ps + n =
      omega (arith, ap length e, len, length-wire ps) in
    rw (split, e) (drain-wire n ps r [] h ∙ drain-partial n r ps k)

-- On whole frames and a corrupt length, `feed` raises and empties the buffer: the packets before
-- the corrupt length are lost.
pub feed-corrupt :
    (s : FrameAssembler) (bytes : Bytes) (ps : List Bytes) (r : Bytes)
    → s.buf ++ bytes ≡ wire ps ++ r
    → All IsPacket ps
    → IsCorrupt r
    → feed s bytes ≡ (corrupt (head16 r), record { buf = [] })
unfolding feed
feed-corrupt s bytes ps (hi ∷ lo ∷ rest) e h k =
    let r : Bytes = hi ∷ lo ∷ rest in
    let n = length (wire ps ++ r) - length ps - 1 in
    let split : length (s.buf ++ bytes) ≡ length ps + suc n =
      omega (arith, ap length e, length-append (wire ps) r, length-wire ps) in
    rw (split, e) (drain-wire (suc n) ps r [] h ∙ drain-corrupt n r ps k)
feed-corrupt s bytes ps (hi ∷ []) e h k = absurd k
feed-corrupt s bytes ps [] e h k = absurd k

-- Every buffer of bytes is a run of frames and such a rest.
pub record Parse (b : Bytes) : Type 0 where
  pub whole : List Bytes
  pub rest : Bytes
  pub covers : b ≡ wire whole ++ rest
  pub fits : All IsPacket whole
  pub ends : IsPartial rest ⊎ IsCorrupt rest

abbrev pub IsByte : ℕ → Type 0
IsByte b = b < 256

Parse-step :
    (hi lo : ℕ) (body : Bytes)
    → lo < 256
    → hi * 256 + lo ≤ max_frame
    → hi * 256 + lo ≤ length body
    → Parse (drop (hi * 256 + lo) body)
    → Parse (hi ∷ lo ∷ body)
Parse-step hi lo body small le full r =
    let len = hi * 256 + lo in
    let p = take len body in
    let size : length p ≡ len = omega (arith, length-take len body) in
    let high : length p / 256 ≡ hi = omega arith in
    let low : length p % 256 ≡ lo = omega arith in
    let halves : take len body ++ drop len body ≡ body = take-append-drop len body in
    let back : body ≡ p ++ (wire r.whole ++ r.rest) = sym halves ∙ ap (◌++◌ p) r.covers in
    record {
      whole = p ∷ r.whole;
      rest = r.rest;
      covers = rw (high, low, append_assoc p (wire r.whole) r.rest) (ap (λ b. hi ∷ lo ∷ b) back);
      fits = (omega arith, r.fits);
      ends = r.ends;
    }

parse : (fuel : ℕ) (b : Bytes) → length b < fuel → All IsByte b → Parse b
parse zero b h bytes = absurd (omega arith)
parse (suc fuel) [] h bytes = record {
  whole = [];
  rest = [];
  covers = refl;
  fits = tt;
  ends = inl tt;
}
parse (suc fuel) (hi ∷ []) h bytes = record {
  whole = [];
  rest = hi ∷ [];
  covers = refl;
  fits = tt;
  ends = inl tt;
}
parse (suc fuel) (hi ∷ lo ∷ body) h bytes =
    let len = hi * 256 + lo in
    elim (dec_lt max_frame len) [
      | yes long ↦ record {
        whole = [];
        rest = hi ∷ lo ∷ body;
        covers = refl;
        fits = tt;
        ends = inr long;
      }
      | no short ↦ elim (dec_lt (length body) len) [
        | yes part ↦ record {
          whole = [];
          rest = hi ∷ lo ∷ body;
          covers = refl;
          fits = tt;
          ends = inl (omega arith, part);
        }
        | no full ↦ Parse-step hi lo body bytes.1.0 (omega arith) (omega arith) (
            parse fuel (drop len body) (omega (arith, length-drop len body))
              (All-drop IsByte len body bytes.1.1))
      ]
    ]

-- On any buffer and chunk of bytes, feed either returns the packets of all whole frames and keeps
-- the start of the next, or comes to a length above 460, raises with it and clears the buffer.
pub feed_total :
    (s : FrameAssembler) (bytes : Bytes)
    → All IsByte s.buf
    → All IsByte bytes
    → (p : Parse (s.buf ++ bytes)) × ((IsPartial p.rest
          × (feed s bytes ≡ (packets p.whole, record { buf = p.rest })))
        ⊎ (IsCorrupt p.rest × (feed s bytes ≡ (corrupt (head16 p.rest), record { buf = [] }))))
feed_total s bytes h k =
    let b = s.buf ++ bytes in
    let p = parse (suc (length b)) b (omega arith) (All-append IsByte s.buf bytes h k) in
    (
      p,
      elim p.ends [
        | inl part ↦ inl (part, feed-wire s bytes p.whole p.rest p.covers p.fits part)
        | inr bad ↦ inr (bad, feed-corrupt s bytes p.whole p.rest p.covers p.fits bad)
      ],
    )
