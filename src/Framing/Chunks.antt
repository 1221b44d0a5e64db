-- ===== src/Framing/Chunks.antt =====
-- `chunk` against its purpose (node/ble/framing.py): the chunks are short enough for the link and
-- together they are the frame.
use meshlink_node.Prelude.{
  All, Bytes, List, [], ap, append-nil, arith, concat, dec_lt, drop, drop-drop, drop_all, false,
  length, length-drop, length-take, le→leb, le→not-ltb, lt→ltb, map, some, suc, sym, take,
  take-append-drop, zero, ℕ, ◌++◌, ◌+◌, ◌-◌, ◌<◌, ◌==◌, ◌∙◌, ◌∷◌, ◌≡◌, ◌≤◌, nat_eq,
}
use meshlink_node.Framing.{be16, new_assembler, frame, chunk, range_by, slice}
use meshlink_node.Framing.Wire.{IsPacket}
use meshlink_node.Framing.Stream.{feed_all, feed_all-wire}

-- A chunk for a link that takes `size` bytes.
abbrev pub FitsLink : ℕ → Bytes → Type 0
FitsLink size c = (1 ≤ length c) × (length c ≤ size)

slices : ℕ → ℕ → Bytes → ℕ → List Bytes
unfolding range_by
slices fuel i xs size = map (λ j. slice xs j (j + size)) (range_by fuel i (length xs) size)

concat-slices :
    (fuel i : ℕ) (xs : Bytes) (size : ℕ)
    → 0 < size
    → length xs ≤ fuel + i
    → concat (slices fuel i xs size) ≡ drop i xs
unfolding slices
concat-slices zero i xs size h k = sym (drop_all i xs (omega arith))
concat-slices (suc fuel) i xs size h k = elim (dec_lt i (length xs)) [
  | yes more ↦
      let width : i + size - i ≡ size = omega arith in
      let rest = concat-slices fuel (i + size) xs size h (omega arith) in
      rw (lt→ltb i (length xs) more, width)
        (ap (◌++◌ (take size (drop i xs))) (rest ∙ sym (drop-drop size i xs))
          ∙ take-append-drop size (drop i xs))
  | no past ↦ rw (le→not-ltb i (length xs) (omega arith)) (sym (drop_all i xs (omega arith)))
]

slices-FitsLink :
    (fuel i : ℕ) (xs : Bytes) (size : ℕ) → 0 < size → All (FitsLink size) (slices fuel i xs size)
unfolding slices
slices-FitsLink zero i xs size h = tt
slices-FitsLink (suc fuel) i xs size h = elim (dec_lt i (length xs)) [
  | yes more ↦
      let len = length-take (i + size - i) (drop i xs) in
      rw (lt→ltb i (length xs) more) (
        (omega (arith, len, length-drop i xs), omega (arith, len)),
        slices-FitsLink fuel (i + size) xs size h,
      )
  | no past ↦ rw (le→not-ltb i (length xs) (omega arith)) tt
]

-- For a positive chunk size chunk returns, every chunk has at least one byte and at most that many,
-- and the chunks in order are the bytes that were cut.
pub chunk_lem :
    (framed : Bytes) (size : ℕ)
    → 0 < size
    → (cs : List Bytes) × (chunk framed size ≡ some cs)
      × (concat cs ≡ framed)
      × All (FitsLink size) cs
unfolding chunk slices
chunk_lem framed size h =
    let positive : (size == 0) ≡ false = ground arith in
    let n = length framed in
    (
      slices n 0 framed size,
      rw positive,
      concat-slices n 0 framed size h (omega arith),
      slices-FitsLink n 0 framed size h,
    )

-- `frame` returns for every length that two bytes hold.
pub frame_lem : (p : Bytes) → length p ≤ 65535 → frame p ≡ some (be16 (length p) ++ p)
unfolding frame
frame_lem p h = rw (le→leb (length p) 65535 h)

-- A packet of at most 460 bytes that is framed and cut for a link of any positive chunk size comes
-- out of a fresh assembler as it went in, alone, and nothing stays in the buffer.
pub chunk-feed_all :
    (p framed : Bytes) (size : ℕ) (cs : List Bytes)
    → IsPacket p
    → 0 < size
    → frame p ≡ some framed
    → chunk framed size ≡ some cs
    → feed_all new_assembler cs ≡ (p ∷ [], new_assembler)
unfolding frame
chunk-feed_all p framed size cs small positive made cutted =
    let (ds, e, whole, fits) = chunk_lem framed size positive in
    let same : ds ≡ cs = cc in
    let x = be16 (length p) ++ p in
    let bytes : framed ≡ x = ground arith in
    let stream : concat cs ≡ x = ap concat (sym same) ∙ whole ∙ bytes in
    feed_all-wire new_assembler cs (p ∷ []) []
      (stream ∙ sym (append-nil x) ∙ sym (append-nil (x ++ []))) (small, tt) tt tt
