-- ===== src/Framing.antt =====
-- Packet framing on a byte stream (node/ble/framing.py): a packet behind its 2-byte big-endian
-- length, cut into chunks for the sender and put together again by `FrameAssembler`.
pub mod Wire
pub mod Stream
pub mod Chunks
use meshlink_node.Prelude.{
  Bytes, List, Option, [], drop, if◌then◌else◌, leb, length, ltb, map, none, some, suc, take, zero,
  ℕ, ◌%◌, ◌*◌, ◌++◌, ◌+◌, ◌-◌, ◌/◌, ◌==◌, ◌∷◌, nat_eq,
}

-- MAX_FRAME
abbrev pub max_frame : ℕ
max_frame = 460

-- struct.pack(">H", n), which raises when n does not fit two bytes
abbrev pub be16 : ℕ → Bytes
be16 n = (n / 256) ∷ (n % 256) ∷ []

unfoldable pub frame : Bytes → Option Bytes
frame packet = if leb (length packet) 65535 then some (be16 (length packet) ++ packet) else none

-- range(start, stop, step), `fuel` numbers at most
unfoldable pub range_by : ℕ → ℕ → ℕ → ℕ → List ℕ
range_by zero start stop step = []
range_by (suc fuel) start stop step =
    let rest = range_by fuel (start + step) stop step in if ltb start stop then start ∷ rest else []

-- xs[i:j]
abbrev pub slice : Bytes → ℕ → ℕ → Bytes
slice xs i j = take (j - i) (drop i xs)

-- `range` raises on a step of 0
unfoldable pub chunk : Bytes → ℕ → Option (List Bytes)
unfolding range_by
chunk framed chunk_size =
    if chunk_size == 0
    then none
    else some (
        map (λ i. slice framed i (i + chunk_size))
          (range_by (length framed) 0 (length framed) chunk_size))

pub record FrameAssembler : Type 0 where
  pub buf : Bytes

abbrev pub new_assembler : FrameAssembler
new_assembler = record { buf = [] }

-- `feed` returns the packets or raises ValueError with the length that it read.
pub data Fed : Type 0 where
  packets : List Bytes → Fed
  corrupt : ℕ → Fed

-- The while loop of `feed`, `fuel` rounds at most, over the buffer and the packets so far.
unfoldable pub drain : ℕ → Bytes → List Bytes → Fed × FrameAssembler
drain (suc fuel) (hi ∷ lo ∷ rest) done =
    let len = hi * 256 + lo in
    let next = drain fuel (drop len rest) (done ++ take len rest ∷ []) in
    if ltb max_frame len
    then (corrupt len, record { buf = [] })
    else if ltb (length (hi ∷ lo ∷ rest)) (2 + len)
    then (packets done, record { buf = hi ∷ lo ∷ rest })
    else next
drain _ buf done = (packets done, record { buf = buf })

-- Each round takes two bytes or more, so the buffer's length is fuel enough.
unfoldable pub feed : FrameAssembler → Bytes → Fed × FrameAssembler
unfolding drain
feed s bytes = let buf = s.buf ++ bytes in drain (length buf) buf []

unfoldable pub reset : FrameAssembler → FrameAssembler
reset s = record { buf = [] }
