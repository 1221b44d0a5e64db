-- ===== src/Examples/Frames.antt =====
-- Frames on concrete bytes (node/ble/framing.py).
use meshlink_node.Prelude.{
  All, Bytes, List, [], arith, concat, refl, some, ◌∷◌, ◌≡◌, ◌⊎◌, nat_eq, list_eq,
}
use meshlink_node.Framing.{frame, chunk, new_assembler, packets, corrupt, feed, range_by}
use meshlink_node.Framing.Chunks.{FitsLink, chunk_lem}
use meshlink_node.Framing.Wire.{IsPartial, IsCorrupt, head16, Parse, feed_total}
use meshlink_node.Framing.Stream.{feed_all, feed_all-wire}

-- Two packets in three chunks that cut the first length prefix in the middle.
feed_all-wire_example :
    feed_all new_assembler ((0 ∷ []) ∷ (2 ∷ 7 ∷ []) ∷ (8 ∷ 0 ∷ 1 ∷ 9 ∷ 0 ∷ []) ∷ [])
    ≡ ((7 ∷ 8 ∷ []) ∷ (9 ∷ []) ∷ [], record { buf = 0 ∷ [] })
feed_all-wire_example =
    feed_all-wire new_assembler ((0 ∷ []) ∷ (2 ∷ 7 ∷ []) ∷ (8 ∷ 0 ∷ 1 ∷ 9 ∷ 0 ∷ []) ∷ [])
      ((7 ∷ 8 ∷ []) ∷ (9 ∷ []) ∷ []) (0 ∷ []) refl (omega arith, (omega arith, tt)) tt tt

feed_total_example :
    (p : Parse (0 ∷ 1 ∷ 9 ∷ 0 ∷ [])) × ((IsPartial p.rest
        × (feed (record { buf = 0 ∷ [] }) (1 ∷ 9 ∷ 0 ∷ [])
            ≡ (packets p.whole, record { buf = p.rest })))
      ⊎ (IsCorrupt p.rest
          × (feed (record { buf = 0 ∷ [] }) (1 ∷ 9 ∷ 0 ∷ [])
              ≡ (corrupt (head16 p.rest), record { buf = [] }))))
feed_total_example =
    feed_total (record { buf = 0 ∷ [] }) (1 ∷ 9 ∷ 0 ∷ []) (omega arith, tt)
      (omega arith, (omega arith, (omega arith, tt)))

chunk_lem_example :
    (cs : List Bytes) × (chunk (0 ∷ 3 ∷ 1 ∷ 2 ∷ 3 ∷ []) 2 ≡ some cs)
    × (concat cs ≡ 0 ∷ 3 ∷ 1 ∷ 2 ∷ 3 ∷ [])
    × All (FitsLink 2) cs
chunk_lem_example = chunk_lem (0 ∷ 3 ∷ 1 ∷ 2 ∷ 3 ∷ []) 2 (omega arith)

chunk_of_five :
    chunk (0 ∷ 3 ∷ 1 ∷ 2 ∷ 3 ∷ []) 2 ≡ some ((0 ∷ 3 ∷ []) ∷ (1 ∷ 2 ∷ []) ∷ (3 ∷ []) ∷ [])
unfolding chunk range_by
chunk_of_five = refl

frame_of_three : frame (1 ∷ 2 ∷ 3 ∷ []) ≡ some (0 ∷ 3 ∷ 1 ∷ 2 ∷ 3 ∷ [])
unfolding frame
frame_of_three = refl
