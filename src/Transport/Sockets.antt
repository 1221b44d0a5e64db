-- ===== src/Transport/Sockets.antt =====
-- The `_reader` threads of the WiFi transport, whose reads come in any order
-- (node/transport/wifi_transport.py). A thread is known by its socket, and has an assembler of its own.
use meshlink_node.Prelude.{
  Bool, Bool-cases, Dict, List, Option, Text, [], ap, beq_eq, beq_refl, false, get, get-put,
  get-remove, if◌then◌else◌, inl, inr, map, none, put, refl, remove, some, subst, sym, ℕ, ◌++◌,
  ◌==◌, ◌∙◌, ◌∷◌, ◌≡◌, nat_eq, list_eq,
}
use meshlink_node.Gatt.{Peer}
use meshlink_node.Framing.{FrameAssembler, new_assembler, Fed, packets, corrupt, feed}
use meshlink_node.Transport.Ble.{Call}
use meshlink_node.Transport.Wifi.{
  WifiTransport, Recv, data_in, recv_fails, accept, reader_done, dispatch_all, read_on, read_loop,
  wifi_peer,
}

pub record Reader : Type 0 where
  pub peer : Peer
  pub assembler : FrameAssembler

pub record Sockets : Type 0 where
  pub wifi : WifiTransport
  pub readers : Dict ℕ Reader

-- A turn of `_accept_loop`: the connection gets a thread.
unfoldable pub accepted : Sockets → ℕ → Text → Text → Sockets × List Call
unfolding accept
accepted s conn host port =
    let (wifi, calls) = accept s.wifi conn host port in
    let reader : Reader = record { peer = wifi_peer host port; assembler = new_assembler } in
    (
      record {
        wifi = wifi;
        readers = if s.wifi.running then put s.readers conn reader else s.readers;
      },
      calls,
    )

-- The `finally` of `_reader`, and the end of its thread.
unfoldable pub closed : Sockets → ℕ → Peer → Sockets
unfolding reader_done
closed s conn peer = record { wifi = reader_done s.wifi peer; readers = remove s.readers conn }

module _ (max_packet : ℕ) where
  -- One turn of the loop, after `feed`.
  unfoldable pub fed : Sockets → ℕ → Peer → Fed × FrameAssembler → Sockets × List Call
  unfolding closed
  fed s conn peer (corrupt len, a) = (closed s conn peer, [])
  fed s conn peer (packets ps, a) = (
    record s { readers = put s.readers conn (record { peer = peer; assembler = a }) },
    dispatch_all max_packet s.wifi.callback peer ps,
  )

  -- What `recv` returns to a socket's thread, if it has one.
  unfoldable pub turn : Sockets → ℕ → Option Reader → Recv → Sockets × List Call
  unfolding closed fed
  turn s conn none x = (s, [])
  turn s conn (some r) recv_fails = (closed s conn r.peer, [])
  turn s conn (some r) (data_in []) = (closed s conn r.peer, [])
  turn s conn (some r) (data_in (b ∷ bs)) = fed s conn r.peer (feed r.assembler (b ∷ bs))

  abbrev pub read : Sockets → ℕ → Recv → Sockets × List Call
  read s conn x = turn s conn (get s.readers conn) x

  -- Reads of any sockets in any order, each call with the socket whose thread makes it.
  unfoldable pub read_all : Sockets → List (ℕ × Recv) → Sockets × List (ℕ × Call)
  unfolding turn
  read_all s [] = (s, [])
  read_all s ((conn, x) ∷ xs) =
      let (s', calls) = read s conn x in
      let (s'', more) = read_all s' xs in (s'', map (λ y. (conn, y)) calls ++ more)

-- What one socket's part is.
abbrev pub of_socket {ℓ} : {A : Type ℓ} → ℕ → List (ℕ × A) → List A
of_socket conn [] = []
of_socket conn ((c, x) ∷ xs) = let rest = of_socket conn xs in if c == conn then x ∷ rest else rest

of_socket-map :
    (conn c : ℕ) (xs : List Call) (ys : List (ℕ × Call))
    → of_socket conn (map (λ y. (c, y)) xs ++ ys)
      ≡ (if c == conn then xs else []) ++ of_socket conn ys
of_socket-map conn c [] ys = elim (Bool-cases (c == conn)) [ inl e ↦ rw e | inr e ↦ rw e ]
of_socket-map conn c (x ∷ xs) ys = elim (Bool-cases (c == conn)) [
  | inl e ↦ rw (e, of_socket-map conn c xs ys, e)
  | inr e ↦ rw (e, of_socket-map conn c xs ys, e)
]

module _ (max_packet : ℕ) where
  -- The calls of a socket's thread on all that its `recv` returns; none without a thread.
  abbrev pub alone : Bool → Option Reader → List Recv → List Call
  alone set none xs = []
  alone set (some r) xs = (read_loop max_packet set r.peer r.assembler xs).0

  -- A turn of another socket's thread leaves this one's alone.
  turn-other :
      (s : Sockets) (c conn : ℕ) (o : Option Reader) (x : Recv)
      → (c == conn) ≡ false
      → get (turn max_packet s c o x).0.readers conn ≡ get s.readers conn
  unfolding turn fed closed
  turn-other s c conn none x ne = refl
  turn-other s c conn (some r) recv_fails ne = get-remove s.readers c conn ∙ rw ne refl
  turn-other s c conn (some r) (data_in []) ne = get-remove s.readers c conn ∙ rw ne refl
  turn-other s c conn (some r) (data_in (b ∷ bs)) ne = fed-other (feed r.assembler (b ∷ bs))
    where
      fed-other :
          (y : Fed × FrameAssembler)
          → get (fed max_packet s c r.peer y).0.readers conn ≡ get s.readers conn
      fed-other (corrupt len, a) = get-remove s.readers c conn ∙ rw ne refl
      fed-other (packets ps, a) = get-put s.readers c conn _ ∙ rw ne refl

  pub turn-callback :
      (s : Sockets) (c : ℕ) (o : Option Reader) (x : Recv)
      → (turn max_packet s c o x).0.wifi.callback ≡ s.wifi.callback
  unfolding turn fed closed reader_done
  turn-callback s c none x = refl
  turn-callback s c (some r) recv_fails = refl
  turn-callback s c (some r) (data_in []) = refl
  turn-callback s c (some r) (data_in (b ∷ bs)) = fed-callback (feed r.assembler (b ∷ bs))
    where
      fed-callback :
          (y : Fed × FrameAssembler)
          → (fed max_packet s c r.peer y).0.wifi.callback ≡ s.wifi.callback
      fed-callback (corrupt len, a) = refl
      fed-callback (packets ps, a) = refl

  -- The thread's own turn is a turn of its loop.
  turn-alone :
      (s : Sockets) (conn : ℕ) (o : Option Reader) (x : Recv) (xs : List Recv)
      → get s.readers conn ≡ o
      → let (s', calls) = turn max_packet s conn o x in
        alone s.wifi.callback o (x ∷ xs) ≡ calls ++ alone s.wifi.callback (get s'.readers conn) xs
  unfolding turn fed closed read_loop read_on
  turn-alone s conn none x xs e = rw e refl
  turn-alone s conn (some r) recv_fails xs e =
      rw (get-remove s.readers conn conn, beq_refl conn) refl
  turn-alone s conn (some r) (data_in []) xs e =
      rw (get-remove s.readers conn conn, beq_refl conn) refl
  turn-alone s conn (some r) (data_in (b ∷ bs)) xs e = fed-alone (feed r.assembler (b ∷ bs)) refl
    where
      fed-alone :
          (y : Fed × FrameAssembler)
          → feed r.assembler (b ∷ bs) ≡ y
          → (read_loop max_packet s.wifi.callback r.peer r.assembler (data_in (b ∷ bs) ∷ xs)).0
            ≡ (fed max_packet s conn r.peer y).1
              ++ alone s.wifi.callback (get (fed max_packet s conn r.peer y).0.readers conn) xs
      fed-alone (corrupt len, a) f = rw (f, get-remove s.readers conn conn, beq_refl conn) refl
      fed-alone (packets ps, a) f =
          rw
            (
              f,
              get-put s.readers conn conn (record { peer = r.peer; assembler = a }),
              beq_refl conn,
            )
            refl

  alone-nil : (set : Bool) (o : Option Reader) → alone set o [] ≡ []
  unfolding read_loop
  alone-nil set none = refl
  alone-nil set (some r) = refl

  -- Whatever the threads of the WiFi connections read, and in whatever order, the calls that one
  -- connection's thread makes are those that its loop makes by itself on what its own recv
  -- returned; a connection without a thread makes none.
  pub of_socket-read_all :
      (s : Sockets) (conn : ℕ) (xs : List (ℕ × Recv))
      → of_socket conn (read_all max_packet s xs).1
        ≡ alone s.wifi.callback (get s.readers conn) (of_socket conn xs)
  unfolding read_all
  of_socket-read_all s conn [] = sym (alone-nil s.wifi.callback (get s.readers conn))
  of_socket-read_all s conn ((c, x) ∷ xs) =
      let s' = (read max_packet s c x).0 in
      let calls = (read max_packet s c x).1 in
      let set = s.wifi.callback in
      let later = of_socket conn xs in
      let rest : of_socket conn (read_all max_packet s' xs).1
          ≡ alone set (get s'.readers conn) later =
        of_socket-read_all s' conn xs
        ∙ ap (λ b. alone b (get s'.readers conn) later) (turn-callback s c (get s.readers c) x) in
      of_socket-map conn c calls (read_all max_packet s' xs).1 ∙ elim (Bool-cases (c == conn)) [
        | inl e ↦
            rw (e, rest)
              (subst
                (λ z.
                  calls ++ alone set (get s'.readers z) later
                  ≡ alone set (get s.readers z) (x ∷ later))
                (beq_eq c conn e) (sym (turn-alone s c (get s.readers c) x later refl)))
        | inr e ↦
            rw (e, rest) (ap (λ o. alone set o later) (turn-other s c conn (get s.readers c) x e))
      ]
