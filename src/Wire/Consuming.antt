-- ===== src/Wire/Consuming.antt =====
-- network/stream.go and network/session.go: what receiving a message takes from the connection.
use carrier.Prelude.{
  ℕ, zero, suc, ◌+◌, ◌-◌, ◌<◌, ◌≤◌, ◌≡◌, refl, ap, sym, ◌∙◌, arith, Bool, true, false, [], ◌∷◌,
  Option, none, some, Bytes, leb, nat_beq, if◌then◌else◌, length, take, drop, length-append,
  length-drop, Bool-cases, Option-cases, inl, inr,
}
use carrier.Prelude.Words.{uint16, uint32}
use carrier.Wire.Channel.{Conn, content, read_exact, prepend}
use carrier.Wire.Compress.{Config, Compressors, get_compress_info, uncompress}
use carrier.Wire.Message.{Message, Codec, header_valid}
use carrier.Wire.Receive.{
  ReceiveError, receive_message, receive_quic_message, decode_body, or_else, unless,
  network_id_unread, info_unread, size_unread, body_unread, empty_message, wrong_network,
  unmarshal_failed, uncompress_panicked,
}
use carrier.Wire.Result.{Result, ok, err, ◌>>=◌, >>=-eq-ok}

prepend-inv :
    (s : Bytes) (r : Option (Bytes × Conn)) {b : Bytes} {c : Conn}
    → prepend s r ≡ some (b, c)
    → (b' : Bytes) × (r ≡ some (b', c))
prepend-inv s none h = cc
prepend-inv s (some (b', c')) {b} {c} h = (b', ground arith)

pub read_exact-consumes :
    (n : ℕ) (conn : Conn) {b : Bytes} {c : Conn}
    → read_exact n conn ≡ some (b, c)
    → n + length (content c) ≡ length (content conn)
unfolding read_exact
read_exact-consumes zero conn h = ground arith
read_exact-consumes (suc n) [] h = cc
read_exact-consumes (suc n) (s ∷ conn) {b} {c} h = elim (Bool-cases (leb (length s) (suc n))) [
  | inl whole ↦
      let e : prepend s (read_exact (suc n - length s) conn) ≡ some (b, c) = ground arith in
      let (b', e') = prepend-inv s (read_exact (suc n - length s) conn) e in
      ground (arith, read_exact-consumes (suc n - length s) conn e', length-append s (content conn))
  | inr part ↦
      let e : ◌≡◌ {A = Option (Bytes × Conn)} (some (take (suc n) s, drop (suc n) s ∷ conn))
          (some (b, c)) =
        ground arith in
      let e' : drop (suc n) s ∷ conn ≡ c = ground arith in
      ground (
        arith,
        sym e',
        length-append s (content conn),
        length-append (drop (suc n) s) (content conn),
        length-drop (suc n) s,
      )
]

module _ (net_id : ℕ) where
  -- A result that took `n` bytes at least, and whose message has a header that is asked for.
  abbrev Takes : ℕ → Conn → Result ReceiveError (Message × Conn) → Type 0
  Takes n conn r =
      (m : Message) (conn' : Conn)
      → r ≡ ok (m, conn')
      → (header_valid net_id m ≡ true) × (n + length (content conn') ≤ length (content conn))

  read-Takes :
      (n : ℕ) (conn : Conn) (e : ReceiveError)
      (next : Bytes × Conn → Result ReceiveError (Message × Conn))
      → ((b : Bytes) (c : Conn) → Takes 0 c (next (b, c)))
      → Takes n conn (or_else (read_exact n conn) e >>= next)
  read-Takes n conn e next after m conn' h = elim (Option-cases (read_exact n conn)) [
    | inl short ↦
        let failed : (or_else (read_exact n conn) e >>= next) ≡ err e = rw short refl in cc
    | inr ((b, c), full) ↦
        let went : (or_else (read_exact n conn) e >>= next) ≡ next (b, c) = rw full refl in
        let rest = after b c m conn' (sym went ∙ h) in
        (rest.0, omega (arith, rest.1, read_exact-consumes n conn full))
  ]

  unless-Takes :
      (conn : Conn) (b : Bool) (e : ReceiveError)
      (next : Unit {0} → Result ReceiveError (Message × Conn))
      → Takes 0 conn (next tt)
      → Takes 0 conn (unless b e >>= next)
  unless-Takes conn true e next after m conn' h = cc
  unless-Takes conn false e next after m conn' h = after m conn' h

  weaken :
      (n : ℕ) (conn : Conn) (r : Result ReceiveError (Message × Conn))
      → Takes n conn r
      → Takes 0 conn r
  weaken n conn r takes m conn' h = let t = takes m conn' h in (t.0, omega (arith, t.1))

  decoded-Takes :
      (conn : Conn) (r : Result ReceiveError Message)
      → ((m : Message) → r ≡ ok m → header_valid net_id m ≡ true)
      → Takes 0 conn (r >>= λ m. ok (m, conn))
  decoded-Takes conn (err x) valid m conn' h = cc
  decoded-Takes conn (ok m1) valid m conn' h =
      let same : m1 ≡ m = ground arith in
      let left : conn ≡ conn' = ground arith in
      (valid m (ap ok same), omega (arith, ap (λ c. length (content c)) left))

module _ (codec : Codec) (z : Compressors) (c : Config) where
  decode_body-valid :
      (info : ℕ × Bool) (body : Bytes) (m : Message)
      → decode_body codec z c info body ≡ ok m
      → header_valid c.net_id m ≡ true
  unfolding decode_body
  decode_body-valid (algo, enabled) body m h =
      let (plain, e1, h1) =
        >>=-eq-ok
          (or_else (if enabled then uncompress z algo body else some body) uncompress_panicked) _
          h in
      let (m', e, h') = >>=-eq-ok (or_else (codec.unmarshal plain) unmarshal_failed) _ h1 in
      ground arith

  -- The parts of the two functions, from the last on.
  abbrev from_body : Bytes → Bytes → Conn → Result ReceiveError (Message × Conn)
  from_body info body conn = do
    m ← decode_body codec z c (get_compress_info (uint16 info)) body
    ok (m, conn)

  abbrev from_size : Bytes → Bytes → Conn → Result ReceiveError (Message × Conn)
  from_size info size conn = do
    (body, conn4) ← or_else (read_exact (uint32 size) conn) body_unread
    from_body info body conn4

  abbrev from_info : Bytes → Conn → Result ReceiveError (Message × Conn)
  from_info info conn = do
    (size, conn3) ← or_else (read_exact 4 conn) size_unread
    _ ← unless (nat_beq (uint32 size) 0) empty_message
    from_size info size conn3

  abbrev from_id : Bytes → Conn → Result ReceiveError (Message × Conn)
  from_id id conn = do
    _ ← unless (if nat_beq (uint32 id) c.net_id then false else true) wrong_network
    (info, conn2) ← or_else (read_exact 2 conn) info_unread
    from_info info conn2

  from_body-Takes :
      (info body : Bytes) (conn : Conn) → Takes c.net_id 0 conn (from_body info body conn)
  from_body-Takes info body conn =
      decoded-Takes c.net_id conn (decode_body codec z c (get_compress_info (uint16 info)) body)
        (decode_body-valid (get_compress_info (uint16 info)) body)

  from_size-Takes :
      (info size : Bytes) (conn : Conn) → Takes c.net_id 0 conn (from_size info size conn)
  from_size-Takes info size conn = weaken c.net_id (uint32 size) conn (from_size info size conn) (
      read-Takes c.net_id (uint32 size) conn body_unread (λ p. from_body info p.0 p.1)
        (from_body-Takes info))

  from_info-Takes : (info : Bytes) (conn : Conn) → Takes c.net_id 0 conn (from_info info conn)
  from_info-Takes info conn = weaken c.net_id 4 conn (from_info info conn) (
      read-Takes c.net_id 4 conn size_unread
        (λ p. unless (nat_beq (uint32 p.0) 0) empty_message >>= λ _. from_size info p.0 p.1)
        (λ size conn3.
          unless-Takes c.net_id conn3 (nat_beq (uint32 size) 0) empty_message
            (λ _. from_size info size conn3) (from_size-Takes info size conn3)))

  from_id-Takes : (id : Bytes) (conn : Conn) → Takes c.net_id 0 conn (from_id id conn)
  from_id-Takes id conn =
      let rest =
        λ (u : Unit {0}). or_else (read_exact 2 conn) info_unread >>= λ p. from_info p.0 p.1 in
      unless-Takes c.net_id conn (if nat_beq (uint32 id) c.net_id then false else true)
        wrong_network rest
        (weaken c.net_id 2 conn (rest tt)
          (read-Takes c.net_id 2 conn info_unread (λ p. from_info p.0 p.1) from_info-Takes))

  -- A message that `receiveMessage` returns has a header that is asked for, and took bytes.
  pub receive_message-consumes :
      (conn : Conn) (m : Message) (conn' : Conn)
      → receive_message codec z c conn ≡ ok (m, conn')
      → (header_valid c.net_id m ≡ true) × (length (content conn') < length (content conn))
  unfolding receive_message
  receive_message-consumes conn m conn' h =
      let t =
        read-Takes c.net_id 4 conn network_id_unread (λ p. from_id p.0 p.1) from_id-Takes m conn'
          h in
      (t.0, omega (arith, t.1))

  -- `receiveQuicMessage` reads the same parts.
  pub receive_quic_message-consumes :
      (conn : Conn) (m : Message) (conn' : Conn)
      → receive_quic_message codec z c conn ≡ ok (m, conn')
      → (header_valid c.net_id m ≡ true) × (length (content conn') < length (content conn))
  unfolding receive_message receive_quic_message
  receive_quic_message-consumes conn m conn' h = receive_message-consumes conn m conn' h
