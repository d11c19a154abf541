-- ===== src/Wire/Sending.antt =====
-- network/stream.go: the write loop, and a run of messages over one connection.
use carrier.Prelude.{
  ℕ, zero, suc, ◌+◌, ◌<◌, ◌≡◌, refl, ap, sym, ◌∙◌, arith, Bool, true, false, List, [], ◌∷◌, ◌++◌,
  append-nil, append_assoc, none, Bytes, length, take, drop, take_all, take-append-drop,
}
use carrier.Wire.Channel.{Conn, content}
use carrier.Wire.Compress.{Config, Compressors}
use carrier.Wire.Frame.{
  SendError, WriteAnswer, wrote, broken, write_loop, last_flush, build_frame, send_message,
}
use carrier.Wire.Message.{Message, Codec, IsCanonical, header_valid}
use carrier.Wire.Receive.{ReceiveError, receive_message}
use carrier.Wire.Result.{Result, ok, err, ◌>>=◌}
use carrier.Wire.RoundTrip.{receive_message-build_frame}

take-add {ℓ} :
    {A : Type ℓ} (n k : ℕ) (xs : List A) → take n xs ++ take k (drop n xs) ≡ take (n + k) xs
take-add zero k xs = let e : k ≡ 0 + k = omega arith in ap (λ j. take j xs) e
take-add (suc n) k [] = take_all k [] (omega arith) ∙ sym (take_all (suc n + k) [] (omega arith))
take-add (suc n) k (x ∷ xs) =
    let e : suc (n + k) ≡ suc n + k = omega arith in
    ap (◌∷◌ x) (take-add n k xs) ∙ ap (λ j. take j (x ∷ xs)) e

-- What reached the connection is the start of the frame, and the whole of it unless an error is
-- returned.
pub write_loop_lem :
    (answers : List WriteAnswer) (rest sent : Bytes)
    → let (out, e) = write_loop answers rest sent in
      ((n : ℕ) × (out ≡ sent ++ take n rest)) × (e ≡ none → out ≡ sent ++ rest)
unfolding write_loop
write_loop_lem [] rest sent =
    ((length rest, ap (◌++◌ sent) (sym (take_all (length rest) rest (omega arith)))), λ h. refl)
write_loop_lem (a ∷ answers) [] sent = ((0, sym (append-nil sent)), λ h. sym (append-nil sent))
write_loop_lem (broken ∷ answers) (x ∷ rest) sent = ((0, sym (append-nil sent)), λ h. cc)
write_loop_lem (wrote n true ∷ answers) (x ∷ rest) sent =
    let (partial, whole) = write_loop_lem answers (drop n (x ∷ rest)) (sent ++ take n (x ∷ rest)) in
    (
      (
        n + partial.0,
        partial.1 ∙ append_assoc sent _ _ ∙ ap (◌++◌ sent) (take-add n partial.0 (x ∷ rest)),
      ),
      λ h. whole h ∙ append_assoc sent _ _ ∙ ap (◌++◌ sent) (take-append-drop n (x ∷ rest)),
    )
write_loop_lem (wrote n false ∷ answers) (x ∷ rest) sent = ((n, refl), λ h. cc)

module _ (codec : Codec) (z : Compressors) (c : Config) where
  -- `sendMessage` returns no error only if the whole frame, and nothing else, is on the connection.
  pub send_message-build_frame :
      (answers : List WriteAnswer) (flushed : Bool) (m : Message) {sent : Bytes}
      → send_message codec z c answers flushed m ≡ (sent, none)
      → build_frame codec z c m ≡ ok sent
  unfolding send_message last_flush
  send_message-build_frame answers flushed m {sent} h = go (build_frame codec z c m) refl
    where
      go : (r : Result SendError Bytes) → build_frame codec z c m ≡ r → r ≡ ok sent
      go (err e) eq = ground arith
      go (ok frame) eq = ground (arith, (write_loop_lem answers frame []).1)

  -- The receiver's loop: `n` messages in a row.
  pub receive_all : ℕ → Conn → Result ReceiveError (List Message × Conn)
  receive_all zero conn = ok ([], conn)
  receive_all (suc n) conn = do
    (m, conn1) ← receive_message codec z c conn
    (ms, conn2) ← receive_all n conn1
    ok (m ∷ ms, conn2)

  -- What the round trip asks of one message.
  pub record IsSent (m : Message) (frame : Bytes) : Type 0 where
    pub built : build_frame codec z c m ≡ ok frame
    pub canonical : IsCanonical m
    pub valid : header_valid c.net_id m ≡ true
    pub filled : 10 < length frame
    pub fits : length frame < 4294967306

  abbrev pub AreSent : List Message → List Bytes → Type 0
  AreSent [] [] = Unit
  AreSent [] (f ∷ fs) = ⊥
  AreSent (m ∷ ms) [] = ⊥
  AreSent (m ∷ ms) (f ∷ fs) = IsSent m f × AreSent ms fs

  -- Messages sent one after another over one connection are received, all and in order.
  pub receive_all-AreSent :
      (ms : List Message) (frames : List Bytes) (conn : Conn) (rest : Bytes)
      → AreSent ms frames
      → c.net_id < 4294967296
      → content conn ≡ content frames ++ rest
      → (conn' : Conn) × (receive_all (length ms) conn ≡ ok (ms, conn')) × (content conn' ≡ rest)
  unfolding receive_all
  receive_all-AreSent [] [] conn rest s id_fits h = (conn, refl, h)
  receive_all-AreSent [] (f ∷ fs) conn rest s id_fits h = absurd s
  receive_all-AreSent (m ∷ ms) [] conn rest s id_fits h = absurd s
  receive_all-AreSent (m ∷ ms) (f ∷ fs) conn rest s id_fits h =
      let one = s.0 in
      let (conn1, e, left) =
        receive_message-build_frame codec z c m conn (content fs ++ rest) one.built one.canonical
          one.valid id_fits one.filled one.fits (h ∙ append_assoc f (content fs) rest) in
      let (conn2, e', left') = receive_all-AreSent ms fs conn1 rest s.1 id_fits left in
      (conn2, rw (e, e') refl, left')
