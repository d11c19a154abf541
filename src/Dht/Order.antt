-- ===== src/Dht/Order.antt =====
-- peer/identity.go: `Less` on distances is a strict order, as `sort.Slice` needs.
use carrier.Prelude.{◌≡◌, refl, true, false, [], ◌∷◌, arith, Bytes}
use carrier.Peer.Identity.{PeerId, compare_bytes, is_less, less_than, xor_id}
use carrier.Dht.Routes.{nearer}

compare_asym :
    (xs ys : Bytes) → is_less (compare_bytes xs ys) ≡ true → is_less (compare_bytes ys xs) ≡ false
unfolding compare_bytes is_less
compare_asym [] [] h = refl
compare_asym [] (y ∷ ys) h = refl
compare_asym (x ∷ xs) [] h = cc
compare_asym (x ∷ xs) (y ∷ ys) h = ground (arith, compare_asym xs ys)

-- `ys` is not less than `xs`, nor `zs` than `ys`.
compare_trans :
    (xs ys zs : Bytes)
    → is_less (compare_bytes ys xs) ≡ false
    → is_less (compare_bytes zs ys) ≡ false
    → is_less (compare_bytes zs xs) ≡ false
unfolding compare_bytes is_less
compare_trans [] [] [] h k = refl
compare_trans [] [] (z ∷ zs) h k = refl
compare_trans [] (y ∷ ys) [] h k = refl
compare_trans [] (y ∷ ys) (z ∷ zs) h k = refl
compare_trans (x ∷ xs) [] zs h k = cc
compare_trans (x ∷ xs) (y ∷ ys) [] h k = cc
compare_trans (x ∷ xs) (y ∷ ys) (z ∷ zs) h k = ground (arith, compare_trans xs ys zs)

pub nearer_asym : (t p q : PeerId) → nearer t p q ≡ true → nearer t q p ≡ false
unfolding nearer less_than
nearer_asym t p q h = compare_asym (xor_id p t).id (xor_id q t).id h

pub nearer_trans :
    (t p q r : PeerId) → nearer t q p ≡ false → nearer t r q ≡ false → nearer t r p ≡ false
unfolding nearer less_than
nearer_trans t p q r h k = compare_trans (xor_id p t).id (xor_id q t).id (xor_id r t).id h k
