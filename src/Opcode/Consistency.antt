-- ===== src/Opcode/Consistency.antt =====
-- types/opcode/opcode.go: the two tables agree, and what is registered stays.
use carrier.Prelude.{
  ℕ, ◌≤◌, ◌<◌, ◌≡◌, refl, arith, nat_eq, nat_beq_iff, ltb, false, [], ◌∷◌, Option, none, some,
  Bytes, Bool-cases, inl, inr,
}
use carrier.Prelude.Table.{load, store, has, load-store, load-store_self, has-load}
use carrier.Opcode.Opcodes.{
  Opcodes, store_pairs, initial, register_message_type, get_message_type, get_opcode,
}

-- The opcode that a message is sent with is one by which a receiver finds its type.
abbrev pub IsConsistent : Opcodes → Type 0
IsConsistent o = (msg code : ℕ) → get_opcode msg o ≡ some code → get_message_type code o ≡ some msg

abbrev added : ℕ → ℕ → Opcodes → Opcodes
added code msg o = record {
  opcode_tbl = store code msg o.opcode_tbl;
  msg_tbl = store msg code o.msg_tbl;
}

added-IsConsistent :
    (code msg : ℕ) (o : Opcodes)
    → IsConsistent o
    → has code o.opcode_tbl ≡ false
    → IsConsistent (added code msg o)
unfolding get_opcode get_message_type has
added-IsConsistent code msg o h new i d found = ground (
  arith,
  h i d,
  load-store msg i code o.msg_tbl,
  load-store code d msg o.opcode_tbl,
  nat_beq_iff msg i,
  nat_beq_iff code d,
)

-- What a registration does to the tables.
data Step (code msg : ℕ) (o : Opcodes) : Opcodes → Type 0 where
  same : Step code msg o o
  new : has code o.opcode_tbl ≡ false → 1000 ≤ code → Step code msg o (added code msg o)

register_message_type-Step :
    (code msg : ℕ) (raw : Option Bytes) (o : Opcodes)
    → Step code msg o (register_message_type code msg raw o).1
unfolding register_message_type
register_message_type-Step code msg raw o = elim (Bool-cases (ltb code 1000)) [
  | inl low ↦ rw low same
  | inr high ↦ empty_only raw high
]
  where
    empty_only :
        (r : Option Bytes)
        → ltb code 1000 ≡ false
        → Step code msg o (register_message_type code msg r o).1
    empty_only none high = rw high same
    empty_only (some (b ∷ rest)) high = rw high same
    empty_only (some []) high = elim (Bool-cases (has code o.opcode_tbl)) [
      | inl used ↦ rw (high, used) same
      | inr unused ↦ rw (high, unused) (new unused (ground arith))
    ]

-- `RegisterMessageType`, whether it registers the message or returns an error, keeps the tables
-- consistent, and takes no opcode from the message that has it; the opcodes below 1000 stay as
-- they are.
pub register_message_type-IsConsistent :
    (code msg : ℕ) (raw : Option Bytes) (o : Opcodes)
    → IsConsistent o
    → IsConsistent (register_message_type code msg raw o).1
      × ((d m : ℕ)
          → get_message_type d o ≡ some m
          → get_message_type d (register_message_type code msg raw o).1 ≡ some m)
      × ((d : ℕ)
          → d < 1000
          → get_message_type d (register_message_type code msg raw o).1 ≡ get_message_type d o)
unfolding get_message_type
register_message_type-IsConsistent code msg raw o h = go (register_message_type-Step code msg raw o)
  where
    go :
        {o' : Opcodes}
        → Step code msg o o'
        → IsConsistent o'
          × ((d m : ℕ) → get_message_type d o ≡ some m → get_message_type d o' ≡ some m)
          × ((d : ℕ) → d < 1000 → get_message_type d o' ≡ get_message_type d o)
    go same = (h, λ d m e. e, λ d e. refl)
    go (new unused high) = (
      added-IsConsistent code msg o h unused,
      λ d m e. ground (
        arith,
        load-store code d msg o.opcode_tbl,
        has-load code o.opcode_tbl unused,
        nat_beq_iff code d,
      ),
      λ d low. ground (arith, load-store code d msg o.opcode_tbl, nat_beq_iff code d),
    )

-- A message that is registered is found both ways, unless an error is returned.
pub get_opcode-register_message_type :
    (code msg : ℕ) (raw : Option Bytes) (o : Opcodes) {o' : Opcodes}
    → register_message_type code msg raw o ≡ (none, o')
    → (get_opcode msg o' ≡ some code) × (get_message_type code o' ≡ some msg) × (1000 ≤ code)
unfolding register_message_type get_opcode get_message_type
get_opcode-register_message_type code msg none o h = ground arith
get_opcode-register_message_type code msg (some (b ∷ rest)) o h = ground arith
get_opcode-register_message_type code msg (some []) o h =
    ground (arith, load-store_self code msg o.opcode_tbl, load-store_self msg code o.msg_tbl)

-- The tables of the package are consistent from the start.
pub initial-IsConsistent : IsConsistent initial
unfolding initial store_pairs get_opcode get_message_type load store
initial-IsConsistent msg code h = ground arith
