-- ===== src/Opcode/Opcodes.antt =====
-- types/opcode/opcode.go: the two tables, `opcodeTbl` from opcodes to messages and `msgTbl` from
-- their types to opcodes. A message is known by its reflected type, a number.
use carrier.Prelude.{ℕ, nat_eq, ltb, List, [], ◌∷◌, Option, none, some, Bytes, if◌then◌else◌}
use carrier.Prelude.Table.{load, store, has}

pub record Opcodes : Type 0 where
  pub opcode_tbl : List (ℕ × ℕ)
  pub msg_tbl : List (ℕ × ℕ)

-- The pairs of the package's `init`, the type of each given by the place of its message there.
abbrev pub msg_opcode_pairs : List (ℕ × ℕ)
msg_opcode_pairs =
    (0, 1)
    ∷ (1, 10)
    ∷ (2, 11)
    ∷ (3, 12)
    ∷ (4, 13)
    ∷ (5, 2)
    ∷ (6, 3)
    ∷ (7, 14)
    ∷ (8, 15)
    ∷ (9, 9)
    ∷ (10, 16)
    ∷ (11, 17)
    ∷ (12, 18)
    ∷ []

unfoldable pub store_pairs : List (ℕ × ℕ) → Opcodes → Opcodes
store_pairs [] o = o
store_pairs ((msg, code) ∷ rest) o =
    store_pairs rest
      (record { opcode_tbl = store code msg o.opcode_tbl; msg_tbl = store msg code o.msg_tbl })

unfoldable pub initial : Opcodes
unfolding store_pairs
initial = store_pairs msg_opcode_pairs (record { opcode_tbl = []; msg_tbl = [] })

pub data RegisterError : Type 0 where
  reserved not_marshalled not_empty exists : RegisterError

-- `RegisterMessageType`; `raw` is what `proto.Marshal` makes of the message.
unfoldable pub register_message_type :
    ℕ → ℕ → Option Bytes → Opcodes → Option RegisterError × Opcodes
unfolding has
register_message_type code msg raw o = if ltb code 1000 then (some reserved, o) else elim raw [
  | none ↦ (some not_marshalled, o)
  | some (b ∷ rest) ↦ (some not_empty, o)
  | some [] ↦ if has code o.opcode_tbl then (some exists, o) else (
    none,
    record { opcode_tbl = store code msg o.opcode_tbl; msg_tbl = store msg code o.msg_tbl },
  )
]

-- `GetMessageType` and `GetOpcode`; `none` is the error.
unfoldable pub get_message_type : ℕ → Opcodes → Option ℕ
get_message_type code o = load code o.opcode_tbl

unfoldable pub get_opcode : ℕ → Opcodes → Option ℕ
get_opcode msg o = load msg o.msg_tbl
