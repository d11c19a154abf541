-- ===== src/Window/Inbox.antt =====
-- What a receive window promises: the values pushed come out in the order of their nonces, without
-- gaps.
use carrier.Prelude.{
  ℕ, zero, suc, ◌+◌, List, [], ◌∷◌, Option, none, some, nat_beq, if◌then◌else◌, length,
}

-- The next nonce to deliver, and what arrived under each nonce.
pub record Inbox (V : Type 0) : Type 0 where
  pub next : ℕ
  pub arrived : ℕ → Option V

module _ {V : Type 0} where
  unfoldable pub empty : ℕ → Inbox V
  empty next = record { next = next; arrived = λ n. none }

  unfoldable pub accept : ℕ → V → Inbox V → Inbox V
  accept nonce v a = record a { arrived = λ n. if nat_beq n nonce then some v else a.arrived n }

  -- What can be delivered from a nonce on, up to a number of values.
  abbrev pub in_order : (ℕ → Option V) → ℕ → ℕ → List V
  in_order arrived zero n = []
  in_order arrived (suc k) n = elim (arrived n) [
    | none ↦ []
    | some v ↦ v ∷ in_order arrived k (suc n)
  ]

  unfoldable pub deliver : ℕ → Inbox V → List V × Inbox V
  deliver size a =
      let values = in_order a.arrived size a.next in
      (values, record a { next = a.next + length values })
