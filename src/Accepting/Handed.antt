-- ===== src/Accepting/Handed.antt =====
-- network/network.go: what the accept loops hand over, and that they end.
use carrier.Prelude.{
  ℕ, zero, suc, ◌≡◌, refl, Bool, true, false, List, [], ◌∷◌, ◌++◌, map, All, inl, inr, ◌⊎◌,
}
use carrier.Wire.Result.{Result, ok, err}
use carrier.Wire.Channel.{Conn}
use carrier.Wire.Message.{Message}
use carrier.Wire.Receive.{ReceiveError}
use carrier.Requests.Prepare.{signature_accepted}
use carrier.Accepting.Loop.{
  Receiver, Verdict, handed, refused, panicked, Finish, crashed, returned, running, broken_off, Run,
}

pub receive-cases :
    {E A : Type 0} (r : Result E A) → ((e : E) × (r ≡ err e)) ⊎ ((a : A) × (r ≡ ok a))
receive-cases (err e) = inl (e, refl)
receive-cases (ok a) = inr (a, refl)

-- The messages that a connection delivers before the first error.
abbrev pub received : (Conn → Result ReceiveError (Message × Conn)) → ℕ → Conn → List Message
received receive zero conn = []
received receive (suc fuel) conn = elim (receive conn) [
  | err x ↦ []
  | ok (m, conn') ↦ m ∷ received receive fuel conn'
]

-- Whether the first error of the connection is a panic of `Uncompress`.
abbrev is_crash : Finish → Bool
is_crash crashed = true
is_crash returned = false
is_crash running = false

abbrev pub is_malformed : (Conn → Result ReceiveError (Message × Conn)) → ℕ → Conn → Bool
is_malformed receive zero conn = false
is_malformed receive (suc fuel) conn = elim (receive conn) [
  | err x ↦ is_crash (broken_off x)
  | ok (m, conn') ↦ is_malformed receive fuel conn'
]

-- A handed message passed the check of its signature.
abbrev pub IsVerified : Receiver → ℕ × Message → Type 0
IsVerified e h = signature_accepted e.speaker.policy e.speaker.bodies h.1 ≡ true

-- What one message may come to.
abbrev IsJudged : Receiver → Message → Verdict → Type 0
IsJudged e m (handed r) = IsVerified e (r, m)
IsJudged e m refused = Unit
IsJudged e m panicked = ⊥

-- A run that has ended, by a panic only where the connection is malformed, and has handed over
-- verified messages, the first of those received.
pub record IsRun (e : Receiver) (messages : List Message) (malformed : Bool) (run : Run)
    : Type 0 where
  pub ended : (run.finish ≡ returned) ⊎ ((run.finish ≡ crashed) × (malformed ≡ true))
  pub verified : All (IsVerified e) run.handed_over
  pub rest : List Message
  pub first : messages ≡ map (λ (h : ℕ × Message). h.1) run.handed_over ++ rest
