-- ===== src/Lifecycle/Runs.antt =====
-- Calls of the payment service that go on without an interruption.
use postral_core.Prelude.{refl, ℕ, suc, zero, Bool, Option, none, some, List, [], ◌++◌}
use postral_core.Amount.{Amount, BigJs}
use postral_core.Entity.Payment.{Payment}
use postral_core.Channel.Operations.{Answer}
use postral_core.Lifecycle.{Books}
use postral_core.Lifecycle.Calls.{Call, resume, Service}
use postral_core.Lifecycle.Moves.{resumed, Moves, stay, more, to_list}

module _ (b : BigJs Amount) (seller_pays : Bool) (fire : Answer) (expire_ms now : ℕ) where
  -- A call that goes on at most n times.
  abbrev pub run : ℕ → Option Call → Books → Books × Option Call
  run n none s = (s, none)
  run zero (some c) s = (s, some c)
  run (suc n) (some c) s =
      let (s', next) = resume b seller_pays fire expire_ms now c s in run n next s'

pub Moves-trans : (b : BigJs Amount) (u v w : Service) → Moves b u v → Moves b v w → Moves b u w
Moves-trans b u v w first stay = first
Moves-trans b u v w first (more {v' = x} rest last) = more (Moves-trans b u v x first rest) last

-- A call that goes on while the others wait.
pub Moves-run :
    (b : BigJs Amount) (seller_pays : Bool) (fire : Answer) (expire_ms now n : ℕ)
    (next : Option Call) (s : Books) (calls : List Call)
    → let (s', left) = run b seller_pays fire expire_ms now n next s in
      Moves b
        (record { books = s; calls = to_list next ++ calls })
        (record { books = s'; calls = to_list left ++ calls })
Moves-run b seller_pays fire expire_ms now n none s calls = stay
Moves-run b seller_pays fire expire_ms now zero (some c) s calls = stay
Moves-run b seller_pays fire expire_ms now (suc n) (some c) s calls =
    let r = resume b seller_pays fire expire_ms now c s in
    Moves-trans b _ _ _ (more stay (resumed seller_pays fire expire_ms now [] calls c refl))
      (Moves-run b seller_pays fire expire_ms now n r.1 r.0 calls)
