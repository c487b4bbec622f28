-- ===== src/Payout/Service/Steps.antt =====
-- The transactions on payouts as steps between stores: the dispatch, the retry, a provider's outcome,
-- the sweep, and any call of the transition service beside them. The row locks put them in an order.
-- A step that inserts an attempt carries that its id is new.
use Prim.Native.String.{String}
use inrsettling.Base.{ℕ, ◌≡◌, ◌≢◌, Bool}
use inrsettling.Base.Lists.{All}
use inrsettling.Settlement.Service.Defs as Core
use inrsettling.Settlement.Service.Apply.{apply_transition}
use inrsettling.Payout.Service.Defs.{Value, Attempt, Store}
use inrsettling.Payout.Service.Dispatch.{DispatchInput, dispatch_payout}
use inrsettling.Payout.Service.Retry.{RetryInput, retry_payout}
use inrsettling.Payout.Service.Outcome.{PayoutOutcomeInput}
use inrsettling.Payout.Service.Apply.{apply_payout_outcome, sweep_payout_sla}

abbrev pub IsNew : String → Store → Type 0
IsNew id store = All (λ (a : Attempt). a.id ≢ id) store.attempts

pub data Step (s t : Store) : Type 0 where
  dispatch :
      (input : DispatchInput) (frozen_verified : Bool) (id : String) (now : ℕ)
      → IsNew id s
      → (dispatch_payout s input frozen_verified id now).0 ≡ t
      → Step s t
  retry :
      (input : RetryInput) (id : String) (now : ℕ)
      → IsNew id s
      → (retry_payout s input id now).0 ≡ t
      → Step s t
  outcome :
      (input : PayoutOutcomeInput) (now : ℕ) → (apply_payout_outcome s input now).0 ≡ t → Step s t
  sweep :
      (settlement_id : String) (actor : Core.Principal) (now : ℕ)
      → (sweep_payout_sla s settlement_id actor now).0 ≡ t
      → Step s t
  transition :
      (input : Core.ApplyInput Value)
      → record s { core = (apply_transition s.core input).0 } ≡ t
      → Step s t

pub data Reach (s : Store) : Store → Type 0 where
  here : Reach s s
  next : {t u : Store} → Reach s t → Step t u → Reach s u
