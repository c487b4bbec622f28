-- ===== src/Settlement/Service/Create.antt =====
-- `createSettlement` (packages/app/src/settlement-transition.service.ts), and what holds of a
-- settlement since its creation.
use Prim.Native.String.{String}
use text.Mathlib.Text.{◌==◌ as str_eq}
use mathlib.Core.List.{Memᴰ, append-nil}
use mathlib.Core.Option.{some-injective}
use inrsettling.Base.{
  ◌≡◌, sym, false, Option, some, none, List, [], ◌∷◌, ◌++◌, if◌then◌else◌, Bool-cases, inl, inr,
  subst,
}
use inrsettling.Base.Lists.{find, any, All}
use inrsettling.Settlement.Status.{SettlementStatus, StatusEvent}
use inrsettling.Settlement.Vocabulary.{TransitionId, Trigger}
use inrsettling.Settlement.Service.Defs.{
  Principal, Settlement, EventType, Event, Audit, Store, ApplyInput, has_id,
}
use inrsettling.Settlement.Service.Apply.{apply_transition}
use inrsettling.Settlement.Service.Lifecycle.{to_reconciling}
use inrsettling.Settlement.Service.Trail.{trail, trail-append, Traced}
use inrsettling.Settlement.Service.History.{Tracked, apply_transition-Tracked}

-- The instruction; a column that the caller leaves out is its null.
pub record CreateInput (V : Type 0) : Type 0 where
  pub beneficiary_id : V
  pub destination_id : V
  pub recipient_amount_minor : V
  pub funding_currency : V
  pub purpose_code : V
  pub external_reference : V
  pub idempotency_key : V
  pub replaces_settlement_id : V
  pub actor : Principal

pub data Call (V : Type 0) : Type 0 where
  create : CreateInput V → String → Call V
  apply : ApplyInput V → Call V

-- `text` makes a column's value of a text that the source writes out.
module _ {V : Type 0} (text : String → V) where
  unfoldable pub created_row : CreateInput V → String → Settlement V
  created_row input id = record {
    id = id;
    status = SettlementStatus.draft;
    customer_status = none;
    version = 1;
    exception_entered_from = none;
    open_exception_code = none;
    payload =
        ("beneficiaryId", input.beneficiary_id)
        ∷ ("destinationId", input.destination_id)
        ∷ ("recipientAmountMinor", input.recipient_amount_minor)
        ∷ ("recipientAmountCurrency", text "INR")
        ∷ ("fundingCurrency", input.funding_currency)
        ∷ ("purposeCode", input.purpose_code)
        ∷ ("externalReference", input.external_reference)
        ∷ ("idempotencyKey", input.idempotency_key)
        ∷ ("replacesSettlementId", input.replaces_settlement_id)
        ∷ [];
  }

  unfoldable pub created_event : CreateInput V → String → Event V
  created_event input id = record {
    type = EventType.status StatusEvent.created;
    subject_type = "settlement";
    subject_id = id;
    actor = input.actor;
    move =
        some
          (record { transition = TransitionId.t01; from = none; to = some SettlementStatus.draft });
    payload = [];
  }

  unfoldable pub created_audit : CreateInput V → String → Audit
  created_audit input id = record {
    actor = input.actor;
    action = Trigger.create;
    subject_id = id;
    before_status = none;
    before_version = none;
    after_status = SettlementStatus.draft;
    transition = TransitionId.t01;
    reason = none;
  }

  -- An id that is taken is an error of the database, which leaves the store as it is.
  unfoldable pub create_settlement : Store V → CreateInput V → String → Store V
  unfolding has_id created_row created_event created_audit
  create_settlement store input id = if any (has_id id) store.settlements then store else record {
    settlements = created_row input id ∷ store.settlements;
    events = store.events ++ created_event input id ∷ [];
    audit_log = store.audit_log ++ created_audit input id ∷ [];
  }

  -- The calls that reach the store, of both kinds, one transaction after another.
  unfoldable pub serve : Store V → List (Call V) → Store V
  unfolding create_settlement
  serve store [] = store
  serve store (create input id ∷ calls) = serve (create_settlement store input id) calls
  serve store (apply input ∷ calls) = serve (apply_transition store input).0 calls

  trail-created :
      (id other : String) (input : CreateInput V) (log : List Audit)
      → str_eq id other ≡ false
      → trail other (log ++ created_audit input id ∷ []) ≡ trail other log
  unfolding created_audit
  trail-created id other input log ne = rw (trail-append other log _, ne) (append-nil _)

  created-Traced :
      (input : CreateInput V) (new : String) (row : Settlement V) (t : List TransitionId)
      → ◌≡◌ {A = Option (Settlement V)} (some (created_row input new)) (some row)
      → Traced row t
  unfolding created_row
  created-Traced input new row t e =
      let same_row : created_row input new ≡ row = some-injective _ _ e in
      subst (λ x. Traced x t) same_row (record { covered = tt; resumable = λ x. cc })

  create_settlement-Tracked :
      (id : String) (store : Store V) (input : CreateInput V) (new : String)
      → Tracked id store
      → Tracked id (create_settlement store input new)
  unfolding create_settlement
  create_settlement-Tracked id store input new h =
      elim (Bool-cases (any (has_id new) store.settlements)) [
        | inl taken ↦ rw taken h
        | inr free ↦ rw free (λ row g. elim (Bool-cases (str_eq new id)) [
          | inl y ↦ created-Traced input new row _ (rw y at g)
          | inr n ↦
              subst (λ t. Traced row t) (sym (trail-created new id input store.audit_log n))
                (h row (rw n at g))
        ])
      ]

  serve-Tracked :
      (id : String) (store : Store V) (calls : List (Call V))
      → Tracked id store
      → Tracked id (serve store calls)
  unfolding serve
  serve-Tracked id store [] h = h
  serve-Tracked id store (create input new ∷ calls) h =
      serve-Tracked id (create_settlement store input new) calls
        (create_settlement-Tracked id store input new h)
  serve-Tracked id store (apply input ∷ calls) h =
      serve-Tracked id (apply_transition store input).0 calls
        (apply_transition-Tracked id store input h)

  empty-Tracked : (id : String) (store : Store V) → store.settlements ≡ [] → Tracked id store
  empty-Tracked id store none_yet row g = absurd (cc (rw none_yet at g))

  -- From a store without settlements, whatever settlements are created and whatever is called on them,
  -- in any order and with any refusals: a settlement is SETTLED only if the audit log holds, for it, the
  -- authorization (T08), the reservation (T09, T10), the drawdown (T12, T13), the dispatch (T15), the
  -- credit (T16), the reconciliation (T19) and finality (T20).
  pub serve-settled :
      (id : String) (store : Store V) (calls : List (Call V)) {row : Settlement V}
      → store.settlements ≡ []
      → find (has_id id) (serve store calls).settlements ≡ some row
      → row.status ≡ SettlementStatus.settled
      → All
          (λ t. Memᴰ t (trail id (serve store calls).audit_log))
          (TransitionId.t20 ∷ to_reconciling)
  serve-settled id store calls {row} none_yet g settled =
      let traced = serve-Tracked id store calls (empty-Tracked id store none_yet) row g in
      rw settled at traced.covered
