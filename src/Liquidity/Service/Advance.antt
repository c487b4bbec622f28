-- ===== src/Liquidity/Service/Advance.antt =====
-- Y02 to Y08 on the store: `advanceRepayment` of packages/app/src/liquidity.service.ts.
use Prim.Native.String.{String}
use text.Mathlib.Text.{◌==◌ as str_eq}
use inrsettling.Base.{ℕ, ◌+◌, Option, none, some, ◌∷◌, map, if◌then◌else◌, same}
use inrsettling.Base.Lists.{find}
use inrsettling.Base.Decimal.{codes}
use inrsettling.Base.Result.{Result, ok, err, ◌>>=◌}
use inrsettling.Liquidity.Facility.{PairedMovement}
use inrsettling.Liquidity.Repayment.{
  RepaymentStatus, RepaymentStatus-discrete, RepaymentTrigger, RepaymentEvaluation,
  evaluate_repayment_transition, fingerprint_text,
}
use inrsettling.Settlement.Service.Defs.{Principal}
use inrsettling.Liquidity.Service.Defs.{
  Repayment, FacilityEvent, EventType, EventPayload, AuditNote, AuditEntry, Store, lock_facility,
  MovementIds, post_movement,
}
use inrsettling.Liquidity.Service.Repay.{
  RepaymentResult, RepaymentError, of_facility_lock, is_duplicate, subject_type_of, subject_id_of,
}

pub record AdvanceInput : Type 0 where
  pub repayment_id : String
  pub trigger : RepaymentTrigger
  pub actor : Principal
  pub provider_reference : Option String
  pub reason : Option String

-- `if (evaluated.to === '…') patch[…] = now`
unfoldable pub stamp : RepaymentStatus → RepaymentStatus → ℕ → Option ℕ → Option ℕ
unfolding RepaymentStatus-discrete
stamp to status now old = if same RepaymentStatus-discrete to status then some now else old

-- `if (input.providerReference)`: an empty text is no text.
unfoldable pub or_kept : Option String → Option String → Option String
or_kept none old = old
or_kept (some new) old = if str_eq new "" then old else some new

unfoldable pub stamped_row : RepaymentEvaluation → Option String → ℕ → Repayment → Repayment
unfolding stamp or_kept
stamped_row e reference now r = record r {
  status = e.to;
  submitted_at = stamp e.to RepaymentStatus.submitted now r.submitted_at;
  confirmed_at = stamp e.to RepaymentStatus.confirmed now r.confirmed_at;
  failed_at = stamp e.to RepaymentStatus.failed now r.failed_at;
  provider_reference = or_kept reference r.provider_reference;
}

-- The patch of an advance, on the row that it is computed from.
unfoldable pub advanced_row : RepaymentEvaluation → Option String → ℕ → Repayment → Repayment
unfolding stamped_row
advanced_row e reference now r =
    let stamped = stamped_row e reference now r in
    if e.requires_new_fingerprint
    then record stamped {
      attempt = r.attempt + 1;
      request_fingerprint = fingerprint_text (codes r.id) (r.attempt + 1);
      failed_at = none;
      provider_reference = none;
    }
    else stamped

unfoldable pub write_repayment : String → RepaymentEvaluation → Option String → ℕ → Store → Store
unfolding advanced_row
write_repayment id e reference now store = record store {
  repayments =
      map (λ r. if str_eq r.id id then advanced_row e reference now r else r) store.repayments;
}

-- The index `repayments_one_live_per_settlement_cause` is asked again, for the row as it becomes.
unfoldable pub update_repayment :
    Repayment → RepaymentEvaluation → Option String → ℕ → Store → Result RepaymentError Store
unfolding advanced_row write_repayment is_duplicate
update_repayment r e reference now store =
    if is_duplicate (advanced_row e reference now r) store.repayments
    then err RepaymentError.duplicate_live
    else ok (write_repayment r.id e reference now store)

unfoldable pub advanced_event : Principal → RepaymentEvaluation → Repayment → FacilityEvent
unfolding subject_type_of subject_id_of
advanced_event actor e r = record {
  type = if e.restores_capacity then EventType.repayment_confirmed else EventType.repayment_updated;
  subject_type = subject_type_of r.settlement_id;
  subject_id = subject_id_of r.settlement_id r.facility_id;
  actor = actor;
  payload = EventPayload.advanced r.id e.id e.to e.restores_capacity;
}

unfoldable pub advanced_audit : AdvanceInput → RepaymentEvaluation → Repayment → AuditEntry
unfolding or_kept
advanced_audit input e r = record {
  actor = input.actor;
  subject_type = "repayment";
  subject_id = r.id;
  note = AuditNote.repayment input.trigger r.status r.attempt e.to;
  reason = or_kept input.reason none;
}

-- The one transition that gives capacity back, and the two logs.
unfoldable pub restore :
    AdvanceInput → RepaymentEvaluation → Repayment → MovementIds → Store → Store
unfolding advanced_event advanced_audit
restore input e r ids store =
    let moved =
      if e.restores_capacity
      then post_movement store ids r.facility_id PairedMovement.repayment_confirmed r.amount
      else store in
    record moved {
      events = advanced_event input.actor e r ∷ moved.events;
      audit_log = advanced_audit input e r ∷ moved.audit_log;
    }

unfoldable pub advance_repayment :
    Store → AdvanceInput → MovementIds → ℕ → Result RepaymentError (Store × RepaymentResult)
unfolding update_repayment restore of_facility_lock
advance_repayment store input ids now =
    elim (find (λ r. str_eq r.id input.repayment_id) store.repayments) [
      | none ↦ ok (store, RepaymentResult.repayment_not_found)
      | some r ↦ elim (evaluate_repayment_transition (some r.status) input.trigger) [
        | none ↦ ok (store, RepaymentResult.invalid_transition)
        | some e ↦ update_repayment r e input.provider_reference now store >>= λ written.
            of_facility_lock
              (if e.restores_capacity then lock_facility written r.facility_id else ok none)
            >>= λ _.
                ok (
                  restore input e r ids written,
                  RepaymentResult.done r.id e.to e.restores_capacity,
                )
      ]
    ]
