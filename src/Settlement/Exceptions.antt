-- ===== src/Settlement/Exceptions.antt =====
-- The exception taxonomy: packages/domain/src/settlements/exceptions.ts, and the requirement that an
-- actionable exception carries: packages/domain/src/preflight/requirement.ts.
use Prim.Native.String.{String}
use inrsettling.Base.{Bool, true, false, Option, none, some, List, [], ◌∷◌, same}
use inrsettling.Base.Lists.{find}
use mathlib.Core.Option

pub data ExceptionPhase : Type 0 where
  reservation funding payout reconciliation finality : ExceptionPhase

pub data ExceptionCode : Type 0 where
  liquidity_unavailable facility_suspended drawdown_failed : ExceptionCode
  drawdown_status_unknown payout_rejected_destination : ExceptionCode
  payout_rejected_compliance payout_rejected_provider payout_status_unknown : ExceptionCode
  reconciliation_mismatch finality_evidence_missing : ExceptionCode

unfoldable pub ExceptionCode-discrete : Discrete ExceptionCode
ExceptionCode-discrete = hlevel

pub data RequirementSeverity : Type 0 where
  blocking advisory : RequirementSeverity

pub data RequirementAction : Type 0 where
  verify_beneficiary : String → String → RequirementAction
  edit_beneficiary : String → String → RequirementAction
  add_payout_destination : String → RequirementAction
  upload_document : String → RequirementAction
  select_purpose : RequirementAction
  contact_support : String → RequirementAction
  set_up_liquidity_facility : RequirementAction

pub record Requirement : Type 0 where
  pub code : String
  pub severity : RequirementSeverity
  pub title : String
  pub detail : String
  pub action : RequirementAction

pub data CustomerCopy : Type 0 where
  requirement : Requirement → CustomerCopy
  delay_note : String → CustomerCopy

pub record ExceptionDefinition : Type 0 where
  pub code : ExceptionCode
  pub phase : ExceptionPhase
  pub customer_actionable : Bool
  pub resolution_path : String
  pub customer_copy : CustomerCopy

unfoldable pub liquidity_unavailable_definition : ExceptionDefinition
liquidity_unavailable_definition = record {
  code = ExceptionCode.liquidity_unavailable;
  phase = ExceptionPhase.reservation;
  customer_actionable = false;
  resolution_path = "Ops: raise limit, wait for headroom, or fail";
  customer_copy =
      CustomerCopy.delay_note
        "Your settlement is queued while we free up funding capacity. We will send it as soon as capacity is available.";
}

unfoldable pub facility_suspended_definition : ExceptionDefinition
facility_suspended_definition = record {
  code = ExceptionCode.facility_suspended;
  phase = ExceptionPhase.reservation;
  customer_actionable = false;
  resolution_path = "Ops: facility-level decision";
  customer_copy =
      CustomerCopy.delay_note
        "Your settlement is paused while we review your funding facility. Our team is on it.";
}

unfoldable pub drawdown_failed_definition : ExceptionDefinition
drawdown_failed_definition = record {
  code = ExceptionCode.drawdown_failed;
  phase = ExceptionPhase.funding;
  customer_actionable = false;
  resolution_path = "Ops: retry via provider or fail";
  customer_copy =
      CustomerCopy.delay_note
        "We could not draw the funds for this settlement on the first attempt. Our team is working on it.";
}

unfoldable pub drawdown_status_unknown_definition : ExceptionDefinition
drawdown_status_unknown_definition = record {
  code = ExceptionCode.drawdown_status_unknown;
  phase = ExceptionPhase.funding;
  customer_actionable = false;
  resolution_path = "Ops: authoritative status pull";
  customer_copy =
      CustomerCopy.delay_note
        "We are confirming the funding step with our banking partner before we send the payout.";
}

unfoldable pub payout_rejected_destination_definition : ExceptionDefinition
payout_rejected_destination_definition = record {
  code = ExceptionCode.payout_rejected_destination;
  phase = ExceptionPhase.payout;
  customer_actionable = true;
  resolution_path = "Correct the beneficiary, then create a replacement settlement";
  customer_copy = CustomerCopy.requirement (record {
    code = "payout_destination_rejected";
    severity = RequirementSeverity.blocking;
    title = "The bank could not accept these payout details";
    detail =
        "No funds left your facility. Correct the payout details, then create a replacement settlement to the corrected destination.";
    action = RequirementAction.edit_beneficiary "" "payout_destination";
  });
}

unfoldable pub payout_rejected_compliance_definition : ExceptionDefinition
payout_rejected_compliance_definition = record {
  code = ExceptionCode.payout_rejected_compliance;
  phase = ExceptionPhase.payout;
  customer_actionable = true;
  resolution_path = "Supply the named documentation, or ops decision";
  customer_copy = CustomerCopy.requirement (record {
    code = "payout_documentation_required";
    severity = RequirementSeverity.blocking;
    title = "The bank needs documentation for this settlement";
    detail =
        "No funds left your facility. Send us the paperwork for this payment and we will resubmit it for you.";
    action = RequirementAction.upload_document "compliance_evidence";
  });
}

unfoldable pub payout_rejected_provider_definition : ExceptionDefinition
payout_rejected_provider_definition = record {
  code = ExceptionCode.payout_rejected_provider;
  phase = ExceptionPhase.payout;
  customer_actionable = false;
  resolution_path = "Ops: replacement settlement or fail";
  customer_copy =
      CustomerCopy.delay_note
        "Our payout partner declined this transfer. Our team is arranging another route.";
}

unfoldable pub payout_status_unknown_definition : ExceptionDefinition
payout_status_unknown_definition = record {
  code = ExceptionCode.payout_status_unknown;
  phase = ExceptionPhase.payout;
  customer_actionable = false;
  resolution_path = "Ops: authoritative status pull (INV-24)";
  customer_copy =
      CustomerCopy.delay_note
        "We are confirming the final status of this payout with the bank before we mark it settled.";
}

unfoldable pub reconciliation_mismatch_definition : ExceptionDefinition
reconciliation_mismatch_definition = record {
  code = ExceptionCode.reconciliation_mismatch;
  phase = ExceptionPhase.reconciliation;
  customer_actionable = false;
  resolution_path = "Ops decision; policy is D-14";
  customer_copy =
      CustomerCopy.delay_note
        "The amounts we hold and the bank holds do not yet agree, so we are checking before confirming.";
}

unfoldable pub finality_evidence_missing_definition : ExceptionDefinition
finality_evidence_missing_definition = record {
  code = ExceptionCode.finality_evidence_missing;
  phase = ExceptionPhase.finality;
  customer_actionable = false;
  resolution_path = "Ops: obtain the missing condition, or escalate";
  customer_copy =
      CustomerCopy.delay_note
        "We are waiting on final confirmation from the bank before we mark this settled.";
}

unfoldable pub exception_taxonomy : List ExceptionDefinition
unfolding liquidity_unavailable_definition facility_suspended_definition drawdown_failed_definition
    drawdown_status_unknown_definition payout_rejected_destination_definition
    payout_rejected_compliance_definition payout_rejected_provider_definition
    payout_status_unknown_definition reconciliation_mismatch_definition
    finality_evidence_missing_definition
exception_taxonomy =
    liquidity_unavailable_definition ∷ facility_suspended_definition ∷ drawdown_failed_definition
    ∷ drawdown_status_unknown_definition ∷ payout_rejected_destination_definition
    ∷ payout_rejected_compliance_definition ∷ payout_rejected_provider_definition
    ∷ payout_status_unknown_definition ∷ reconciliation_mismatch_definition
    ∷ finality_evidence_missing_definition ∷ []

-- `none` is the error that the source throws for a code outside the taxonomy.
unfoldable pub exception_definition : ExceptionCode → Option ExceptionDefinition
unfolding exception_taxonomy ExceptionCode-discrete
exception_definition code = find (λ e. same ExceptionCode-discrete e.code code) exception_taxonomy

unfoldable pub is_customer_actionable : ExceptionCode → Option Bool
unfolding exception_definition
is_customer_actionable code = Option.map (λ e. e.customer_actionable) (exception_definition code)

-- The beneficiary of the settlement is filled in where the action edits one.
unfoldable pub bind_action : String → RequirementAction → RequirementAction
bind_action beneficiary (RequirementAction.edit_beneficiary _ field) =
    RequirementAction.edit_beneficiary beneficiary field
bind_action beneficiary action = action

unfoldable pub copy_requirement : String → CustomerCopy → Option Requirement
unfolding bind_action
copy_requirement beneficiary (CustomerCopy.requirement r) =
    some (record r { action = bind_action beneficiary r.action })
copy_requirement beneficiary (CustomerCopy.delay_note _) = none

unfoldable pub exception_requirement : ExceptionCode → String → Option (Option Requirement)
unfolding exception_definition copy_requirement
exception_requirement code beneficiary =
    Option.map (λ e. copy_requirement beneficiary e.customer_copy) (exception_definition code)

unfoldable pub copy_delay_note : CustomerCopy → Option String
copy_delay_note (CustomerCopy.requirement _) = none
copy_delay_note (CustomerCopy.delay_note detail) = some detail

unfoldable pub exception_delay_note : ExceptionCode → Option (Option String)
unfolding exception_definition copy_delay_note
exception_delay_note code =
    Option.map (λ e. copy_delay_note e.customer_copy) (exception_definition code)
