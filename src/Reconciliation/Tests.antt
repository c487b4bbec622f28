-- ===== src/Reconciliation/Tests.antt =====
-- Witnesses of the theorems on reconciliation: a payout of a hundred rupees that was observed a rupee
-- short, and evidence that lacks nothing.
use inrsettling.Base.{◌≡◌, ◌↔◌, true, some, none}
use inrsettling.Base.Int.{pos}
use inrsettling.Money.Amount.{Currency, Money, money}
use inrsettling.Reconciliation.Machine.{
  ObservationSource, Observation, compare_observation, Settles, compare_observation-Settles,
}
use inrsettling.Reconciliation.Finality.{
  ConfirmationSource, FinalityEvidence, IsFinal, evaluate_finality, evaluate_finality-final_iff,
}

abbrev expected : Money
expected = money Currency.inr (pos 10000)

abbrev seen_short : Observation
seen_short = record {
  source = ObservationSource.authoritative_status_pull;
  observed_amount = some (money Currency.inr (pos 9900));
  observed_at = "2026-01-01T00:00:00Z";
}

compare_observation-Settles_example :
    Settles
      (compare_observation expected seen_short)
      (some (money Currency.inr (pos 9900)) ≡ some expected)
compare_observation-Settles_example = compare_observation-Settles expected seen_short

abbrev evidence : FinalityEvidence
evidence = record {
  authorized_at = some "2026-01-01T00:00:00Z";
  authorized_by = some "u1";
  actor_held_capability = true;
  drawdown_status = some "CONFIRMED";
  facility_status = some "ACTIVE";
  confirmation_source = some ConfirmationSource.trusted_provider_event;
  attempt_status = some "CREDITED";
  utr = some "N123456789012";
  utr_well_formed = true;
  reconciliation_status = some "MATCHED";
  delta_minor = some (pos 0);
  open_exception_code = none;
  authorized_terms_hash = some "h1";
  authorized_destination_version = some "d1";
  executed_terms_hash = some "h1";
  executed_destination_version = some "d1";
}

evaluate_finality-final_iff_example : ((evaluate_finality evidence).final ≡ true) ↔ IsFinal evidence
evaluate_finality-final_iff_example = evaluate_finality-final_iff evidence
