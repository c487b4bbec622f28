-- ===== src/Settlement/Service/Apply.antt =====
-- `applyTransition` (packages/app/src/settlement-transition.service.ts). An
-- absent `patch` is the empty list; times and the ids of log rows are left out.
use Prim.Native.String.{String}
use text.Mathlib.Text.{◌==◌ as str_eq}
use inrsettling.Base.{
  ℕ, ◌+◌, not, Option, none, some, List, [], ◌∷◌, ◌++◌, map, ◌==◌, if◌then◌else◌,
}
use inrsettling.Base.Lists.{filter, find, any, includes}
use inrsettling.Settlement.Status.{
  SettlementStatus, SettlementStatus-discrete, StatusEvent, CompanionEvent, CompanionEvent-discrete,
  CustomerStatus,
}
use inrsettling.Settlement.Exceptions.{ExceptionCode}
use inrsettling.Settlement.Projection.{customer_status_column}
use inrsettling.Settlement.Evaluate.{
  TransitionRequest, TransitionResult, Accepted, evaluate_transition,
}
use inrsettling.Settlement.Service.Defs.{
  machine_owned_columns, Settlement, EventType, Event, Audit, Store, CompanionEmission, ApplyInput,
  Outcome, same_status, update_rows, has_id, has_id_version,
}

-- `...(input.reason ? { reason: input.reason } : {})`: an empty text is none.
unfoldable given : Option String → Option String
given none = none
given (some text) = if str_eq text "" then none else some text

abbrev pub status_or : Option SettlementStatus → SettlementStatus → SettlementStatus
status_or none s = s
status_or (some to) s = to

unfoldable pub next_version : Option SettlementStatus → ℕ → ℕ
next_version none version = version
next_version (some _) version = version + 1

-- The optimistic check on the version.
unfoldable pub check_version : Option ℕ → ℕ → Option Outcome
check_version none actual = none
check_version (some expected) actual =
    if expected == actual then none else some (Outcome.stale_version expected actual)

module _ {V : Type 0} where
  -- The keys of the patch that belong to the machine.
  unfoldable pub trespassing : List (String × V) → List String
  unfolding machine_owned_columns
  trespassing patch = filter (λ k. any (str_eq k) machine_owned_columns) (map (λ kv. kv.0) patch)

  unfoldable pub request_of : ApplyInput V → Settlement V → TransitionRequest
  request_of input current = record {
    from = some current.status;
    trigger = input.trigger;
    guards = input.guards;
    exception_entered_from = current.exception_entered_from;
  }

  -- The companions that the table does not permit.
  unfoldable pub illegal_companions : Accepted → ApplyInput V → List CompanionEvent
  unfolding CompanionEvent-discrete
  illegal_companions a input =
      filter (λ c. not (includes CompanionEvent-discrete a.permitted_companions c))
        (map (λ c. c.type) input.companions)

  abbrev pub opened_code : SettlementStatus → ApplyInput V → Option ExceptionCode
  unfolding SettlementStatus-discrete
  opened_code to input =
      if same_status to SettlementStatus.exception then input.exception_code else none

  -- The columns that a change of status writes: the caller's first, then the machine's.
  unfoldable pub moved_row :
      ApplyInput V
      → Settlement V
      → SettlementStatus
      → Option CustomerStatus
      → Settlement V
      → Settlement V
  moved_row input current to customer row =
      let is_exception = same_status to SettlementStatus.exception in
      let was_exception = same_status current.status SettlementStatus.exception in
      record row {
        payload = input.patch ++ row.payload;
        status = to;
        customer_status = customer;
        exception_entered_from =
            if is_exception then some current.status else row.exception_entered_from;
        open_exception_code =
            if is_exception
            then input.exception_code
            else (if was_exception then none else row.open_exception_code);
      }

  unfoldable pub annotated_row : ApplyInput V → Settlement V → Settlement V
  annotated_row input row = record row { payload = input.patch ++ row.payload }

  unfoldable pub status_event_of :
      ApplyInput V → Settlement V → Accepted → Option StatusEvent → List (Event V)
  status_event_of input current a none = []
  status_event_of input current a (some e) =
      record {
        type = EventType.status e;
        subject_type = "settlement";
        subject_id = input.settlement_id;
        actor = input.actor;
        move =
            some (record { transition = a.transition.id; from = some current.status; to = a.to });
        payload = input.status_event_payload;
      }
      ∷ []

  unfoldable pub companion_event_of : ApplyInput V → CompanionEmission V → Event V
  companion_event_of input c = record {
    type = EventType.companion c.type;
    subject_type = c.subject_type;
    subject_id = c.subject_id;
    actor = input.actor;
    move = none;
    payload = c.payload;
  }

  unfoldable pub audit_of : ApplyInput V → Settlement V → Accepted → Audit
  unfolding given
  audit_of input current a = record {
    actor = input.actor;
    action = input.trigger;
    subject_id = input.settlement_id;
    before_status = some current.status;
    before_version = some current.version;
    after_status = status_or a.to current.status;
    transition = a.transition.id;
    reason = given input.reason;
  }

  -- The events and the audit entry, once the row is written; `none` rolls everything back.
  unfoldable pub commit :
      Store V
      → ApplyInput V
      → Settlement V
      → Accepted
      → Option (List (Settlement V))
      → Store V × Outcome
  unfolding status_event_of companion_event_of audit_of next_version
  commit store input current a none = (store, Outcome.raised)
  commit store input current a (some rows) = (
    record {
      settlements = rows;
      events =
          store.events
          ++ (status_event_of input current a a.status_event
              ++ map (companion_event_of input) input.companions);
      audit_log = store.audit_log ++ audit_of input current a ∷ [];
    },
    Outcome.ok a.transition.id current.status a.to (next_version a.to current.version),
  )

  unfoldable pub write_move :
      Store V
      → ApplyInput V
      → Settlement V
      → SettlementStatus
      → Option (Option CustomerStatus)
      → Option (List (Settlement V))
  unfolding moved_row update_rows has_id_version
  write_move store input current to none = none
  write_move store input current to (some customer) =
      update_rows (has_id_version input.settlement_id current.version)
        (moved_row input current to customer) store.settlements

  -- The annotation of T26, if it carries fields.
  unfoldable pub write_annotation :
      Store V → ApplyInput V → List (String × V) → Option (List (Settlement V))
  unfolding annotated_row update_rows has_id
  write_annotation store input [] = some store.settlements
  write_annotation store input (_ ∷ _) =
      update_rows (has_id input.settlement_id) (annotated_row input) store.settlements

  unfoldable pub write_row :
      Store V → ApplyInput V → Settlement V → Option SettlementStatus → Option (List (Settlement V))
  unfolding write_move write_annotation customer_status_column SettlementStatus-discrete
  write_row store input current none = write_annotation store input input.patch
  write_row store input current (some to) =
      write_move store input current to (customer_status_column to (opened_code to input))

  unfoldable pub check_companions :
      Store V → ApplyInput V → Settlement V → Accepted → List CompanionEvent → Store V × Outcome
  unfolding commit write_row
  check_companions store input current a [] =
      commit store input current a (write_row store input current a.to)
  check_companions store input current a (e ∷ es) = (store, Outcome.illegal_companion (e ∷ es))

  unfoldable pub carry_out :
      Store V → ApplyInput V → Settlement V → TransitionResult → Store V × Outcome
  unfolding check_companions illegal_companions
  carry_out store input current (TransitionResult.ok a) =
      check_companions store input current a (illegal_companions a input)
  carry_out store input current (TransitionResult.invalid_transition from trigger) =
      (store, Outcome.invalid_transition current.status input.trigger)
  carry_out store input current (TransitionResult.guard_failed id failed) =
      (store, Outcome.guard_failed id failed)
  carry_out store input current (TransitionResult.guard_unanswered id unanswered) =
      (store, Outcome.guard_unanswered id unanswered)
  carry_out store input current (TransitionResult.resume_target_unknown id) =
      (store, Outcome.resume_target_unknown id)

  unfoldable pub check_stale :
      Store V → ApplyInput V → Settlement V → Option Outcome → Store V × Outcome
  unfolding request_of carry_out
  check_stale store input current none =
      carry_out store input current (evaluate_transition (request_of input current))
  check_stale store input current (some refusal) = (store, refusal)

  unfoldable pub check_current : Store V → ApplyInput V → Option (Settlement V) → Store V × Outcome
  unfolding check_version check_stale
  check_current store input none = (store, Outcome.settlement_not_found)
  check_current store input (some current) =
      check_stale store input current (check_version input.expected_version current.version)

  unfoldable pub check_patch : Store V → ApplyInput V → List String → Store V × Outcome
  unfolding check_current has_id
  check_patch store input [] =
      check_current store input (find (has_id input.settlement_id) store.settlements)
  check_patch store input (f ∷ fs) = (store, Outcome.protected_field (f ∷ fs))

  unfoldable pub apply_transition : Store V → ApplyInput V → Store V × Outcome
  apply_transition store input = check_patch store input (trespassing input.patch)
