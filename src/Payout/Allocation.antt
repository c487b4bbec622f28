-- ===== src/Payout/Allocation.antt =====
-- Which attempt a dispatch may use (`allocateAttemptNumber` of
-- packages/domain/src/settlements/payout-attempt.ts).
use inrsettling.Base.{ℕ, ◌+◌, ◌<◌, ◌≡◌, refl, ap, ◌∙◌, List, [], ◌∷◌, ◌++◌, arith, if◌then◌else◌}
use inrsettling.Base.Lists.{filter, All}
use inrsettling.Payout.Attempt.{
  PayoutAttemptStatus, is_payout_attempt_terminal, is_payout_attempt_in_flight, AttemptSummary,
  AttemptAllocation, latest_onto, allocate_in_flight, allocate_after, allocate_from,
  allocate_attempt_number, terminal_attempt_permits_another,
}

-- What the status of the latest attempt allows.
abbrev pub allocation_of : ℕ → PayoutAttemptStatus → AttemptAllocation
allocation_of n PayoutAttemptStatus.submitted = AttemptAllocation.reuse_in_flight n
allocation_of n PayoutAttemptStatus.accepted = AttemptAllocation.reuse_in_flight n
allocation_of n PayoutAttemptStatus.unknown = AttemptAllocation.status_unknown n
allocation_of n PayoutAttemptStatus.credited = AttemptAllocation.already_credited n
allocation_of n PayoutAttemptStatus.returned = AttemptAllocation.returned_needs_replacement n
allocation_of n PayoutAttemptStatus.rejected = AttemptAllocation.next_attempt (n + 1)

-- An attempt that was given up before another one.
abbrev pub IsBefore : AttemptSummary → AttemptSummary → Type 0
IsBefore a b = (b.status ≡ PayoutAttemptStatus.rejected) × (b.attempt_number < a.attempt_number)

latest_onto-head :
    (a : AttemptSummary) (zs : List AttemptSummary) → All (IsBefore a) zs → latest_onto a zs ≡ a
unfolding latest_onto
latest_onto-head a [] h = refl
latest_onto-head a (z ∷ zs) h = ground (arith, latest_onto-head a zs h.1)

latest_onto-middle :
    (a y : AttemptSummary) (ys zs : List AttemptSummary)
    → y.attempt_number < a.attempt_number
    → All (IsBefore a) ys
    → All (IsBefore a) zs
    → latest_onto y (ys ++ a ∷ zs) ≡ a
unfolding latest_onto
latest_onto-middle a y [] zs le h k = ground (arith, latest_onto-head a zs k)
latest_onto-middle a y (x ∷ xs) zs le h k =
    ground (arith, latest_onto-middle a y xs zs le h.1 k, latest_onto-middle a x xs zs h.0.1 h.1 k)

flying : List AttemptSummary → List AttemptSummary
unfolding is_payout_attempt_in_flight
flying xs = filter (λ x. is_payout_attempt_in_flight x.status) xs

flying-rejected :
    (a : AttemptSummary) (xs : List AttemptSummary) → All (IsBefore a) xs → flying xs ≡ []
unfolding flying is_payout_attempt_terminal
flying-rejected a [] h = refl
flying-rejected a (x ∷ xs) h = rw h.0.0 (flying-rejected a xs h.1)

flying-append :
    (a : AttemptSummary) (xs ys : List AttemptSummary)
    → All (IsBefore a) xs
    → flying (xs ++ ys) ≡ flying ys
unfolding flying is_payout_attempt_terminal
flying-append a [] ys h = refl
flying-append a (x ∷ xs) ys h = rw h.0.0 (flying-append a xs ys h.1)

flying-latest :
    (n : ℕ) (s : PayoutAttemptStatus) (zs : List AttemptSummary)
    → All (IsBefore (record { attempt_number = n; status = s })) zs
    → flying (record { attempt_number = n; status = s } ∷ zs) ≡ (
        if is_payout_attempt_in_flight s
        then record { attempt_number = n; status = s } ∷ []
        else [])
unfolding flying
flying-latest n s zs h =
    let a : AttemptSummary = record { attempt_number = n; status = s } in
    ap (λ r. if is_payout_attempt_in_flight s then a ∷ r else r) (flying-rejected a zs h)

allocate_from-latest :
    (n : ℕ) (s : PayoutAttemptStatus) (x : AttemptSummary) (xs zs : List AttemptSummary)
    → All (IsBefore (record { attempt_number = n; status = s })) zs
    → latest_onto x xs ≡ record { attempt_number = n; status = s }
    → allocate_from x xs (flying (record { attempt_number = n; status = s } ∷ zs))
      ≡ allocation_of n s
unfolding allocate_from is_payout_attempt_in_flight is_payout_attempt_terminal latest_onto
    allocate_in_flight allocate_after terminal_attempt_permits_another
allocate_from-latest n PayoutAttemptStatus.submitted x xs zs h e =
    rw (flying-latest n PayoutAttemptStatus.submitted zs h) refl
allocate_from-latest n PayoutAttemptStatus.accepted x xs zs h e =
    rw (flying-latest n PayoutAttemptStatus.accepted zs h) refl
allocate_from-latest n PayoutAttemptStatus.unknown x xs zs h e =
    rw (flying-latest n PayoutAttemptStatus.unknown zs h) refl
allocate_from-latest n PayoutAttemptStatus.credited x xs zs h e =
    rw (flying-latest n PayoutAttemptStatus.credited zs h, e) refl
allocate_from-latest n PayoutAttemptStatus.returned x xs zs h e =
    rw (flying-latest n PayoutAttemptStatus.returned zs h, e) refl
allocate_from-latest n PayoutAttemptStatus.rejected x xs zs h e =
    rw (flying-latest n PayoutAttemptStatus.rejected zs h, e) refl

-- Where every attempt but one was rejected and came before that one, in whatever order the database
-- lists them, the answer is what the status of that one allows: an attempt in flight keeps its number,
-- one that was rejected is followed by the next number, and an unknown, a credited and a returned one
-- are not followed at all (INV-24).
pub allocate_attempt_number_lem :
    (ys zs : List AttemptSummary) (a : AttemptSummary)
    → All (IsBefore a) ys
    → All (IsBefore a) zs
    → allocate_attempt_number (ys ++ a ∷ zs) ≡ allocation_of a.attempt_number a.status
unfolding allocate_attempt_number flying
allocate_attempt_number_lem [] zs a h k =
    allocate_from-latest a.attempt_number a.status a zs zs k (latest_onto-head a zs k)
allocate_attempt_number_lem (y ∷ ys) zs a h k =
    ap (allocate_from y (ys ++ a ∷ zs)) (flying-append a (y ∷ ys) (a ∷ zs) h)
    ∙ allocate_from-latest a.attempt_number a.status y (ys ++ a ∷ zs) zs k
        (latest_onto-middle a y ys zs h.0.1 h.1 k)
