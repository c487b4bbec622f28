-- ===== src/Settlement/Service/Writes.antt =====
-- The row of a settlement after one applied transition.
use Prim.Native.String.{String}
use inrsettling.Base.{
  ℕ, ◌≡◌, refl, ◌≢◌, true, false, Option, some, none, List, [], ◌∷◌, ◌++◌, arith, subst,
  if◌then◌else◌,
}
use inrsettling.Base.Lists.{find}
use inrsettling.Settlement.Status.{
  SettlementStatus, SettlementStatus-discrete, CustomerStatus, is_terminal,
}
use inrsettling.Settlement.Projection.{customer_status_column}
use inrsettling.Settlement.Service.Defs.{
  Settlement, Store, ApplyInput, has_id, has_id_version, advance, same_status,
}
use inrsettling.Settlement.Service.Apply.{
  write_row, write_move, write_annotation, moved_row, annotated_row, opened_code, status_or,
}
use inrsettling.Settlement.Service.Rows.{
  find-update_rows, find-update_rows_ne, advance-SameColumns, protect_settlement_row-some,
}

-- Where the exception of a row came from, after a move.
abbrev pub origin_after :
    {V : Type 0} → Option SettlementStatus → Settlement V → Option SettlementStatus
origin_after none current = current.exception_entered_from
origin_after (some to) current =
    if same_status to SettlementStatus.exception
    then some current.status
    else current.exception_entered_from

pub origin_after-exception :
    {V : Type 0} (to : SettlementStatus) (current : Settlement V)
    → to ≡ SettlementStatus.exception
    → origin_after (some to) current ≡ some current.status
unfolding SettlementStatus-discrete
origin_after-exception to current e = rw e refl

module _ {V : Type 0} (store : Store V) (input : ApplyInput V) where
  versioned_sound :
      (version : ℕ) (row : Settlement V)
      → has_id_version input.settlement_id version row ≡ true
      → has_id input.settlement_id row ≡ true
  unfolding has_id_version has_id
  versioned_sound version row h = ground arith

  moved_row-id :
      (current : Settlement V) (to : SettlementStatus) (c : Option CustomerStatus)
      (row : Settlement V)
      → (moved_row input current to c row).id ≡ row.id
  unfolding moved_row
  moved_row-id current to c row = refl

  found_version :
      (id : String) (rows : List (Settlement V)) (current : Settlement V)
      → find (has_id id) rows ≡ some current
      → has_id_version id current.version current ≡ true
  unfolding has_id has_id_version
  found_version id [] current h = cc
  found_version id (row ∷ rows) current h = ground (arith, found_version id rows current)

  -- What a call leaves in the row of the settlement.
  pub record Written (current : Settlement V) (to : Option SettlementStatus) (r : Settlement V)
      : Type 0 where
    pub status : r.status ≡ status_or to current.status
    pub origin : r.exception_entered_from ≡ origin_after to current
    pub payload : r.payload ≡ input.patch ++ current.payload
    pub alive : (to ≢ none) → is_terminal current.status ≡ false

  moved_row-Written :
      (current : Settlement V) (to : SettlementStatus) (c : Option CustomerStatus)
      → is_terminal current.status ≡ false
      → Written current (some to) (advance current (moved_row input current to c current))
  unfolding moved_row
  moved_row-Written current to c alive =
      let (_, s, _, o, _, p) = advance-SameColumns current (moved_row input current to c current) in
      record { status = s; origin = o; payload = p; alive = λ _. alive }

  annotated_row-Written :
      (current : Settlement V)
      → Written current none (advance current (annotated_row input current))
  unfolding annotated_row
  annotated_row-Written current =
      let (_, s, _, o, _, p) = advance-SameColumns current (annotated_row input current) in
      record { status = s; origin = o; payload = p; alive = λ h. absurd (h refl) }

  annotated_row-id : (row : Settlement V) → (annotated_row input row).id ≡ row.id
  unfolding annotated_row
  annotated_row-id row = refl

  has_id_found :
      (id : String) (rows : List (Settlement V)) (current : Settlement V)
      → find (has_id id) rows ≡ some current
      → has_id id current ≡ true
  has_id_found id [] current h = cc
  has_id_found id (row ∷ rows) current h = ground (arith, has_id_found id rows current)

  module _ (current : Settlement V) {rows : List (Settlement V)}
      (found : find (has_id input.settlement_id) store.settlements ≡ some current) where
    write_move-find :
        (to : SettlementStatus) (column : Option (Option CustomerStatus))
        → write_move store input current to column ≡ some rows
        → (r : Settlement V) × (find (has_id input.settlement_id) rows ≡ some r)
          × Written current (some to) r
    unfolding write_move
    write_move-find to none w = cc
    write_move-find to (some c) w =
        let set = moved_row input current to c in
        let (r, p, f) =
          find-update_rows input.settlement_id (has_id_version input.settlement_id current.version)
            set (versioned_sound current.version) (moved_row-id current to c) store.settlements
            found (found_version input.settlement_id store.settlements current found) w in
        let (alive, _, e) = protect_settlement_row-some current (set current) p in
        (r, f, subst (Written current (some to)) e (moved_row-Written current to c alive))

    write_annotation-find :
        (patch : List (String × V))
        → input.patch ≡ patch
        → write_annotation store input patch ≡ some rows
        → (r : Settlement V) × (find (has_id input.settlement_id) rows ≡ some r)
          × Written current none r
    unfolding write_annotation
    write_annotation-find [] e w = (
      current,
      ground arith,
      record { status = refl; origin = refl; payload = rw e refl; alive = λ h. absurd (h refl) },
    )
    write_annotation-find (kv ∷ kvs) e w =
        let (r, p, f) =
          find-update_rows input.settlement_id (has_id input.settlement_id) (annotated_row input)
            (λ _ h. h) annotated_row-id store.settlements found
            (has_id_found input.settlement_id store.settlements current found) w in
        let (_, _, e') = protect_settlement_row-some current (annotated_row input current) p in
        (r, f, subst (Written current none) e' (annotated_row-Written current))

    -- The row of the settlement after a call that was carried out.
    pub write_row-find :
        (to : Option SettlementStatus)
        → write_row store input current to ≡ some rows
        → (r : Settlement V) × (find (has_id input.settlement_id) rows ≡ some r)
          × Written current to r
    unfolding write_row
    write_row-find none w = write_annotation-find input.patch refl w
    write_row-find (some to) w =
        write_move-find to (customer_status_column to (opened_code to input)) w

  write_move-find_ne :
      (current : Settlement V) {rows : List (Settlement V)} (to : SettlementStatus) (other : String)
      (column : Option (Option CustomerStatus))
      → other ≢ input.settlement_id
      → write_move store input current to column ≡ some rows
      → find (has_id other) rows ≡ find (has_id other) store.settlements
  unfolding write_move
  write_move-find_ne current to other none ne w = cc
  write_move-find_ne current to other (some c) ne w =
      find-update_rows_ne input.settlement_id (has_id_version input.settlement_id current.version)
        (moved_row input current to c) (versioned_sound current.version) (moved_row-id current to c)
        other store.settlements ne w

  write_annotation-find_ne :
      {rows : List (Settlement V)} (other : String) (patch : List (String × V))
      → other ≢ input.settlement_id
      → write_annotation store input patch ≡ some rows
      → find (has_id other) rows ≡ find (has_id other) store.settlements
  unfolding write_annotation
  write_annotation-find_ne other [] ne w = ground arith
  write_annotation-find_ne other (kv ∷ kvs) ne w =
      find-update_rows_ne input.settlement_id (has_id input.settlement_id) (annotated_row input)
        (λ _ h. h) annotated_row-id other store.settlements ne w

  -- No other settlement's row is touched.
  pub write_row-find_ne :
      (current : Settlement V) {rows : List (Settlement V)} (to : Option SettlementStatus)
      (other : String)
      → other ≢ input.settlement_id
      → write_row store input current to ≡ some rows
      → find (has_id other) rows ≡ find (has_id other) store.settlements
  unfolding write_row
  write_row-find_ne current none other ne w = write_annotation-find_ne other input.patch ne w
  write_row-find_ne current (some to) other ne w =
      write_move-find_ne current to other (customer_status_column to (opened_code to input)) ne w
