-- ===== src/Reconciliation/Finality.antt =====
-- When a settlement may be called final: packages/domain/src/reconciliation/finality.ts. The texts of
-- `because` are prose and are left out; a status is a text there, as it is here.
use Prim.Native.String.{String}
use text.Mathlib.Text.{◌==◌ as str_eq}
use text.Mathlib.TextEquality.{eq_iff}
use inrsettling.Base.{
  ◌≡◌, ◌≢◌, ◌↔◌, ◌⊎◌, refl, sym, ap, ◌∙◌, inl, inr, Bool, true, false, ◌&&◌, ◌||◌, not, Bool-cases,
  Option, none, some, List, [], ◌∷◌, map, arith,
}
use mathlib.Core.Option.{some-injective}
use inrsettling.Base.Lists.{filter, All}
use inrsettling.Base.Int.{ℤ, pos, eqb_ℤ}

pub data Condition : Type 0 where
  f1 f2 f3 f4 f5 f6 x1 x2 : Condition

pub data ConfirmationSource : Type 0 where
  trusted_provider_event authoritative_status_pull : ConfirmationSource

-- The groups of the evidence are one record here.
pub record FinalityEvidence : Type 0 where
  pub authorized_at : Option String
  pub authorized_by : Option String
  pub actor_held_capability : Bool
  pub drawdown_status : Option String
  pub facility_status : Option String
  pub confirmation_source : Option ConfirmationSource
  pub attempt_status : Option String
  pub utr : Option String
  pub utr_well_formed : Bool
  pub reconciliation_status : Option String
  pub delta_minor : Option ℤ
  pub open_exception_code : Option String
  pub authorized_terms_hash : Option String
  pub authorized_destination_version : Option String
  pub executed_terms_hash : Option String
  pub executed_destination_version : Option String

pub record ConditionVerdict : Type 0 where
  pub condition : Condition
  pub met : Bool

pub record FinalityVerdict : Type 0 where
  pub final : Bool
  pub conditions : List ConditionVerdict
  pub missing : List Condition

unfoldable pub is_some {ℓ} : {A : Type ℓ} → Option A → Bool
is_some none = false
is_some (some _) = true

-- `value === 'TEXT'`, where the value may be null.
unfoldable pub is_text : Option String → String → Bool
is_text none text' = false
is_text (some s) text' = str_eq s text'

unfoldable pub is_zero_delta : Option ℤ → Bool
is_zero_delta none = false
is_zero_delta (some d) = eqb_ℤ d (pos 0)

-- A frozen value is there, and the executed one is the same.
unfoldable pub is_executed : Option String → Option String → Bool
unfolding is_text
is_executed none executed = false
is_executed (some authorized) executed = is_text executed authorized

unfoldable pub is_present : Option String → Bool
is_present none = false
is_present (some s) = not (str_eq s "")

unfoldable pub meets : FinalityEvidence → Condition → Bool
unfolding is_some is_text is_zero_delta is_executed is_present
meets e f1 = is_some e.authorized_at && (is_some e.authorized_by && e.actor_held_capability)
meets e f2 = is_text e.drawdown_status "CONFIRMED" && is_text e.facility_status "ACTIVE"
meets e f3 =
    (is_text e.attempt_status "CREDITED" || is_text e.attempt_status "RETURNED")
    && is_some e.confirmation_source
meets e f4 = is_present e.utr && e.utr_well_formed
meets e f5 = is_text e.reconciliation_status "MATCHED" && is_zero_delta e.delta_minor
meets e f6 = not (is_some e.open_exception_code)
meets e x1 = is_executed e.authorized_terms_hash e.executed_terms_hash
meets e x2 = is_executed e.authorized_destination_version e.executed_destination_version

unfoldable pub verdict : FinalityEvidence → Condition → ConditionVerdict
unfolding meets
verdict e c = record { condition = c; met = meets e c }

unfoldable pub is_empty {ℓ} : {A : Type ℓ} → List A → Bool
is_empty [] = true
is_empty (_ ∷ _) = false

unfoldable pub evaluate_finality : FinalityEvidence → FinalityVerdict
unfolding verdict is_empty
evaluate_finality e =
    let conditions = map (verdict e) (f1 ∷ f2 ∷ f3 ∷ f4 ∷ f5 ∷ f6 ∷ x1 ∷ x2 ∷ []) in
    let missing = map (λ c. c.condition) (filter (λ c. not c.met) conditions) in
    record { final = is_empty missing; conditions = conditions; missing = missing }

-- The eight conditions in words of their own.
pub record IsFinal (e : FinalityEvidence) : Type 0 where
  pub authorized : e.authorized_at ≢ none
  pub by_someone : e.authorized_by ≢ none
  pub capable : e.actor_held_capability ≡ true
  pub drawn : e.drawdown_status ≡ some "CONFIRMED"
  pub funded : e.facility_status ≡ some "ACTIVE"
  pub credited : (e.attempt_status ≡ some "CREDITED") ⊎ (e.attempt_status ≡ some "RETURNED")
  pub over_a_trusted_channel : e.confirmation_source ≢ none
  pub with_utr : (utr : String) × (e.utr ≡ some utr) × (◌≢◌ {A = String} utr "")
  pub well_formed : e.utr_well_formed ≡ true
  pub matched : e.reconciliation_status ≡ some "MATCHED"
  pub exact : e.delta_minor ≡ some (pos 0)
  pub nothing_open : e.open_exception_code ≡ none
  pub on_the_terms :
      (hash : String) × (e.authorized_terms_hash ≡ some hash) × (e.executed_terms_hash ≡ some hash)
  pub to_the_destination :
      (version : String) × (e.authorized_destination_version ≡ some version)
      × (e.executed_destination_version ≡ some version)

some_iff {ℓ} : {A : Type ℓ} (o : Option A) → (is_some o ≡ true) ↔ (o ≢ none)
unfolding is_some
some_iff none = (λ h. cc, λ h. absurd (h refl))
some_iff (some a) = (λ h e. cc, λ h. refl)

none_iff {ℓ} : {A : Type ℓ} (o : Option A) → (not (is_some o) ≡ true) ↔ (o ≡ none)
unfolding is_some
none_iff none = (λ h. refl, λ h. refl)
none_iff (some a) = (λ h. cc, λ h. cc)

text_iff : (o : Option String) (s : String) → (is_text o s ≡ true) ↔ (o ≡ some s)
unfolding is_text
text_iff none s = (λ h. cc, λ h. cc)
text_iff (some t) s = (λ h. ap some ((eq_iff t s).0 h), λ h. (eq_iff t s).1 (some-injective _ _ h))

zero_iff : (o : Option ℤ) → (is_zero_delta o ≡ true) ↔ (o ≡ some (pos 0))
unfolding is_zero_delta
zero_iff none = (λ h. cc, λ h. cc)
zero_iff (some d) =
    (λ h. ap some (zero_of d h), λ h. let e : d ≡ pos 0 = some-injective _ _ h in rw e refl)
  where
    zero_of : (d : ℤ) → eqb_ℤ d (pos 0) ≡ true → d ≡ pos 0
    zero_of d h = ground arith

executed_iff :
    (a b : Option String) → (is_executed a b ≡ true) ↔ ((s : String) × (a ≡ some s) × (b ≡ some s))
unfolding is_executed
executed_iff none b = (λ h. cc, λ (s, p, q). cc)
executed_iff (some t) b =
    (λ h. (t, refl, (text_iff b t).0 h), λ (s, p, q). (text_iff b t).1 (q ∙ sym p))

present_iff :
    (o : Option String)
    → (is_present o ≡ true) ↔ ((s : String) × (o ≡ some s) × (◌≢◌ {A = String} s ""))
unfolding is_present
present_iff none = (λ h. cc, λ (s, p, ne). cc)
present_iff (some t) = (
  λ h. (t, refl, λ e. cc ((eq_iff t "").1 e, h)),
  λ (s, p, ne). elim (Bool-cases (str_eq t "")) [
    | inl y ↦ absurd (ne (some-injective _ _ (sym p) ∙ (eq_iff t "").0 y))
    | inr n ↦ rw n refl
  ],
)

and_iff : (a b : Bool) → ((a && b) ≡ true) ↔ ((a ≡ true) × (b ≡ true))
and_iff true b = (λ h. (refl, h), λ h. h.1)
and_iff false b = (λ h. cc, λ h. cc)

or_iff : (a b : Bool) → ((a || b) ≡ true) ↔ ((a ≡ true) ⊎ (b ≡ true))
or_iff true b = (λ h. inl refl, λ h. refl)
or_iff false b = (λ h. inr h, λ h. elim h [ inl y ↦ cc | inr y ↦ y ])

-- Nothing is missing exactly where every condition of a list is met.
none_missing :
    (e : FinalityEvidence) (cs : List Condition)
    → (is_empty (map (λ c. c.condition) (filter (λ c. not c.met) (map (verdict e) cs))) ≡ true)
      ↔ All (λ c. meets e c ≡ true) cs
unfolding is_empty verdict
none_missing e [] = (λ h. tt, λ h. refl)
none_missing e (c ∷ cs) = elim (Bool-cases (meets e c)) [
  | inl y ↦ rw y (λ h. (refl, (none_missing e cs).0 h), λ h. (none_missing e cs).1 h.1)
  | inr n ↦ rw n (λ h. cc, λ h. cc h.0)
]

module _ (e : FinalityEvidence) where
  met-IsFinal : All (λ c. meets e c ≡ true) (f1 ∷ f2 ∷ f3 ∷ f4 ∷ f5 ∷ f6 ∷ x1 ∷ x2 ∷ []) → IsFinal e
  unfolding meets
  met-IsFinal (m1, (m2, (m3, (m4, (m5, (m6, (m7, (m8, _)))))))) =
      let (at, rest) = (and_iff _ _).0 m1 in
      let (by, held) = (and_iff _ _).0 rest in
      let (drawdown, facility) = (and_iff _ _).0 m2 in
      let (attempt, source) = (and_iff _ _).0 m3 in
      let (utr, formed) = (and_iff _ _).0 m4 in
      let (status, delta) = (and_iff _ _).0 m5 in
      record {
        authorized = (some_iff _).0 at;
        by_someone = (some_iff _).0 by;
        capable = held;
        drawn = (text_iff _ _).0 drawdown;
        funded = (text_iff _ _).0 facility;
        credited = elim ((or_iff _ _).0 attempt) [
          | inl y ↦ inl ((text_iff _ _).0 y)
          | inr y ↦ inr ((text_iff _ _).0 y)
        ];
        over_a_trusted_channel = (some_iff _).0 source;
        with_utr = (present_iff _).0 utr;
        well_formed = formed;
        matched = (text_iff _ _).0 status;
        exact = (zero_iff _).0 delta;
        nothing_open = (none_iff _).0 m6;
        on_the_terms = (executed_iff _ _).0 m7;
        to_the_destination = (executed_iff _ _).0 m8;
      }

  IsFinal-meets :
      IsFinal e → All (λ c. meets e c ≡ true) (f1 ∷ f2 ∷ f3 ∷ f4 ∷ f5 ∷ f6 ∷ x1 ∷ x2 ∷ [])
  unfolding meets
  IsFinal-meets h =
      let m3 = (or_iff _ _).1 (elim h.credited [
        | inl y ↦ inl ((text_iff e.attempt_status "CREDITED").1 y)
        | inr y ↦ inr ((text_iff e.attempt_status "RETURNED").1 y)
      ]) in
      (
        (and_iff _ _).1 (
          (some_iff e.authorized_at).1 h.authorized,
          (and_iff _ _).1 ((some_iff e.authorized_by).1 h.by_someone, h.capable),
        ),
        (
          (and_iff _ _).1 ((text_iff _ _).1 h.drawn, (text_iff _ _).1 h.funded),
          (
            (and_iff _ _).1 (m3, (some_iff e.confirmation_source).1 h.over_a_trusted_channel),
            (
              (and_iff _ _).1 ((present_iff e.utr).1 h.with_utr, h.well_formed),
              (
                (and_iff _ _).1 ((text_iff _ _).1 h.matched, (zero_iff e.delta_minor).1 h.exact),
                (
                  (none_iff e.open_exception_code).1 h.nothing_open,
                  (
                    (executed_iff _ _).1 h.on_the_terms,
                    ((executed_iff _ _).1 h.to_the_destination, tt),
                  ),
                ),
              ),
            ),
          ),
        ),
      )

-- evaluateFinality calls a settlement final exactly when each of the six conditions and both drift
-- checks holds of its evidence.
pub evaluate_finality-final_iff :
    (e : FinalityEvidence) → ((evaluate_finality e).final ≡ true) ↔ IsFinal e
unfolding evaluate_finality
evaluate_finality-final_iff e =
    let (to, from) = none_missing e (f1 ∷ f2 ∷ f3 ∷ f4 ∷ f5 ∷ f6 ∷ x1 ∷ x2 ∷ []) in
    (λ h. met-IsFinal e (to h), λ h. from (IsFinal-meets e h))
