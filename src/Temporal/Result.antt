-- ===== src/Temporal/Result.antt =====
-- Failures of the temporal services as values: the codes of `TemporalProjectionError`
-- (backend/app/temporal_projection.py), a refusal by a contract's validator
-- (backend/app/temporal_contracts.py), and the other exceptions that the code lets through.
use openassetwatch.Prelude.{Bool, true, false, String, ◌≡◌, refl, arith}

pub data ErrorCode : Type 0 where
  unknown_metric invalid_site unsupported_scope unsupported_granularity : ErrorCode
  timezone_required unaligned_window invalid_window window_too_large : ErrorCode
  history_after_cutoff future_window duplicate_source_bucket site_not_found : ErrorCode
  unaligned_target future_target open_history_bucket : ErrorCode
  open_or_future_target invalid_deviation_policy invalid_observation_projection : ErrorCode
  observation_provenance_mismatch invalid_observation_identity : ErrorCode
  expectation_provenance_mismatch invalid_expectation_identity : ErrorCode
  unbounded_persistence_support invalid_persistence_support : ErrorCode
  invalid_persistence_direction : ErrorCode

-- `contract` is a validator's refusal with its message, `overflow` the `OverflowError` of a date
-- before the first day of the calendar.
pub data Error : Type 0 where
  projection : ErrorCode → Error
  contract value_error runtime_error : String → Error
  overflow assertion : Error

-- What a service returns, or the error that it raises.
pub data Result {ℓ} (A : Type ℓ) : Type ℓ where
  err : Error → Result A
  ok : A → Result A

-- A statement and what follows it: an error ends the run.
infixl 5 ◌>>=◌
abbrev pub ◌>>=◌ {ℓ κ} : {X : Type ℓ} {Y : Type κ} → Result X → (next : X → Result Y) → Result Y
err raised >>= next = err raised
ok value >>= next = next value

-- The same after a statement without a value, as a check is.
infixl 5 ◌>>◌
abbrev pub ◌>>◌ {ℓ} : {Y : Type ℓ} → (check : Result (Unit {0})) → (rest : Result Y) → Result Y
check >> rest = check >>= λ _. rest

-- `if test: raise e`
abbrev pub raise_if : Bool → Error → Result (Unit {0})
raise_if true e = err e
raise_if false e = ok tt

-- `if test: raise ValueError(message)` in a validator
abbrev pub refuse_if : Bool → String → Result (Unit {0})
refuse_if b message = raise_if b (contract message)

-- A run that returns has passed its first statement.
pub >>=-eq-ok {ℓ κ} :
    {X : Type ℓ} {Y : Type κ} (m : Result X) (next : X → Result Y) {y : Y}
    → (m >>= next) ≡ ok y
    → (x : X) × (m ≡ ok x) × (next x ≡ ok y)
>>=-eq-ok (err raised) next h = cc
>>=-eq-ok (ok value) next h = (value, refl, h)

-- Two results of one computation are the same.
pub same_ok {ℓ} : {A : Type ℓ} {m : Result A} {a b : A} → m ≡ ok a → m ≡ ok b → a ≡ b
same_ok p q = cc

abbrev pub is_ok {ℓ} : {A : Type ℓ} → Result A → Bool
is_ok (ok a) = true
is_ok (err e) = false

pub is_ok→some {ℓ} : {A : Type ℓ} (m : Result A) → is_ok m ≡ true → (a : A) × (m ≡ ok a)
is_ok→some (ok a) h = (a, refl)
is_ok→some (err e) h = cc

-- The construction of a contract's value: the value, or its validator's refusal.
abbrev pub construct {ℓ} : {A : Type ℓ} → (A → Result (Unit {0})) → A → Result A
construct validate a = validate a >>= λ _. ok a

pub construct-eq-ok {ℓ} :
    {A : Type ℓ} (validate : A → Result (Unit {0})) (a : A) {b : A}
    → construct validate a ≡ ok b
    → (b ≡ a) × (validate a ≡ ok tt)
construct-eq-ok validate a h = ground arith

pub construct-ok {ℓ} :
    {A : Type ℓ} (validate : A → Result (Unit {0})) (a : A)
    → validate a ≡ ok tt
    → construct validate a ≡ ok a
construct-ok validate a h = rw h
