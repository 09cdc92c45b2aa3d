-- ===== src/Errors.antt =====
-- packages/shared/src/errors/index.ts and the `MoneyError` class: what the code throws, and the
-- result of a call that may throw. Messages are for display and are left out; an error is known by
-- its category, its code and its HTTP status, a `MoneyError` by the check that raised it.
use Prim.Native.String.{String}
use dohost.Base.{ℕ, ◌≡◌, refl, ◌⊎◌, inl, inr, Bool, true, false, Option, none, some}

pub data ErrorCategory : Type 0 where
  validation authentication authorization business_rule integration : ErrorCategory
  transient infrastructure concurrency fraud payment : ErrorCategory

-- DEFAULT_HTTP_STATUS
abbrev pub default_http_status : ErrorCategory → ℕ
default_http_status validation = 400
default_http_status authentication = 401
default_http_status authorization = 403
default_http_status business_rule = 422
default_http_status integration = 502
default_http_status transient = 503
default_http_status infrastructure = 500
default_http_status concurrency = 409
default_http_status fraud = 403
default_http_status payment = 402

pub record AppError : Type 0 where
  pub category : ErrorCategory
  pub code : String
  pub http_status : ℕ

-- The constructor of `AppError`, with the optional status of its options.
abbrev pub app_error_with : ErrorCategory → String → Option ℕ → AppError
app_error_with category code none = record {
  category = category;
  code = code;
  http_status = default_http_status category;
}
app_error_with category code (some status) = record {
  category = category;
  code = code;
  http_status = status;
}

abbrev pub app_error : ErrorCategory → String → AppError
app_error category code = app_error_with category code none

-- The reasons for which the money code throws, one for each message.
pub data MoneyError : Type 0 where
  amount_not_integer quantity_not_integer : MoneyError
  invalid_currency currency_mismatch invalid_bps : MoneyError
  no_ratios invalid_ratio zero_ratios : MoneyError

-- Everything that the modelled code throws. `record_not_found` is the database client's own error
-- for a required row that is missing.
pub data Error : Type 0 where
  app : AppError → Error
  money_error : MoneyError → Error
  record_not_found : Error
  -- `new Error(...)`
  plain : Error

-- What a call returns, or the error that it throws.
pub data Result (A : Type 0) : Type 0 where
  ok : A → Result A
  err : Error → Result A

pub Result-cases :
    {A : Type 0} (r : Result A) → ((a : A) × (r ≡ ok a)) ⊎ ((e : Error) × (r ≡ err e))
Result-cases (ok a) = inl (a, refl)
Result-cases (err e) = inr (e, refl)

-- The outcome of a test that may throw.
pub verdict-cases : (r : Result Bool) → (r ≡ ok true) ⊎ (r ≡ ok false) ⊎ ((e : Error) × (r ≡ err e))
verdict-cases (ok true) = inl refl
verdict-cases (ok false) = inr (inl refl)
verdict-cases (err e) = inr (inr (e, refl))

-- `if (!test) throw error`
abbrev pub guard : Bool → Error → Result (Unit {0})
guard false failure = err failure
guard true _ = ok tt

-- What follows a call: an error that it throws is passed on.
infixl 5 ◌>>=◌
abbrev pub ◌>>=◌ : {A B : Type 0} → Result A → (A → Result B) → Result B
err failure >>= next = err failure
ok value >>= next = next value

infixl 5 ◌>>◌
abbrev pub ◌>>◌ : {B : Type 0} → Result (Unit {0}) → Result B → Result B
check >> rest = check >>= λ done. rest

pub >>=-eq-ok :
    {A B : Type 0} (call : Result A) (next : A → Result B) {b : B}
    → (call >>= next) ≡ ok b
    → (value : A) × (call ≡ ok value) × (next value ≡ ok b)
>>=-eq-ok (err failure) next h = cc
>>=-eq-ok (ok value) next h = (value, refl, h)

abbrev pub is_app_error : Error → Bool
is_app_error (app e) = true
is_app_error _ = false

-- `SafeErrorPayload`, without the message.
pub record SafeErrorPayload {ℓ} (R : Type ℓ) : Type ℓ where
  pub code : String
  pub category : ErrorCategory
  pub request_id : Option R

-- `toSafeErrorPayload`
abbrev pub to_safe_error_payload {ℓ} : {R : Type ℓ} → Error → Option R → SafeErrorPayload R
to_safe_error_payload (app e) r = record { code = e.code; category = e.category; request_id = r }
to_safe_error_payload _ r = record {
  code = "internal_error";
  category = infrastructure;
  request_id = r;
}
