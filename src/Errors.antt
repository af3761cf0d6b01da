-- ===== src/Errors.antt =====
-- src/grpc_helper/errors.py: the error class, and code that may raise.
pub mod Method
use grpc_helper.Base.{ℕ, String, ◌≡◌, ◌⊎◌, inl, inr, refl, Bool, true, false}

-- The codes of the API package that the sources name.
pub data ResultCode : Type 0 where
  rc_ok error error_param_missing error_param_invalid error_model_invalid : ResultCode
  error_item_unknown error_item_conflict error_port_busy error_rpc : ResultCode
  error_state_unexpected error_stream_shutdown error_proxy_unregistered : ResultCode
  error_api_server_too_old error_api_client_too_old : ResultCode
  other_code : ℕ → ResultCode

-- `RpcException(message, rc)`, or another Python exception by its class and its text.
pub data Exception : Type 0 where
  rpc_exception : String → ResultCode → Exception
  python_error : String → String → Exception

-- What a call that may raise comes to.
pub data Result {ℓ} (T : Type ℓ) : Type ℓ where
  raised : Exception → Result T
  ok : T → Result T

-- `if wrong: raise e`
abbrev pub raise_if : Bool → Exception → Result (Unit {0})
raise_if true e = raised e
raise_if false e = ok tt

infixl 5 ◌>>=◌ ◌>>◌
abbrev pub ◌>>=◌ {ℓ κ} : {T : Type ℓ} {U : Type κ} → Result T → (T → Result U) → Result U
raised e >>= next = raised e
ok value >>= next = next value

abbrev pub ◌>>◌ {ℓ κ} : {T : Type ℓ} {U : Type κ} → Result T → Result U → Result U
first >> second = first >>= λ _. second

abbrev pub is_ok {ℓ} : {T : Type ℓ} → Result T → Bool
is_ok (raised e) = false
is_ok (ok value) = true

-- The code of an `RpcException`.
abbrev pub HasCode {ℓ} : {T : Type ℓ} → ResultCode → Result T → Type 0
HasCode rc (raised (rpc_exception message code)) = code ≡ rc
HasCode rc _ = ⊥

pub ok_injective {ℓ} : {T : Type ℓ} {x y : T} → ok x ≡ ok y → x ≡ y
ok_injective same = cc

-- A sequence that returned: its first part did, and the rest did from there.
pub bind-eq-ok {ℓ κ} :
    {T : Type ℓ} {U : Type κ} (first : Result T) (next : T → Result U) {value : U}
    → (first >>= next) ≡ ok value
    → (between : T) × (first ≡ ok between) × (next between ≡ ok value)
bind-eq-ok (raised e) next returned = cc
bind-eq-ok (ok between) next returned = (between, refl, returned)

pub Result-cases {ℓ} :
    {T : Type ℓ} (r : Result T)
    → ((e : Exception) × (r ≡ raised e)) ⊎ ((value : T) × (r ≡ ok value))
Result-cases (raised e) = inl (e, refl)
Result-cases (ok value) = inr (value, refl)
