-- ===== src/Common/Result.antt =====
-- What a call returns, or the exception that it raises.

pub data Exception : Type 0 where
  value_error stop_iteration lookup_error ffprobe_error file_not_found timeout_expired : Exception
  type_error json_decode_error overflow_error http_error out_of_fuel other_error : Exception

pub data Result {ℓ} (A : Type ℓ) : Type ℓ where
  ok : A → Result A
  raise : Exception → Result A

infixl 5 ◌>>=◌
abbrev pub ◌>>=◌ {ℓ κ} : {A : Type ℓ} {B : Type κ} → Result A → (A → Result B) → Result B
ok a >>= f = f a
raise e >>= f = raise e
