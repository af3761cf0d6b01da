-- ===== src/Config/Env.antt =====
-- The environment variable of a config item: `name.upper().replace("-", "_")`, for the letters of
-- ASCII. Other characters are left as they are.
pub mod Injective
use Prim.Native.Char.{Char, char, IsScalar}
use mathlib.Core.Logic.{dite}
use native.Mathlib.Decide.{dec_lt}
use grpc_helper.Base.{ℕ, ◌-◌, ◌<◌, String, if◌then◌else◌, ◌=ℕ◌, arith}
use grpc_helper.Config.Item.Names.{is_lower}

pub env_code : ℕ → ℕ
env_code c = if is_lower c then c - 32 else if c =ℕ b'-' then b'_' else c

pub env_code_lt : (c : ℕ) → c < 128 → env_code c < 128
unfolding env_code
env_code_lt c h = ground arith

pub ascii-IsScalar : (n : ℕ) → n < 128 → IsScalar n
ascii-IsScalar n h = ground arith

pub env_char : Char → Char
unfolding dec_lt
env_char (char n p) =
    dite (dec_lt n 128) (λ h. char (env_code n) (ascii-IsScalar (env_code n) (env_code_lt n h)))
      (λ _. char n p)

unfoldable pub env_name : String → String
unfolding env_char env_code
env_name String.[] = String.[]
env_name (String.◌∷◌ c s) = String.◌∷◌ (env_char c) (env_name s)
