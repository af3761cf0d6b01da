-- ===== src/Config/Env/Injective.antt =====
-- No two names of the documented form share an environment variable.
use Prim.Native.Char.{Char, char, code}
use native.Mathlib.Decide.{dec_lt}
use text.Mathlib.TextEquality.{Char-path}
use grpc_helper.Base.{ℕ, String, ◌≡◌, refl, sym, ap, ◌∙◌, true, map, All, arith}
use grpc_helper.Base.Text.{codes}
use grpc_helper.Config.Item.Names.{is_name_char}
use grpc_helper.Config.Env.{env_code, env_char, env_name}

code-env_char : (c : Char) → code (env_char c) ≡ env_code (code c)
unfolding env_char env_code dec_lt
code-env_char (char n p) = ground arith

-- The variable's name, character by character.
pub codes-env_name : (s : String) → codes (env_name s) ≡ map env_code (codes s)
unfolding env_name
codes-env_name String.[] = refl
codes-env_name (String.◌∷◌ c s) = cc (code-env_char c, codes-env_name s)

env_code_injective :
    (a b : ℕ) → is_name_char a ≡ true → is_name_char b ≡ true → env_code a ≡ env_code b → a ≡ b
unfolding env_code
env_code_injective a b ha hb e = ground arith

abbrev pub IsNameText : String → Type 0
IsNameText s = All (λ c. is_name_char c ≡ true) (codes s)

-- Names of lower-case letters, digits and hyphens with one environment variable are one name.
pub env_name_injective :
    (s t : String) → IsNameText s → IsNameText t → env_name s ≡ env_name t → s ≡ t
unfolding env_name
env_name_injective String.[] String.[] hs ht e = refl
env_name_injective String.[] (String.◌∷◌ d t) hs ht e = cc
env_name_injective (String.◌∷◌ c s) String.[] hs ht e = cc
env_name_injective (String.◌∷◌ c s) (String.◌∷◌ d t) (hc, hs) (hd, ht) e =
    let same_head : env_char c ≡ env_char d = cc in
    let same_tail : env_name s ≡ env_name t = cc in
    let same_code : code c ≡ code d =
      env_code_injective (code c) (code d) hc hd
        (sym (code-env_char c) ∙ ap code same_head ∙ code-env_char d) in
    cc (Char-path c d same_code, env_name_injective s t hs ht same_tail)
