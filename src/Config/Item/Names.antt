-- ===== src/Config/Item/Names.antt =====
-- The pattern `[a-z][a-z0-9-]*` of config item names, as `re.match` applies it: to a prefix.
use grpc_helper.Base.{
  ℕ, Bool, ◌&&◌, ◌||◌, Option, none, some, List, [], ◌∷◌, leb, ◌=ℕ◌, if◌then◌else◌,
}

abbrev pub is_lower : ℕ → Bool
is_lower c = leb b'a' c && leb c b'z'

-- `[a-z0-9-]`
abbrev pub is_name_char : ℕ → Bool
is_name_char c = is_lower c || ((leb b'0' c && leb c b'9') || c =ℕ b'-')

-- The longest prefix of name characters, and the rest.
unfoldable pub name_span : List ℕ → List ℕ × List ℕ
name_span [] = ([], [])
name_span (c ∷ s) =
    let (taken, rest) = name_span s in if is_name_char c then (c ∷ taken, rest) else ([], c ∷ s)

-- The matched prefix and what stands behind it, or no match.
unfoldable pub name_match : List ℕ → Option (List ℕ × List ℕ)
unfolding name_span
name_match [] = none
name_match (c ∷ s) =
    let (taken, rest) = name_span s in if is_lower c then some (c ∷ taken, rest) else none
