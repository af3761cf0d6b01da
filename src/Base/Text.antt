-- ===== src/Base/Text.antt =====
-- Texts as code points, and the operations of Python's `str` that the program uses.
use Prim.Native.Char.{code}
use Prim.Native.String.append
use grpc_helper.Base.{
  ℕ, String, List, [], ◌∷◌, ◌++◌, ◌<>◌, ◌≡◌, ap, ◌∙◌, Bool, true, false, ◌&&◌, ◌||◌, ◌=ℕ◌, any,
}

-- The code points of a text. `String` has its own `[]` and `∷`.
abbrev pub codes : String → List ℕ
codes String.[] = []
codes (String.◌∷◌ c s) = code c ∷ codes s

pub codes-append : (s t : String) → codes (s <> t) ≡ codes s ++ codes t
codes-append String.[] t = ap codes (append.nil t)
codes-append (String.◌∷◌ c s) t =
    ap codes (append.cons c s t) ∙ ap (λ (l : List ℕ). code c ∷ l) (codes-append s t)

-- `c in text`, for one character
unfoldable pub has_char : ℕ → String → Bool
has_char c text = any (λ x. x =ℕ c) (codes text)

-- `sep.join(texts)`
unfoldable pub join : String → List String → String
join sep [] = ""
join sep (t ∷ []) = t
join sep (t ∷ u ∷ rest) = t <> (sep <> join sep (u ∷ rest))

starts_with : List ℕ → List ℕ → Bool
starts_with [] text = true
starts_with (c ∷ part) [] = false
starts_with (c ∷ part) (x ∷ text) = c =ℕ x && starts_with part text

-- `part in text`
pub has_part : List ℕ → List ℕ → Bool
unfolding starts_with
has_part part [] = starts_with part []
has_part part (x ∷ text) = starts_with part (x ∷ text) || has_part part text
