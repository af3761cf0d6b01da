-- ===== src/Calls/Trace/Bounds.antt =====
-- src/grpc_helper/utils.py: the length of the trace of a message.
use Prim.Native.Char.{code}
use Prim.Native.String.append
use grpc_helper.Base.{
  ℕ, zero, suc, ◌+◌, ◌≤◌, ◌<◌, String, ◌<>◌, false, ◌=ℕ◌, arith, ◌≡◌, refl, ap, ◌||◌, Bool-cases,
  inl, inr, ◌∙◌,
}
use grpc_helper.Base.Text.{has_char}
use grpc_helper.Calls.Trace.{
  max_trace_buffer_len, text_length, text_take, without_newlines, stripped, trace_buffer,
}

text_length-append : (s t : String) → text_length (s <> t) ≡ text_length s + text_length t
unfolding text_length
text_length-append String.[] t = rw (append.nil t) (ground arith)
text_length-append (String.◌∷◌ c s) t =
    rw (append.cons c s t) (ground (arith, text_length-append s t))

text_length-take : (n : ℕ) (s : String) → text_length (text_take n s) ≤ n
unfolding text_length text_take
text_length-take zero s = ground arith
text_length-take (suc n) String.[] = ground arith
text_length-take (suc n) (String.◌∷◌ c s) = ground (arith, text_length-take n s)

text_take-all : (n : ℕ) (s : String) → text_length s ≤ n → text_take n s ≡ s
unfolding text_length text_take
text_take-all zero String.[] short = refl
text_take-all zero (String.◌∷◌ c s) short = absurd (omega arith)
text_take-all (suc n) String.[] short = refl
text_take-all (suc n) (String.◌∷◌ c s) short = ap (String.◌∷◌ c) (text_take-all n s (omega arith))

text_length-without_newlines : (s : String) → text_length (without_newlines s) ≡ text_length s
unfolding text_length without_newlines
text_length-without_newlines String.[] = refl
text_length-without_newlines (String.◌∷◌ c s) = ap suc (text_length-without_newlines s)

stripped-length : (limit : ℕ) (s : String) → text_length (stripped limit s) ≤ limit + 3
unfolding stripped text_length
stripped-length limit s =
    ground (arith, text_length-append (text_take limit s) "...", text_length-take limit s)

has_newline-append : (s t : String) → has_char 10 (s <> t) ≡ (has_char 10 s || has_char 10 t)
unfolding has_char
has_newline-append String.[] t = rw (append.nil t) refl
has_newline-append (String.◌∷◌ c s) t =
    rw (append.cons c s t) (ground (arith, has_newline-append s t))

has_newline-take :
    (n : ℕ) (s : String) → has_char 10 s ≡ false → has_char 10 (text_take n s) ≡ false
unfolding has_char text_take
has_newline-take zero s h = refl
has_newline-take (suc n) String.[] h = refl
has_newline-take (suc n) (String.◌∷◌ c s) h = ground (arith, has_newline-take n s)

has_newline-without_newlines : (s : String) → has_char 10 (without_newlines s) ≡ false
unfolding has_char without_newlines
has_newline-without_newlines String.[] = refl
has_newline-without_newlines (String.◌∷◌ c s) = elim (Bool-cases (code c =ℕ 10)) [
  | inl newline ↦ rw newline (ground (arith, has_newline-without_newlines s))
  | inr other ↦ rw other (ground (arith, other, has_newline-without_newlines s))
]

stripped-newline :
    (limit : ℕ) (s : String) → has_char 10 s ≡ false → has_char 10 (stripped limit s) ≡ false
unfolding stripped has_char
stripped-newline limit s h =
    ground (arith, h, has_newline-append (text_take limit s) "...", has_newline-take limit s h)

traced_length :
    (name shown : String)
    → text_length shown ≤ 1027
    → text_length (name <> ("{" <> (shown <> "}"))) ≤ text_length name + 1029
unfolding text_length
traced_length name shown short = ground (
  arith,
  short,
  text_length-append name ("{" <> (shown <> "}")),
  text_length-append "{" (shown <> "}"),
  text_length-append shown "}",
)

traced_newline :
    (name shown : String)
    → has_char 10 name ≡ false
    → has_char 10 shown ≡ false
    → has_char 10 (name <> ("{" <> (shown <> "}"))) ≡ false
unfolding has_char
traced_newline name shown h line = ground (
  arith,
  h,
  line,
  has_newline-append name ("{" <> (shown <> "}")),
  has_newline-append "{" (shown <> "}"),
  has_newline-append shown "}",
)

stripped_short : (limit : ℕ) (s : String) → text_length s < limit → stripped limit s ≡ s
unfolding stripped
stripped_short limit s short = ground (arith, short)

stripped_full : (limit : ℕ) (s : String) → text_length s ≡ limit → stripped limit s ≡ s <> "..."
unfolding stripped
stripped_full limit s full = ground (arith, full, text_take-all limit s)

-- The trace of a message is a single line if the name of its type is one, and at most 1029
-- characters longer than this name. The text of a message of less than 1024 characters is in the
-- trace as a whole, but for its newlines; that of a message of just 1024 characters too, with dots.
pub trace_buffer-length :
    (buffer_name buffer : String)
    → (text_length (trace_buffer buffer_name buffer) ≤ text_length buffer_name + 1029)
      × (has_char 10 buffer_name ≡ false → has_char 10 (trace_buffer buffer_name buffer) ≡ false)
      × (text_length buffer < max_trace_buffer_len
          → trace_buffer buffer_name buffer
            ≡ buffer_name <> ("{" <> (without_newlines buffer <> "}")))
      × (text_length buffer ≡ max_trace_buffer_len
          → trace_buffer buffer_name buffer
            ≡ buffer_name <> ("{" <> ((without_newlines buffer <> "...") <> "}")))
unfolding trace_buffer
trace_buffer-length buffer_name buffer =
    let text = without_newlines buffer in
    let shown = stripped max_trace_buffer_len text in
    let same = text_length-without_newlines buffer in
    (
      traced_length buffer_name shown (stripped-length max_trace_buffer_len text),
      λ name.
          traced_newline buffer_name shown name
            (stripped-newline max_trace_buffer_len text (has_newline-without_newlines buffer)),
      λ short.
          ap (λ (t : String). buffer_name <> ("{" <> (t <> "}")))
            (stripped_short max_trace_buffer_len text (rw same short)),
      λ full.
          ap (λ (t : String). buffer_name <> ("{" <> (t <> "}")))
            (stripped_full max_trace_buffer_len text (same ∙ full)),
    )
