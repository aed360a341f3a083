-- ===== src/Plugin/Stderr/Lines.antt =====
-- The log of a plugin's standard error does not depend on how the writes cut it up.
use mathlib.Core.List.{append_assoc}
use claw_proxy_hub_next.Base.{
  ℕ, ◌==◌, ◌≤◌, ltb, List, [], ◌∷◌, ◌++◌, length, ◌≡◌, refl, sym, ap, ◌∙◌, arith, Bool-cases, inl,
  inr, false,
}
use claw_proxy_hub_next.Plugin.Stderr.{
  Bytes, max_stderr_buf, trim_cr, logged, drain, capped, write, write_all,
}

abbrev pub concat : List Bytes → Bytes
concat [] = []
concat (p ∷ ps) = p ++ concat ps

-- A text in two parts.
drain-append :
    (line xs ys : Bytes)
    → let (lines, rest) = drain line xs in
      let (more, last) = drain rest ys in drain line (xs ++ ys) ≡ (lines ++ more, last)
unfolding drain
drain-append line [] ys = refl
drain-append line (b ∷ xs) ys = elim (Bool-cases (b == 10)) [
  | inl e ↦
      let (lines, rest) : List Bytes × Bytes = drain [] xs in
      let later = drain-append [] xs ys in
      rw (e, later)
        (ap (λ (out : List Bytes). (out, (drain rest ys).1))
          (sym (append_assoc (logged (trim_cr line)) lines (drain rest ys).0)))
  | inr e ↦ rw e (drain-append (line ++ b ∷ []) xs ys)
]

-- What is left over has no newline in it: drained again, it stays.
IsLine : Bytes → Type 0
IsLine bs = drain [] bs ≡ ([], bs)

drain-line : (line more : Bytes) → IsLine line → drain [] (line ++ more) ≡ drain line more
unfolding IsLine
drain-line line more h = drain-append [] line more ∙ rw h refl

nil-IsLine : IsLine []
unfolding IsLine drain
nil-IsLine = refl

snoc-IsLine : (line : Bytes) (b : ℕ) → (b == 10) ≡ false → IsLine line → IsLine (line ++ b ∷ [])
unfolding IsLine drain
snoc-IsLine line b e h = drain-append [] line (b ∷ []) ∙ rw (h, e) refl

rest-IsLine : (line bs : Bytes) → IsLine line → IsLine (drain line bs).1
unfolding drain
rest-IsLine line [] h = h
rest-IsLine line (b ∷ bs) h = elim (Bool-cases (b == 10)) [
  | inl e ↦ rw e (rest-IsLine [] bs nil-IsLine)
  | inr e ↦ rw e (rest-IsLine (line ++ b ∷ []) bs (snoc-IsLine line b e h))
]

-- No line that is left unfinished by a write is longer than the buffer may be.
abbrev pub Fits : Bytes → List Bytes → Type 0
Fits line [] = Unit
Fits line (p ∷ ps) = (length (drain line p).1 ≤ max_stderr_buf) × Fits (drain line p).1 ps

fits : (rest : Bytes) → length rest ≤ max_stderr_buf → ltb max_stderr_buf (length rest) ≡ false
fits rest k = ground (arith, k)

writes_joined :
    (line : Bytes) (ps : List Bytes)
    → IsLine line
    → Fits line ps
    → write_all line ps ≡ drain line (concat ps)
unfolding write_all
writes_joined line [] h k = unfold drain in refl
writes_joined line (p ∷ ps) h k =
    let (lines, rest) : List Bytes × Bytes = drain line p in
    let later : write_all rest ps ≡ drain rest (concat ps) =
      writes_joined rest ps (rest-IsLine line p h) k.1 in
    rw (drain-line line p h, fits rest k.0, later) (sym (drain-append line p (concat ps)))

-- The buffer never holds more, even where a line is longer.
capped_le : (rest : Bytes) → length (capped rest) ≤ max_stderr_buf
capped_le rest = ground arith

pub buffer_le :
    (buf : Bytes) (ps : List Bytes)
    → length buf ≤ max_stderr_buf
    → length (write_all buf ps).1 ≤ max_stderr_buf
unfolding write_all write
buffer_le buf [] h = h
buffer_le buf (p ∷ ps) h =
    let rest = (drain [] (buf ++ p)).1 in buffer_le (capped rest) ps (capped_le rest)

-- The log of a plugin's standard error is the one of all its bytes at once, however the writes cut
-- them up, as long as no write leaves an unfinished line of more than 65536 bytes.
pub write_all-drain : (ps : List Bytes) → Fits [] ps → write_all [] ps ≡ drain [] (concat ps)
write_all-drain ps k = writes_joined [] ps nil-IsLine k
