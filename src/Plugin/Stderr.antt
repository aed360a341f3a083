-- ===== src/Plugin/Stderr.antt =====
-- `pluginStderr` of internal/plugin/manager.go: the bytes that a plugin writes to its standard error,
-- cut into lines for the log. The loop of `Write` takes a line off the front of the buffer as long as
-- there is a newline; here it walks the bytes, with the line that it has read so far.
pub mod Lines
use claw_proxy_hub_next.Base.{ℕ, ◌==◌, ltb, List, [], ◌∷◌, ◌++◌, length, if◌then◌else◌}

abbrev pub Bytes : Type 0
Bytes = List ℕ

abbrev pub max_stderr_buf : ℕ
max_stderr_buf = 65536

-- `strings.TrimRight(line, "\r")`
abbrev pub trim_step : ℕ → Bytes → Bytes
trim_step b [] = if b == 13 then [] else b ∷ []
trim_step b (c ∷ rest) = b ∷ c ∷ rest

unfoldable pub trim_cr : Bytes → Bytes
trim_cr [] = []
trim_cr (b ∷ bs) = trim_step b (trim_cr bs)

-- `if line != ""`
abbrev pub logged : Bytes → List Bytes
logged [] = []
logged (b ∷ bs) = (b ∷ bs) ∷ []

-- The lines that are logged, and the bytes that stay.
unfoldable pub drain : Bytes → Bytes → List Bytes × Bytes
unfolding trim_cr
drain line [] = ([], line)
drain line (b ∷ bs) =
    let (next, rest) = drain [] bs in
    let more = drain (line ++ b ∷ []) bs in
    if b == 10 then (logged (trim_cr line) ++ next, rest) else more

abbrev pub capped : Bytes → Bytes
capped rest = if ltb max_stderr_buf (length rest) then [] else rest

-- `Write`: what is logged, and the buffer.
unfoldable pub write : Bytes → Bytes → List Bytes × Bytes
unfolding drain
write buf p = let (lines, rest) = drain [] (buf ++ p) in (lines, capped rest)

-- The writes of a process, one after the other.
unfoldable pub write_all : Bytes → List Bytes → List Bytes × Bytes
unfolding write
write_all buf [] = ([], buf)
write_all buf (p ∷ ps) =
    let (lines, buf') = write buf p in let (more, last) = write_all buf' ps in (lines ++ more, last)
