-- ===== src/Parser/Sse.antt =====
-- The loop header that both streaming parsers share: bufio.Scanner over the lines of the body, and
-- the test for `data: ` lines.
pub mod Laws
pub mod Framing
use codesteward_audit_proxy.Base.{
  ℕ, ◌+◌, ◌*◌, ◌≡◌, refl, Bool, true, false, ◌||◌, Option, none, some, List, [], ◌∷◌, leb, ◌==◌,
  if◌then◌else◌, is_nil, reversed,
}
use codesteward_audit_proxy.Base.Bytes.{Bytes, codes, eq_bytes, strip_prefix}
use codesteward_audit_proxy.Parser.Types.{ParseError, token_too_long}

-- bufio.MaxScanTokenSize: a line is given up once it fills the buffer.
abbrev pub max_token : ℕ
max_token = 64 * 1024

-- The line read so far is kept in reverse.
drop_cr : Bytes → Bytes
drop_cr [] = []
drop_cr (c ∷ s) = if c == b'\r' then reversed s else reversed (c ∷ s)

-- The tokens of the scanner, and whether it stopped at a line that is too long.
unfoldable pub read_lines : Bytes → ℕ → Bytes → List Bytes × Bool
unfolding drop_cr
read_lines line n [] = (if n == 0 then [] else drop_cr line ∷ [], false)
read_lines line n (c ∷ s) =
    let rest = read_lines [] 0 s in
    let more = read_lines (c ∷ line) (n + 1) s in
    if c == b'\n'
    then (drop_cr line ∷ rest.0, rest.1)
    else if leb max_token (n + 1)
    then ([], true)
    else more

unfoldable pub lines : Bytes → List Bytes
unfolding read_lines
lines body = (read_lines [] 0 body).0

-- scanner.Err()
unfoldable pub scan_error : Bytes → Option ParseError
unfolding read_lines
scan_error body = if (read_lines [] 0 body).1 then some token_too_long else none

-- The payload of a line that the loop goes on with.
unfoldable pub data_line : Bytes → Option Bytes
unfolding strip_prefix eq_bytes
data_line line = elim (strip_prefix (codes "data: ") line) [
  | none ↦ none
  | some payload ↦
      if is_nil payload || eq_bytes payload (codes "[DONE]") then none else some payload
]

three_lines : lines (codes "a\r\n\nbc") ≡ codes "a" ∷ [] ∷ codes "bc" ∷ []
unfolding lines
three_lines = refl

payload_of :
    (data_line (codes "data: {}") ≡ some (codes "{}"))
    × (data_line (codes "data: [DONE]") ≡ none)
    × (data_line (codes "event: x") ≡ none)
unfolding data_line
payload_of = (refl, refl, refl)
