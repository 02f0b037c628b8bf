-- ===== src/Parser/Sse/Laws.antt =====
-- The scanner against the text split at its newlines.
use codesteward_audit_proxy.Base.{
  ℕ, ◌+◌, ◌≤◌, ◌<◌, ◌≡◌, refl, sym, subst, ◌↔◌, inl, inr, Bool, true, false, Option, none, some,
  List, [], ◌∷◌, arith, leb, ◌==◌, if◌then◌else◌, Bool-cases, length, reverse_onto, reversed, All,
}
use codesteward_audit_proxy.Base.Bytes.{Bytes, split}
use codesteward_audit_proxy.Parser.Types.{ParseError, token_too_long}
use codesteward_audit_proxy.Parser.Sse.{max_token, drop_cr, read_lines, lines, scan_error}

-- A line without the carriage return at its end.
abbrev pub chomp : Bytes → Bytes
chomp [] = []
chomp (c ∷ []) = if c == b'\r' then [] else c ∷ []
chomp (c ∷ d ∷ s) = c ∷ chomp (d ∷ s)

-- The lines of the text that has these pieces; nothing behind the last newline is no line.
abbrev pub lines_of : List Bytes → List Bytes
lines_of [] = []
lines_of (w ∷ []) = if length w == 0 then [] else chomp w ∷ []
lines_of (w ∷ v ∷ ws) = chomp w ∷ lines_of (v ∷ ws)

-- A piece that the scanner's buffer holds.
abbrev pub Fits : Bytes → Type 0
Fits w = length w < max_token

data Pieces : Bytes → List Bytes → Type 0 where
  end : Pieces [] ([] ∷ [])
  newline :
      {c : ℕ} {s w : Bytes} {ws : List Bytes}
      → (c == b'\n') ≡ true
      → Pieces s (w ∷ ws)
      → Pieces (c ∷ s) ([] ∷ w ∷ ws)
  byte :
      {c : ℕ} {s w : Bytes} {ws : List Bytes}
      → (c == b'\n') ≡ false
      → Pieces s (w ∷ ws)
      → Pieces (c ∷ s) ((c ∷ w) ∷ ws)

split-cons :
    (c : ℕ) (s : Bytes) (ws : List Bytes)
    → Pieces s ws
    → Pieces
        (c ∷ s)
        (elim ws [ [] ↦ [] | w ∷ ws' ↦ if c == b'\n' then [] ∷ w ∷ ws' else (c ∷ w) ∷ ws' ])
split-cons c s [] p = elim p [ ]
split-cons c s (w ∷ ws) p = elim (Bool-cases (c == b'\n')) [
  | inl h ↦ rw h (newline h p)
  | inr h ↦ rw h (byte h p)
]

split-Pieces : (s : Bytes) → Pieces s (split b'\n' s)
unfolding split
split-Pieces [] = end
split-Pieces (c ∷ s) = split-cons c s (split b'\n' s) (split-Pieces s)

length-reverse_onto : (s t : Bytes) → length (reverse_onto s t) ≡ length s + length t
length-reverse_onto [] t = omega arith
length-reverse_onto (c ∷ s) t = omega (arith, length-reverse_onto s (c ∷ t))

length-reversed : (s : Bytes) → length (reversed s) ≡ length s
length-reversed s = omega (arith, length-reverse_onto s [])

leb_iff : (a b : ℕ) → (leb a b ≡ true) ↔ (a ≤ b)
leb_iff a b = ground arith

not-leb : (a b : ℕ) → leb a b ≡ false → b < a
not-leb a b h = ground arith

chomp-reverse_onto :
    (s : Bytes) (c : ℕ) (t : Bytes)
    → chomp (reverse_onto s (c ∷ t)) ≡ reverse_onto s (chomp (c ∷ t))
chomp-reverse_onto [] c t = refl
chomp-reverse_onto (d ∷ s) c t = chomp-reverse_onto s d (c ∷ t)

drop_cr-chomp : (line : Bytes) → drop_cr line ≡ chomp (reversed line)
unfolding drop_cr
drop_cr-chomp [] = refl
drop_cr-chomp (c ∷ s) = elim (Bool-cases (c == b'\r')) [
  | inl h ↦ rw (h, chomp-reverse_onto s c []) (rw h refl)
  | inr h ↦ rw (h, chomp-reverse_onto s c []) (rw h refl)
]

-- What reading the text with these pieces gives.
data Read (ws : List Bytes) : List Bytes × Bool → Type 0 where
  whole : All Fits ws → Read ws (lines_of ws, false)
  cut : {ts : List Bytes} → ¬ All Fits ws → Read ws (ts, true)

Read-cons :
    (w v : Bytes) (ws : List Bytes) (r : List Bytes × Bool)
    → Fits w
    → Read (v ∷ ws) r
    → Read (w ∷ v ∷ ws) (chomp w ∷ r.0, r.1)
Read-cons w v ws _ f (whole all) = whole (f, all)
Read-cons w v ws _ f (cut long) = cut (λ h. long h.1)

too_long :
    (c : ℕ) (line w : Bytes) (n : ℕ)
    → n ≡ length line
    → max_token ≤ n + 1
    → ¬ Fits (reverse_onto line (c ∷ w))
too_long c line w n e full h = omega (arith, length-reverse_onto line (c ∷ w), e, full, h)

read_lines-Read :
    {s : Bytes} {w : Bytes} {ws : List Bytes}
    → Pieces s (w ∷ ws)
    → (line : Bytes) (n : ℕ) → n ≡ length line
    → n < max_token
    → Read (reverse_onto line w ∷ ws) (read_lines line n s)
unfolding read_lines
read_lines-Read end line n e fits =
    subst (λ r. Read (reversed line ∷ []) (r, false))
      (rw (length-reversed line, drop_cr-chomp line, e) refl)
      (whole (omega (arith, length-reverse_onto line [], e, fits), tt))
read_lines-Read {s = c ∷ s} (newline {w = w} {ws = ws} h p) line n e fits =
    rw (h, read_lines)
      (rw (drop_cr-chomp line) (
        Read-cons (reversed line) w ws _ (omega (arith, length-reverse_onto line [], e, fits))
          (read_lines-Read p [] 0 refl (omega arith))))
read_lines-Read {s = c ∷ s} (byte {w = w} {ws = ws} h p) line n e fits =
    elim (Bool-cases (leb max_token (n + 1))) [
      | inl full ↦
          rw (h, full, read_lines)
            (cut (λ h. too_long _ line w n e ((leb_iff max_token (n + 1)).0 full) h.0))
      | inr room ↦
          rw (h, room, read_lines)
            (read_lines-Read p (c ∷ line) (n + 1) (omega (arith, e))
              (not-leb max_token (n + 1) room))
    ]

-- How the scanner reads a body: either every piece between its newlines is shorter than the buffer,
-- and the lines are these pieces, in order, each without a carriage return at its end, and there is
-- no error; or some piece is not, and the scanner stops with its error.
pub data Scanned (body : Bytes) : List Bytes → Option ParseError → Type 0 where
  all_lines : All Fits (split b'\n' body) → Scanned body (lines_of (split b'\n' body)) none
  stopped :
      {ts : List Bytes} → ¬ All Fits (split b'\n' body) → Scanned body ts (some token_too_long)

Scanned-Read :
    (body : Bytes) (ws : List Bytes) (r : List Bytes × Bool)
    → split b'\n' body ≡ ws
    → Read ws r
    → Scanned body r.0 (if r.1 then some token_too_long else none)
Scanned-Read body ws _ e (whole all) =
    subst (λ vs. Scanned body (lines_of vs) none) e (all_lines (subst (All Fits) (sym e) all))
Scanned-Read body ws _ e (cut long) = stopped (λ h. long (subst (All Fits) e h))

read_pieces : (s : Bytes) (ws : List Bytes) → Pieces s ws → Read ws (read_lines [] 0 s)
read_pieces s [] p = elim p [ ]
read_pieces s (w ∷ ws) p = read_lines-Read p [] 0 refl (omega arith)

-- The lines of a body are the pieces between its newlines, in order, each without a carriage return
-- at its end, and there is no error, if every piece is shorter than the buffer. If some piece is not,
-- the scanner stops with the error of a token too long.
pub scan-Scanned : (body : Bytes) → Scanned body (lines body) (scan_error body)
unfolding lines scan_error
scan-Scanned body =
    Scanned-Read body (split b'\n' body) (read_lines [] 0 body) refl
      (read_pieces body (split b'\n' body) (split-Pieces body))
