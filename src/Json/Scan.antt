-- ===== src/Json/Scan.antt =====
-- The scanner of encoding/json: one byte at a time, with a stack of the open arrays and objects,
-- and with the value built as it goes. It ends on every input, since it recurs on the bytes.
pub mod Grammar
pub mod Tokens
pub mod Slices
pub mod Brackets
pub mod Reach
pub mod Arrays
pub mod Objects
pub mod Documents
pub mod Quoted
use codesteward_audit_proxy.Base.{
  ℕ, zero, suc, ◌+◌, ◌-◌, Bool, true, false, ◌||◌, Option, none, some, List, [], ◌∷◌, ◌++◌, ltb,
  within, ◌==◌, if◌then◌else◌, ◌≡◌, refl, take, drop, length, reversed, ◌>>=◌,
}
use codesteward_audit_proxy.Base.Bytes.{Bytes, codes}
use codesteward_audit_proxy.Json.Value.{
  Value, Items, Members, null, bool, number, string, array, object, no_items, item, no_members,
  member,
}
use codesteward_audit_proxy.Json.Text.{unquote}

pub data Number : Type 0 where
  minus leading_zero digits dot fraction exponent exponent_sign exponent_digits : Number

pub data Mode : Type 0 where
  value value_or_end key_or_end key colon after : Mode
  text text_escape : Mode
  text_hex : ℕ → Mode
  in_number : Number → Mode
  in_literal : Bytes → Value → Mode

-- What is open: the items so far, newest first; or the members so far, a key and where its value
-- begins.
pub data Frame : Type 0 where
  in_array : List Value → Frame
  in_object : List (Bytes × Bytes × Value) → Bytes → ℕ → Frame

pub record Scanner : Type 0 where
  pub body : Bytes
  pub position : ℕ
  pub mode : Mode
  pub is_key : Bool
  pub token : Bytes
  pub stack : List Frame
  pub result : Option Value

-- maxNestingDepth
abbrev pub max_depth : ℕ
max_depth = 10000

abbrev pub space : ℕ → Bool
space c = (c == b' ') || (c == b'\t') || (c == b'\r') || (c == b'\n')

abbrev digit : ℕ → Bool
digit = within b'0' b'9'

abbrev hexadecimal : ℕ → Bool
hexadecimal c = digit c || within b'a' b'f' c || within b'A' b'F' c

pub items_of : List Value → Items
items_of [] = no_items
items_of (v ∷ vs) = item v (items_of vs)

pub members_of : List (Bytes × Bytes × Value) → Members
members_of [] = no_members
members_of ((k, raw, v) ∷ ms) = member k raw v (members_of ms)

-- The value `v` ends before position `e`.
pub complete : Scanner → Value → ℕ → List Frame → Scanner
complete s v e [] = record s { mode = after; result = some v }
complete s v e (in_array vs ∷ fs) = record s { mode = after; stack = in_array (v ∷ vs) ∷ fs }
complete s v e (in_object ms k b ∷ fs) = record s {
  mode = after;
  stack = in_object ((k, take (e - b) (drop b s.body), v) ∷ ms) k b ∷ fs;
}

abbrev push : Scanner → Frame → Mode → Option Scanner
push s f m =
    if ltb (length s.stack) max_depth
    then some (record s { mode = m; stack = f ∷ s.stack })
    else none

-- The first byte of a value, at the scanner's position.
pub begin_value : Scanner → ℕ → Option Scanner
begin_value s c =
    if c == b'{'
    then push s (in_object [] [] 0) key_or_end
    else if c == b'['
    then push s (in_array []) value_or_end
    else if c == b'"'
    then some (record s { mode = text; is_key = false; token = [] })
    else if c == b'-'
    then some (record s { mode = in_number minus; token = c ∷ [] })
    else if c == b'0'
    then some (record s { mode = in_number leading_zero; token = c ∷ [] })
    else if within b'1' b'9' c
    then some (record s { mode = in_number digits; token = c ∷ [] })
    else if c == b't'
    then some (record s { mode = in_literal (codes "rue") (bool true) })
    else if c == b'f'
    then some (record s { mode = in_literal (codes "alse") (bool false) })
    else if c == b'n'
    then some (record s { mode = in_literal (codes "ull") null })
    else none

-- An object's frame learns where the value of its key begins.
mark_start : Scanner → List Frame → Scanner
mark_start s (in_object ms k b ∷ fs) = record s { stack = in_object ms k s.position ∷ fs }
mark_start s fs = s

pop : Scanner → List Frame → ℕ → Option Scanner
unfolding complete items_of members_of
pop s (in_array vs ∷ fs) c =
    if c == b']'
    then some
        (complete (record s { stack = fs }) (array (items_of (reversed vs))) (s.position + 1) fs)
    else none
pop s (in_object ms k b ∷ fs) c =
    if c == b'}'
    then some
        (complete (record s { stack = fs }) (object (members_of (reversed ms))) (s.position + 1) fs)
    else none
pop s [] c = none

-- Behind a complete value.
end_value : Scanner → List Frame → ℕ → Option Scanner
unfolding pop
end_value s [] c = none
end_value s (in_array vs ∷ fs) c =
    if c == b',' then some (record s { mode = value }) else pop s (in_array vs ∷ fs) c
end_value s (in_object ms k b ∷ fs) c =
    if c == b',' then some (record s { mode = key }) else pop s (in_object ms k b ∷ fs) c

-- The closing quote.
end_text : Scanner → Bool → List Frame → Option Scanner
unfolding complete unquote
end_text s true (in_object ms k b ∷ fs) =
    some (record s { mode = colon; stack = in_object ms (unquote (reversed s.token)) b ∷ fs })
end_text s true fs = none
end_text s false fs = some (complete s (string (unquote (reversed s.token))) (s.position + 1) fs)

-- The next state of a number, or `none` where the byte is not part of it.
unfoldable pub next_number : Number → ℕ → Option Number
next_number minus c = if c == b'0' then some leading_zero else if digit c then some digits else none
next_number leading_zero c =
    if c == b'.' then some dot else if (c == b'e') || (c == b'E') then some exponent else none
next_number digits c =
    if digit c
    then some digits
    else if c == b'.'
    then some dot
    else if (c == b'e') || (c == b'E')
    then some exponent
    else none
next_number dot c = if digit c then some fraction else none
next_number fraction c =
    if digit c then some fraction else if (c == b'e') || (c == b'E') then some exponent else none
next_number exponent c =
    if (c == b'+') || (c == b'-')
    then some exponent_sign
    else if digit c
    then some exponent_digits
    else none
next_number exponent_sign c = if digit c then some exponent_digits else none
next_number exponent_digits c = if digit c then some exponent_digits else none

-- Whether a number may end in the state.
unfoldable pub may_end : Number → Bool
may_end leading_zero = true
may_end digits = true
may_end fraction = true
may_end exponent_digits = true
may_end _ = false

abbrev keep_byte : Scanner → ℕ → Mode → Option Scanner
keep_byte s c m = some (record s { mode = m; token = c ∷ s.token })

-- The byte behind a number.
end_number : Scanner → ℕ → Option Scanner
unfolding end_value
end_number s c = if space c then some s else end_value s s.stack c

step_number : Scanner → Number → ℕ → Option Scanner
unfolding next_number may_end complete end_number
step_number s n c = elim (next_number n c) [
  | some n' ↦ keep_byte s c (in_number n')
  | none ↦
      if may_end n
      then end_number (complete s (number (reversed s.token)) s.position s.stack) c
      else none
]

-- The bytes that may stand behind a backslash, other than `u`.
pub mem_escape : ℕ → Bool
mem_escape d =
    (d == b'b')
    || (d == b'f')
    || (d == b'n')
    || (d == b'r')
    || (d == b't')
    || (d == b'\\')
    || (d == b'/')
    || (d == b'"')

step_mode : Mode → Scanner → ℕ → Option Scanner
unfolding begin_value mark_start pop end_value end_text step_number complete mem_escape
step_mode value s c = if space c then some s else begin_value (mark_start s s.stack) c
step_mode value_or_end s c =
    if space c then some s else if c == b']' then pop s s.stack c else begin_value s c
step_mode key_or_end s c =
    if space c
    then some s
    else if c == b'}'
    then pop s s.stack c
    else if c == b'"'
    then some (record s { mode = text; is_key = true; token = [] })
    else none
step_mode key s c =
    if space c
    then some s
    else if c == b'"'
    then some (record s { mode = text; is_key = true; token = [] })
    else none
step_mode colon s c =
    if space c then some s else if c == b':' then some (record s { mode = value }) else none
step_mode after s c = if space c then some s else end_value s s.stack c
step_mode text s c =
    if c == b'"'
    then end_text s s.is_key s.stack
    else if ltb c 0x20
    then none
    else keep_byte s c (if c == b'\\' then text_escape else text)
step_mode text_escape s c =
    if c == b'u'
    then keep_byte s c (text_hex 3)
    else if mem_escape c
    then keep_byte s c text
    else none
step_mode (text_hex zero) s c = if hexadecimal c then keep_byte s c text else none
step_mode (text_hex (suc n)) s c = if hexadecimal c then keep_byte s c (text_hex n) else none
step_mode (in_number n) s c = step_number s n c
step_mode (in_literal [] v) s c = none
step_mode (in_literal (d ∷ []) v) s c =
    if c == d then some (complete s v (s.position + 1) s.stack) else none
step_mode (in_literal (d ∷ e ∷ ds) v) s c =
    if c == d then some (record s { mode = in_literal (e ∷ ds) v }) else none

step : Scanner → ℕ → Option Scanner
unfolding step_mode
step s c = step_mode s.mode s c >>= λ s'. some (record s' { position = s'.position + 1 })

pub run : Scanner → Bytes → Option Scanner
unfolding step
run s [] = some s
run s (c ∷ cs) = step s c >>= λ s'. run s' cs

-- The end of the input is read as one more space, which ends a number.
unfoldable pub scan : Bytes → Option Value
unfolding run
scan body = run start (body ++ b' ' ∷ []) >>= λ s. s.result
  where
    start : Scanner
    start = record {
      body = body;
      position = 0;
      mode = value;
      is_key = false;
      token = [];
      stack = [];
      result = none;
    }

small :
    scan (codes " {\"a\" : [1, -2.5e3 ,true], \"b\":{}}")
    ≡ some (
        object (
          member
            (codes "a")
            (codes "[1, -2.5e3 ,true]")
            (array (
              item
                (number (codes "1"))
                (item (number (codes "-2.5e3")) (item (bool true) no_items))))
            (member (codes "b") (codes "{}") (object no_members) no_members)))
unfolding scan
small = refl

refused :
    (scan (codes "[1,]") ≡ none)
    × (scan (codes "{\"a\" 1}") ≡ none)
    × (scan (codes "01") ≡ none)
    × (scan (codes "") ≡ none)
    × (scan (codes "1 2") ≡ none)
    × (scan (codes "[1") ≡ none)
unfolding scan
refused = (refl, refl, refl, refl, refl, refl)
