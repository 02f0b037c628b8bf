-- ===== src/Parser/Types.antt =====
-- internal/parser/types.go, and the errors of the parsers.
use codesteward_audit_proxy.Base.{List, [], ◌∷◌, ◌++◌, ◌≡◌, refl, sym, append-nil}
use codesteward_audit_proxy.Base.Bytes.{Bytes, codes}
use codesteward_audit_proxy.Base.Int.{ℤ, pos}

pub record ToolCall : Type 0 where
  pub name : Bytes
  pub input : Bytes

pub record TokenUsage : Type 0 where
  pub input_tokens : ℤ
  pub output_tokens : ℤ
  pub cache_read_tokens : ℤ
  pub cache_write_tokens : ℤ

abbrev pub no_usage : TokenUsage
no_usage = record {
  input_tokens = pos 0;
  output_tokens = pos 0;
  cache_read_tokens = pos 0;
  cache_write_tokens = pos 0;
}

-- An error of json.Unmarshal on a body, wrapped with a prefix; and bufio.ErrTooLong.
pub data ParseError : Type 0 where
  full_parse : Bytes → Bytes → ParseError
  token_too_long : ParseError

-- What a text or a tool input adds to a list: nothing if it is empty.
abbrev pub add_text : List Bytes → Bytes → List Bytes
add_text texts [] = texts
add_text texts (c ∷ s) = texts ++ (c ∷ s) ∷ []

-- An empty tool input is stored as an empty object.
abbrev pub or_empty_object : Bytes → Bytes
or_empty_object [] = codes "{}"
or_empty_object (c ∷ s) = c ∷ s

pub add_text-append : (texts : List Bytes) (t : Bytes) → add_text texts t ≡ texts ++ add_text [] t
add_text-append texts [] = sym (append-nil texts)
add_text-append texts (c ∷ t) = refl
