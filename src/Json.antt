-- ===== src/Json.antt =====
-- Values of JSON, as encoding/json reads them for the structs of internal/parser. The scanner is in
-- Json/Scan, the text of strings in Json/Text, the reading of struct fields
-- in Json/Decode, and the writing of strings in Json/Quote.
pub mod Value
pub mod Text
pub mod Scan
pub mod Decode
pub mod Quote
pub mod Unmarshal
pub mod Pieces
pub mod Extended
