-- ===== src/Json/Unmarshal.antt =====
-- json.Unmarshal on the bytes of a document.
use codesteward_audit_proxy.Base.{◌≤◌, true, Option, ◌++◌, ◌≡◌, ap, ◌>>=◌, All}
use codesteward_audit_proxy.Base.Bytes.{Bytes}
use codesteward_audit_proxy.Json.Value.{Value}
use codesteward_audit_proxy.Json.Scan.{space, max_depth}
use codesteward_audit_proxy.Json.Scan.Grammar.{Document, write, meaning, depth}
use codesteward_audit_proxy.Json.Scan.Documents.{scan-write}
use codesteward_audit_proxy.Json.Decode.{unmarshal}

pub unmarshal-write {ℓ} :
    {A : Type ℓ} (decode : Value → A → Option A) (fresh : A) (d : Document) (rest : Bytes)
    → depth d ≤ max_depth
    → All (λ c. space c ≡ true) rest
    → unmarshal decode fresh (write d ++ rest) ≡ decode (meaning d) fresh
unfolding unmarshal
unmarshal-write decode fresh d rest deep spaces =
    ap (λ v. v >>= λ x. decode x fresh) (scan-write d rest deep spaces)
