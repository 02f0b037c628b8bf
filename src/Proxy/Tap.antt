-- ===== src/Proxy/Tap.antt =====
-- internal/proxy/stream.go. The body arrives in the pieces that the upstream sends. The tee writes
-- every piece into a pipe before the caller gets it, and the goroutine's io.ReadAll takes what is
-- written, so the two see the same bytes; Close ends the pipe, and the goroutine then runs once.
pub mod Laws
use codesteward_audit_proxy.Base.{Bool, true, false, List, [], ◌∷◌, ◌++◌, if◌then◌else◌}
use codesteward_audit_proxy.Base.Bytes.{Bytes, codes, contains}
use codesteward_audit_proxy.Proxy.Http.{header_get, Header}

pub record TapReadCloser : Type 0 where
  pub incoming : List Bytes
  pub forwarded : Bytes
  pub piped : Bytes
  pub closed : Bool
  pub completed : List (Bytes × Bool)
  pub is_stream : Bool

-- TapBody, on the response's header and the pieces of its body
unfoldable pub tap_body : Header → List Bytes → TapReadCloser
unfolding contains header_get
tap_body header pieces = record {
  incoming = pieces;
  forwarded = [];
  piped = [];
  closed = false;
  completed = [];
  is_stream = contains (header_get header "Content-Type") (codes "text/event-stream");
}

-- What the caller does with the body.
pub data Use : Type 0 where
  reads closes : Use

tee : TapReadCloser → List Bytes → TapReadCloser
tee t [] = t
tee t (p ∷ ps) = record t { incoming = ps; forwarded = t.forwarded ++ p; piped = t.piped ++ p }

-- Read: behind Close the pipe refuses the piece, and the caller gets an error.
unfoldable pub read : TapReadCloser → TapReadCloser
unfolding tee
read t = if t.closed then t else tee t t.incoming

-- Close: the first one lets io.ReadAll return, and onComplete gets the piped bytes.
unfoldable pub close : TapReadCloser → TapReadCloser
close t =
    if t.closed
    then t
    else record t { closed = true; completed = t.completed ++ (t.piped, t.is_stream) ∷ [] }

unfoldable pub use_body : TapReadCloser → List Use → TapReadCloser
unfolding read close
use_body t [] = t
use_body t (reads ∷ us) = use_body (read t) us
use_body t (closes ∷ us) = use_body (close t) us
