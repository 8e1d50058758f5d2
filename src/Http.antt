-- ===== src/Http.antt =====
-- The request headers and methods that the hub's handlers read (`axum::http`). A header value that
-- is not visible ASCII is `opaque`: `HeaderValue::to_str` fails on it.
use oxde.Prelude.{String, Option, none, some, Map}

pub data HeaderValue : Type 0 where
  text : String → HeaderValue
  opaque : HeaderValue

-- by the lower-case name; the first value, where a name is repeated
abbrev pub HeaderMap : Type 0
HeaderMap = Map String HeaderValue

abbrev to_str : Option HeaderValue → Option String
to_str none = none
to_str (some opaque) = none
to_str (some (text s)) = some s

-- `headers.get(name)?.to_str().ok()`
abbrev pub header_text : HeaderMap → String → Option String
header_text headers name = to_str (headers name)

pub data Method : Type 0 where
  get head options post put patch delete : Method
  extension : String → Method
