-- ===== src/Routing/Method.antt =====
-- crates/dart_edge_http_server_core/src/lib.rs: the HTTP method codes and names.
use dart_edge.Base.{ℕ, ◌≡◌, ◌↔◌, refl, Option, none, some, arith, if◌then◌else◌, ◌==◌}
use dart_edge.Base.Keys.{bytes_beq, bytes_beq_sound}
use dart_edge.Text.Bytes.{Str, text}

pub data NativeHttpMethod : Type 0 where
  get post put patch delete head options : NativeHttpMethod

unfoldable pub method_code : NativeHttpMethod → ℕ
method_code get = 0
method_code post = 1
method_code put = 2
method_code patch = 3
method_code delete = 4
method_code head = 5
method_code options = 6

unfoldable pub from_code : ℕ → Option NativeHttpMethod
from_code n =
    if n == 0
    then some get
    else if n == 1
    then some post
    else if n == 2
    then some put
    else if n == 3
    then some patch
    else if n == 4
    then some delete
    else if n == 5
    then some head
    else if n == 6
    then some options
    else none

unfoldable pub method_name : NativeHttpMethod → Str
method_name get = text "GET"
method_name post = text "POST"
method_name put = text "PUT"
method_name patch = text "PATCH"
method_name delete = text "DELETE"
method_name head = text "HEAD"
method_name options = text "OPTIONS"

unfoldable pub from_name : Str → Option NativeHttpMethod
from_name s =
    if bytes_beq s (text "GET")
    then some get
    else if bytes_beq s (text "POST")
    then some post
    else if bytes_beq s (text "PUT")
    then some put
    else if bytes_beq s (text "PATCH")
    then some patch
    else if bytes_beq s (text "DELETE")
    then some delete
    else if bytes_beq s (text "HEAD")
    then some head
    else if bytes_beq s (text "OPTIONS")
    then some options
    else none

unfoldable pub from_openapi_name : Str → Option NativeHttpMethod
from_openapi_name s =
    if bytes_beq s (text "get")
    then some get
    else if bytes_beq s (text "post")
    then some post
    else if bytes_beq s (text "put")
    then some put
    else if bytes_beq s (text "patch")
    then some patch
    else if bytes_beq s (text "delete")
    then some delete
    else if bytes_beq s (text "head")
    then some head
    else if bytes_beq s (text "options")
    then some options
    else none

from_code-method_code : (m : NativeHttpMethod) → from_code (method_code m) ≡ some m
unfolding from_code method_code
from_code-method_code get = refl
from_code-method_code _ = refl

from_name-method_name : (m : NativeHttpMethod) → from_name (method_name m) ≡ some m
unfolding from_name method_name text bytes_beq
from_name-method_name get = refl
from_name-method_name _ = refl

method_code_of_from_code : (n : ℕ) (m : NativeHttpMethod) → from_code n ≡ some m → method_code m ≡ n
unfolding from_code method_code
method_code_of_from_code n m h = ground arith

method_name_of_from_name :
    (s : Str) (m : NativeHttpMethod) → from_name s ≡ some m → method_name m ≡ s
unfolding from_name method_name
method_name_of_from_name s m h = ground (
  arith,
  bytes_beq_sound s (text "GET"),
  bytes_beq_sound s (text "POST"),
  bytes_beq_sound s (text "PUT"),
  bytes_beq_sound s (text "PATCH"),
  bytes_beq_sound s (text "DELETE"),
  bytes_beq_sound s (text "HEAD"),
  bytes_beq_sound s (text "OPTIONS"),
)

-- A method has exactly one code and exactly one name: the decoders answer with it there and only
-- there.
pub method_decoders :
    (m : NativeHttpMethod) (n : ℕ) (s : Str)
    → ((from_code n ≡ some m) ↔ (method_code m ≡ n))
      × ((from_name s ≡ some m) ↔ (method_name m ≡ s))
method_decoders m n s = (
  (method_code_of_from_code n m, λ e. rw (← e) (from_code-method_code m)),
  (method_name_of_from_name s m, λ e. rw (← e) (from_name-method_name m)),
)
