-- ===== src/Net/HttpRequest.antt =====
-- src/net/http/HttpRequest.h and HttpRequest.cc: what was read of a request. A string is a list of
-- bytes.
use wethands.Prelude.{
  ℕ, Bool, true, false, not, ◌&&◌, ◌||◌, List, [], ◌∷◌, ltb, ◌==◌, if◌then◌else◌, Result, ok,
  assert, ◌>>◌,
}

-- `==` and `<` of two strings.
unfoldable pub is_equal : List ℕ → List ℕ → Bool
is_equal [] [] = true
is_equal [] (y ∷ ys) = false
is_equal (x ∷ xs) [] = false
is_equal (x ∷ xs) (y ∷ ys) = (x == y) && is_equal xs ys

unfoldable pub is_less : List ℕ → List ℕ → Bool
is_less [] [] = false
is_less [] (y ∷ ys) = true
is_less (x ∷ xs) [] = false
is_less (x ∷ xs) (y ∷ ys) = ltb x y || (x == y) && is_less xs ys

-- `std::map<std::string, std::string>`, in the order of its keys.
abbrev pub Headers : Type 0
Headers = List (List ℕ × List ℕ)

-- `headers_[key] = value`.
unfoldable pub set_header : Headers → List ℕ → List ℕ → Headers
set_header [] key value = (key, value) ∷ []
set_header ((k, v) ∷ headers) key value =
    let rest = set_header headers key value in
    if is_less key k
    then (key, value) ∷ (k, v) ∷ headers
    else if is_less k key
    then (k, v) ∷ rest
    else (key, value) ∷ headers

-- `find`, with the empty string for a key that is not there.
unfoldable pub find_header : Headers → List ℕ → List ℕ
find_header [] key = []
find_header ((k, v) ∷ headers) key =
    let rest = find_header headers key in if is_equal k key then v else rest

pub data Method : Type 0 where
  invalid_method get_method post_method head_method put_method delete_method : Method

pub data Version : Type 0 where
  unknown_version http_10 http_11 : Version

abbrev pub is_invalid : Method → Bool
is_invalid invalid_method = true
is_invalid _ = false

abbrev pub is_unknown : Version → Bool
is_unknown unknown_version = true
is_unknown _ = false

-- "HTTP/1.0" and "HTTP/1.1".
abbrev pub http_10_name : List ℕ
http_10_name = 72 ∷ 84 ∷ 84 ∷ 80 ∷ 47 ∷ 49 ∷ 46 ∷ 48 ∷ []

abbrev pub http_11_name : List ℕ
http_11_name = 72 ∷ 84 ∷ 84 ∷ 80 ∷ 47 ∷ 49 ∷ 46 ∷ 49 ∷ []

-- "GET", "POST", "HEAD", "PUT" and "DELETE".
abbrev pub method_of : List ℕ → Method
method_of m =
    if is_equal m (71 ∷ 69 ∷ 84 ∷ [])
    then get_method
    else if is_equal m (80 ∷ 79 ∷ 83 ∷ 84 ∷ [])
    then post_method
    else if is_equal m (72 ∷ 69 ∷ 65 ∷ 68 ∷ [])
    then head_method
    else if is_equal m (80 ∷ 85 ∷ 84 ∷ [])
    then put_method
    else if is_equal m (68 ∷ 69 ∷ 76 ∷ 69 ∷ 84 ∷ 69 ∷ [])
    then delete_method
    else invalid_method

abbrev pub version_of : List ℕ → Version
version_of v =
    if is_equal v http_10_name
    then http_10
    else if is_equal v http_11_name
    then http_11
    else unknown_version

pub record HttpRequest : Type 0 where
  pub method : Method
  pub version : Version
  pub path : List ℕ
  pub query : List ℕ
  pub body : List ℕ
  pub receive_time : ℕ
  pub headers : Headers

abbrev pub new_http_request : HttpRequest
new_http_request = record {
  method = invalid_method;
  version = unknown_version;
  path = [];
  query = [];
  body = [];
  receive_time = 0;
  headers = [];
}

-- The result is `version_ == kUnknown`, as in the source.
unfoldable pub set_version : HttpRequest → List ℕ → Result (Bool × HttpRequest)
set_version r v = do
  assert (is_unknown r.version)
  ok (is_unknown (version_of v), record r { version = version_of v })

unfoldable pub set_method : HttpRequest → List ℕ → Result (Bool × HttpRequest)
set_method r m = do
  assert (is_invalid r.method)
  ok (not (is_invalid (method_of m)), record r { method = method_of m })

unfoldable pub add_header : HttpRequest → List ℕ → List ℕ → HttpRequest
add_header r key value = record r { headers = set_header r.headers key value }

unfoldable pub get_header : HttpRequest → List ℕ → List ℕ
get_header r field_ = find_header r.headers field_
