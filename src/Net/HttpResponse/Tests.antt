-- ===== src/Net/HttpResponse/Tests.antt =====
-- Responses at concrete inputs.
use wethands.Prelude.{◌≡◌, refl, arith, false, [], ◌∷◌, replicate, length}
use wethands.Net.Buffer.{Buffer}
use wethands.Net.Buffer.Laws.{IsValid}
use wethands.Prelude.Decimal.{digits}
use wethands.Net.HttpResponse.{HttpResponse, status_line, length_line}
use wethands.Net.HttpResponse.Render.{render, render_headers, render_connection}

-- "X: y" and the body "hi", with status 200.
abbrev response : HttpResponse
response = record {
  status_code = 200;
  status_message = 111 ∷ 107 ∷ [];
  close_connection = false;
  headers = (88 ∷ [], 121 ∷ []) ∷ [];
  body = 104 ∷ 105 ∷ [];
}

abbrev output : Buffer
output = record { buffer = replicate 16 0; read_index = 8; write_index = 8 }

output-IsValid : IsValid output
output-IsValid = record {
  ordered = omega arith;
  within = omega arith;
  room = omega arith;
  small = omega arith;
}

length-render : length (render response) ≡ 70
unfolding render render_headers render_connection status_line length_line digits
length-render = refl
