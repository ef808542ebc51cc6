-- ===== src/Net/HttpServer/Tests.antt =====
-- A request that arrives in one piece and is answered.
use wethands.Prelude.{ℕ, true, false, List, [], ◌∷◌, ◌++◌, replicate}
use wethands.Net.TcpConnection.{TcpConnection, connected, WriteResult, wrote}
use wethands.Net.HttpRequest.{HttpRequest}
use wethands.Net.HttpResponse.{HttpResponse}

abbrev get_name : List ℕ
get_name = 71 ∷ 69 ∷ 84 ∷ []

-- "ok" with the body "hi", and the connection is closed.
abbrev callback : HttpRequest → HttpResponse → HttpResponse
callback req response = record response {
  status_code = 200;
  status_message = 111 ∷ 107 ∷ [];
  close_connection = true;
  body = 104 ∷ 105 ∷ [];
}

-- A connection with "GET\r\n\r\nA" in its input buffer, over a kernel that takes one byte of a write.
abbrev asking : TcpConnection
asking = record {
  state = connected;
  reading = true;
  socket_channel = record { registered_to_poller = true; events = 1; revents = 0 };
  input_buffer = record {
    buffer = replicate 8 0 ++ 71 ∷ 69 ∷ 84 ∷ 13 ∷ 10 ∷ 13 ∷ 10 ∷ 65 ∷ [];
    read_index = 8;
    write_index = 16;
  };
  output_buffer = record { buffer = replicate 16 0; read_index = 8; write_index = 8 };
  high_water_mark = 64;
  has_connection_callback = true;
  has_write_complete_callback = false;
  has_message_callback = true;
  has_high_water_mark_callback = false;
  has_close_callback = true;
  sent = [];
  write_shut = false;
  pending = [];
  log = [];
}

one : List ℕ → WriteResult
one [] = wrote 0
one (x ∷ xs) = wrote 1
