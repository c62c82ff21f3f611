-- ===== src/Tests/Wire.antt =====
-- The wire format and the streams on small inputs.
use folder_buddies.Base.Bytes.{le_bytes, IsByte, Bytes}
use folder_buddies.Wire.Stream.{memory_write, memory_stream, recv_message, send_message, Memory}
use folder_buddies.Wire.{header_bytes, put_str, magic_number, MsgHeader, get_header, get_str}
use folder_buddies.Base.{sym, All, ◌++◌, arith, [], some, true, ◌∷◌, ◌≡◌, List, refl}
use folder_buddies.Wire.RoundTrip.{get_str-append, get_str_only, get_header-append}
use folder_buddies.Wire.Stream.Laws.{message, recv_message-send_message, memory_reliable}
use folder_buddies.Wire.Stream.Socket.{
  joined, IsPiece, send_loop, send_all, recv_all, socket_read, Socket, socket_write, recv_all_exact,
  socket_read-socket_write,
}

abbrev text : Bytes
text = 102 ∷ 98 ∷ []

abbrev written : Bytes
written = 2 ∷ 0 ∷ 0 ∷ 0 ∷ 102 ∷ 98 ∷ 9 ∷ []

get_str_only_example : written ≡ put_str text [] ++ (9 ∷ [])
unfolding le_bytes
get_str_only_example = get_str_only written text (9 ∷ []) bytes reads
  where
    bytes : All IsByte written
    bytes = (
      omega arith,
      (omega arith, (omega arith, (omega arith, (omega arith, (omega arith, (omega arith, tt)))))),
    )

    reads : get_str written ≡ (some text, 9 ∷ [])
    reads = get_str-append text (9 ∷ []) (omega arith)

abbrev ping : MsgHeader
ping = record { magic = magic_number; op = 1; status = 0; req_id = 5; len = 2 }

get_header-append_example : get_header (header_bytes ping ++ text) ≡ (some ping, text)
get_header-append_example = get_header-append ping text (record {
  magic = omega arith;
  op = omega arith;
  status = omega arith;
  req_id = omega arith;
  len = omega arith;
})

abbrev empty_memory : Memory
empty_memory = record { bytes = []; offset = 0 }

-- A send to the memory stream succeeds.
sent_text : (send_message memory_stream 1 0 5 text 2 empty_memory).0 ≡ true
unfolding send_message memory_stream memory_write
sent_text = refl

recv_message-send_message_example :
    (m : Memory) × (recv_message memory_stream
        (send_message memory_stream 1 0 5 text 2 empty_memory).1
      ≡ (some (message 1 0 5 text, text), m))
    × memory_reliable.Live m
    × (memory_reliable.pending m ≡ [])
unfolding memory_reliable
recv_message-send_message_example =
    recv_message-send_message memory_stream memory_reliable 1 0 5 text empty_memory (omega arith)
      refl (omega arith) (omega arith) (omega arith) (omega arith) sent_text

abbrev pieces : List Bytes
pieces = (102 ∷ []) ∷ (98 ∷ 9 ∷ []) ∷ []

recv_all_exact_example :
    (left : List Bytes) × (recv_all 2 pieces ≡ (some text, left))
    × All IsPiece left
    × (joined left ≡ 9 ∷ [])
recv_all_exact_example =
    recv_all_exact 2 text (9 ∷ []) pieces (omega arith, (omega arith, tt)) refl refl

abbrev sender : Socket
sender = record { is_open = true; arriving = []; out = []; accepts = 1 ∷ 5 ∷ []; closes = 0 }

abbrev receiver : Socket
receiver = record {
  is_open = true;
  arriving = (102 ∷ []) ∷ (98 ∷ []) ∷ [];
  out = [];
  accepts = [];
  closes = 0;
}

socket_sends : ((socket_write text sender).0 ≡ true) × ((socket_write text sender).1.out ≡ text)
unfolding socket_write send_all send_loop
socket_sends = (refl, refl)

socket_read-socket_write_example : (socket_read 2 receiver).0 ≡ some text
socket_read-socket_write_example =
    socket_read-socket_write text sender receiver refl refl refl socket_sends.0
      (omega arith, (omega arith, tt)) (sym socket_sends.1)
