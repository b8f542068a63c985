-- ===== src/WebSocketStream/Examples.antt =====
-- A client with one stream, and the theorems applied to it.
use sortie.WebSocketStream.Echo.Pieces.{on_response_data-append}
use sortie.WebSocketStream.Echo.Sent.{send_message-echoed}
use sortie.WebSocket.Decoder.{decode_rest, header, decode_known, decode_one, feed}
use sortie.WebSocketStream.Echo.{message_frame}
use sortie.Prelude.{
  same_bytes, zero, suc, ℕ, ◌+◌, ◌-◌, ◌≡◌, refl, true, false, Option, none, some, List, [], ◌∷◌,
  ◌++◌, arith,
}
use sortie.WebSocketStream.Ledger.History.{request_came, headers_came, no_step, one_more}
use sortie.WebSocketStream.Ledger.Ending.{life-Balanced, Balanced}
use sortie.Prelude.Hex.{Hex, ReadsBack}
use sortie.RateLimiter.{outcome_or}
use sortie.WebSocket.{Key, known, encode_frame}
use sortie.WebSocket.Decoder.RoundTrip.{CanEncode}
use sortie.WebSocketStream.{
  pool_ready, stream_open, Network, Upgrade, Client, InflightMessage, no_stream, no_counts,
  awaits_nothing, stream_at, websocket_stream_client,
}
use sortie.WebSocketStream.Streams.{Response, on_response_headers}
use sortie.WebSocketStream.Messages.{on_response_data, send_message, try_start_request}
use sortie.WebSocketStream.Life.{prepare, terminate}

-- The two functions of absl on numbers below ten: fifteen zeros and a digit.
abbrev zeros : ℕ → List ℕ → List ℕ
zeros zero digits = digits
zeros (suc n) digits = 48 ∷ zeros n digits

abbrev last_digit : List ℕ → Option ℕ
last_digit [] = none
last_digit (x ∷ []) = some (x - 48)
last_digit (x ∷ rest) = last_digit rest

abbrev small_hex : Hex
small_hex = record { format_016x = λ n. zeros 15 ((48 + n) ∷ []); hex_atoi = last_digit }

abbrev ready_network : Network
ready_network = record {
  has_pool = λ c i. true;
  new_key = λ c i. 5 ∷ [];
  pool_raises = λ c i. some pool_ready;
  encodes_headers = λ c i. true;
  mask = λ c i. record { k0 = 1; k1 = 2; k2 = 3; k3 = 4 };
  write_blocks = λ c i. false;
}

-- Values are compared as they are, Connection has one token, and a key accepts itself.
abbrev plain : Upgrade
plain = record {
  equals_ignore_case = same_bytes;
  strip_ascii_whitespace = λ s. s;
  split_commas = λ s. s ∷ [];
  upgrade_value = 1 ∷ [];
  websocket_value = 2 ∷ [];
  accept_key = λ k. k;
}

abbrev switching : Response
switching = record {
  status = 101;
  upgrade = some (2 ∷ []);
  connection = some (1 ∷ []);
  accept = (5 ∷ []) ∷ [];
}

abbrev no_client : Client
no_client = record {
  message_latency_statistic = [];
  stream_count = 0;
  max_inflight_per_stream = 0;
  drain_duration = 0;
  open_timeout = 0;
  binary = false;
  counters = no_counts;
  streams = [];
  message = [];
  next_sequence = 0;
  next_stream = 0;
  pending_opens = 0;
  measure_latencies = false;
  waiting_for = awaits_nothing;
  wait_timer = none;
  finished = false;
  completed = [];
  posted = [];
  exits = false;
  written = [];
  handshakes = [];
  cancelled = [];
}

abbrev fresh : Client
unfolding websocket_stream_client
fresh = outcome_or no_client (websocket_stream_client 1 2 1_000_000 30 false)

-- While it waits in prepare(), the server switches protocols.
abbrev upgrade_comes : Client → Client
upgrade_comes d = on_response_headers plain 0 switching false d

abbrev ready : Client
unfolding prepare
ready = outcome_or no_client (prepare ready_network upgrade_comes (some (7 ∷ [])) fresh)

-- Three messages, of which the third is deferred.
abbrev used : Client
used = try_start_request ready_network small_hex 300 12 (
    try_start_request ready_network small_hex 200 11
      (try_start_request ready_network small_hex 100 10 ready))

life-Balanced_example : Balanced (12 ∷ 11 ∷ 10 ∷ []) (terminate ready_network (λ d. d) used)
unfolding websocket_stream_client prepare
life-Balanced_example =
    life-Balanced ready_network plain small_hex upgrade_comes (λ d. d) 1 2 1_000_000 30
      (12 ∷ 11 ∷ 10 ∷ []) false (some (7 ∷ [])) fresh ready used
      (λ d. one_more (no_step d) (headers_came 0 switching false d)) (λ d. no_step d) refl refl
      (one_more
        (one_more (one_more (no_step ready) (request_came 100 10 ready))
          (request_came 200 11 (try_start_request ready_network small_hex 100 10 ready)))
        (request_came 300 12 (
          try_start_request ready_network small_hex 200 11
            (try_start_request ready_network small_hex 100 10 ready))))

-- A message is in flight on the stream, and its second comes next.
abbrev first : InflightMessage
first = record { sequence = 0; sent_at = 100; completion_callback = 10 }

abbrev busy : Client
busy = record no_client {
  stream_count = 1;
  max_inflight_per_stream = 2;
  streams = record no_stream { state = stream_open; encoder = true; inflight = first ∷ [] } ∷ [];
  message = 7 ∷ [];
  next_sequence = 1;
  measure_latencies = true;
}

reads_one : ReadsBack small_hex 1
reads_one = record { digits = refl; reads = refl }

one-CanEncode : CanEncode (message_frame small_hex 1 busy)
one-CanEncode = record {
  bytes = (
    omega arith,
    (
      omega arith,
      (
        omega arith,
        (
          omega arith,
          (
            omega arith,
            (
              omega arith,
              (
                omega arith,
                (
                  omega arith,
                  (
                    omega arith,
                    (
                      omega arith,
                      (
                        omega arith,
                        (
                          omega arith,
                          (
                            omega arith,
                            (omega arith, (omega arith, (omega arith, (omega arith, tt)))),
                          ),
                        ),
                      ),
                    ),
                  ),
                ),
              ),
            ),
          ),
        ),
      ),
    ),
  );
  small = omega arith;
  control_fin = λ h. refl;
  control_size = λ h. omega arith;
}

send_message-echoed_example :
    let echo = encode_frame none (message_frame small_hex 1 busy) in
    let d =
      on_response_data ready_network small_hex 900 0 echo false
        (send_message ready_network small_hex 500 0 11 busy) in
    (d.completed ≡ (11, true) ∷ [])
    × ((stream_at d 0).inflight ≡ first ∷ [])
    × (d.message_latency_statistic ≡ 400 ∷ [])
    × (d.counters.stream_messages_sent ≡ 1)
    × (d.counters.stream_messages_received ≡ 1)
    × ((mask : Key) × ((send_message ready_network small_hex 500 0 11 busy).written
          ≡ (0, encode_frame (some mask) (message_frame small_hex 1 busy)) ∷ busy.written))
send_message-echoed_example =
    send_message-echoed ready_network small_hex 500 900 0 11 busy reads_one one-CanEncode refl refl
      refl refl

-- The echo of the first message, in two pieces.
abbrev head : List ℕ
head = 0x81 ∷ 0x11 ∷ 48 ∷ 48 ∷ 48 ∷ []

abbrev tail : List ℕ
tail = 48 ∷ 48 ∷ 48 ∷ 48 ∷ 48 ∷ 48 ∷ 48 ∷ 48 ∷ 48 ∷ 48 ∷ 48 ∷ 48 ∷ 48 ∷ 7 ∷ []

on_response_data-append_example :
    on_response_data ready_network small_hex 900 0 (head ++ tail) true busy
    ≡ on_response_data ready_network small_hex 900 0 tail true
        (on_response_data ready_network small_hex 900 0 head false busy)
unfolding feed decode_one decode_known known header decode_rest
on_response_data-append_example =
    on_response_data-append ready_network small_hex 900 0 head tail true busy refl refl refl tt
