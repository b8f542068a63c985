-- ===== src/RequestSource.antt =====
-- The request sources of engine/source/common: the static one (request_source_impl.{h,cc}), and
-- the client of a remote one with its buffer of requests
-- (request_stream_grpc_client_impl.{h,cc}).

-- StaticRequestSourceImpl.
pub mod Buffer
pub mod Delivery
mod Examples
pub mod Exhausted
pub mod Override
use sortie.Prelude.Words.{add32, sub32, sub64}
use sortie.Prelude.{
  ℕ, Bool, false, not, ◌&&◌, ◌||◌, Option, none, some, List, [], ◌∷◌, ◌++◌, ltb, ◌==◌,
  if◌then◌else◌, length,
}

module _ (H : Type 0) where
  pub record Static : Type 0 where
    pub header : H
    pub yields_left : ℕ
    pub body : List ℕ

  -- The generator that get() returns. `yields_left_--` is counted down past 0 as well.
  unfoldable pub generate : Static → Option (H × List ℕ) × Static
  generate s =
      let counted : Static = record s { yields_left = sub64 s.yields_left 1 } in
      if s.yields_left == 0 then (none, counted) else (some (s.header, s.body), counted)

-- A RequestSpecifier, and the response of the service that may hold one. The names of headers
-- are texts in lower case.
pub record Specifier : Type 0 where
  pub v3_headers : Option (List (List ℕ × List ℕ))
  pub headers : Option (List (List ℕ × List ℕ))
  pub content_length : Option ℕ
  pub authority : Option (List ℕ)
  pub path : Option (List ℕ)
  pub method : Option (List ℕ)

abbrev pub Response : Type 0
Response = Option Specifier

-- Envoy's header maps, its names of four headers, and absl's StrCat() of a number. A map may keep
-- a header under another name than it is asked for, as it keeps "host" under ":authority".
pub record HeaderMaps : Type 1 where
  pub HeaderMap : Type 0
  pub remove : List ℕ → HeaderMap → HeaderMap
  pub add_copy : List ℕ → List ℕ → HeaderMap → HeaderMap
  pub set : List ℕ → List ℕ → HeaderMap → HeaderMap
  pub lower_case : List ℕ → List ℕ
  pub kept_as : List ℕ → List ℕ
  pub name_content_length : List ℕ
  pub name_host : List ℕ
  pub name_path : List ℕ
  pub name_method : List ℕ
  pub str_cat : ℕ → List ℕ

module _ (h : HeaderMaps) where
  -- The loops over the headers of the message.
  unfoldable pub override_headers : List (List ℕ × List ℕ) → h.HeaderMap → h.HeaderMap
  override_headers [] header = header
  override_headers ((key, value) ∷ rest) header =
      override_headers rest
        (h.add_copy (h.lower_case key) value (h.remove (h.lower_case key) header))

  -- remove() and setX() of a field that the message may have.
  unfoldable pub override_field : List ℕ → Option (List ℕ) → h.HeaderMap → h.HeaderMap
  override_field name none header = header
  override_field name (some value) header = h.set name value (h.remove name header)

  abbrev pub length_text : Option ℕ → Option (List ℕ)
  length_text none = none
  length_text (some n) = some (h.str_cat n)

  abbrev pub message_headers : Specifier → List (List ℕ × List ℕ)
  message_headers s = elim s.v3_headers [
    | some headers ↦ headers
    | none ↦ elim s.headers [ some headers ↦ headers | none ↦ [] ]
  ]

  -- ProtoRequestHelper::messageToRequest().
  unfoldable pub message_to_request : h.HeaderMap → Response → h.HeaderMap
  unfolding override_headers override_field
  message_to_request base none = base
  message_to_request base (some s) =
      let a = override_headers (message_headers s) base in
      let b = override_field h.name_content_length (length_text s.content_length) a in
      let c = override_field h.name_host s.authority b in
      let d = override_field h.name_path s.path c in override_field h.name_method s.method d

-- RequestStreamGrpcClientImpl. `has_stream` is `stream_ != nullptr`; `asked` lists the quantities
-- of the messages that it sent, which the code does not keep.
pub record Client : Type 0 where
  pub has_stream : Bool
  pub messages : List Response
  pub in_flight_headers : ℕ
  pub total_messages_received : ℕ
  pub header_buffer_length : ℕ
  pub asked : List ℕ

abbrev pub new_client : ℕ → Client
new_client buffer = record {
  has_stream = false;
  messages = [];
  in_flight_headers = 0;
  total_messages_received = 0;
  header_buffer_length = buffer;
  asked = [];
}

unfoldable pub try_send_request : Client → Client
try_send_request c =
    if c.has_stream
    then record c {
      asked = c.asked ++ c.header_buffer_length ∷ [];
      in_flight_headers = c.header_buffer_length;
    }
    else c

-- start(), with whether the asynchronous client could open a stream.
unfoldable pub start : Bool → Client → Client
unfolding try_send_request
start opened c = try_send_request (record c { has_stream = opened })

unfoldable pub on_receive_message : Response → Client → Client
on_receive_message message c = record c {
  in_flight_headers = sub32 c.in_flight_headers 1;
  total_messages_received = add32 c.total_messages_received 1;
  messages = c.messages ++ message ∷ [];
}

unfoldable pub on_remote_close : Client → Client
on_remote_close c = record c { has_stream = false }

unfoldable pub stream_status_known : Client → Bool
stream_status_known c = not c.has_stream || ltb 0 c.total_messages_received

-- After the message is taken from the queue.
unfoldable pub refill : Client → Client
unfolding try_send_request
refill c =
    if c.in_flight_headers == 0 && ltb (length c.messages) c.header_buffer_length
    then try_send_request c
    else c

-- The message that the request is made of, and the client after it.
unfoldable pub dequeue : Client → Option Response × Client
unfolding refill
dequeue c = elim c.messages [
  | [] ↦ (none, c)
  | message ∷ rest ↦ (some message, refill (record c { messages = rest }))
]

module _ (h : HeaderMaps) where
  unfoldable pub maybe_dequeue : h.HeaderMap → Client → Option h.HeaderMap × Client
  unfolding dequeue message_to_request
  maybe_dequeue base c = elim (dequeue c).0 [
    | none ↦ (none, (dequeue c).1)
    | some message ↦ (some (message_to_request h base message), (dequeue c).1)
  ]
