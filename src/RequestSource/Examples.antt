-- ===== src/RequestSource/Examples.antt =====
-- Runs of the request sources at which their theorems apply.

use sortie.RequestSource.Buffer.{done, wanted, received, next, Happens, asked_for}
use sortie.RequestSource.Delivery.{Happens-Delivers}
use sortie.RequestSource.Override.{message_to_request-chosen, chosen, value_or, Lawful}
use sortie.RequestSource.{
  try_send_request, new_client, start, on_receive_message, override_field, refill, Client,
  override_headers, dequeue, message_to_request, Specifier, HeaderMaps,
}
use sortie.RequestSource.Exhausted.{generate-exhausted, calls}
use sortie.Prelude.{
  inr, inl, ◌∙◌, ap, Bool-cases, same_bytes, ℕ, ◌+◌, ◌<◌, ◌≡◌, refl, ◌⊎◌, true, false, none, some,
  List, [], ◌∷◌, ◌++◌, arith, if◌then◌else◌, length,
}

generate-exhausted_example :
    calls ℕ 4 (record { header = 7; yields_left = 2; body = [] })
    ≡ some (7, []) ∷ some (7, []) ∷ none ∷ some (7, []) ∷ []
generate-exhausted_example = generate-exhausted ℕ 7 [] 2 (omega arith)

-- A header map as the function from names to values. It keeps "host" (5) under ":authority" (2),
-- and appends to a value of the path (3) that is there, after a comma (44).
abbrev alias : List ℕ → List ℕ
alias name = if same_bytes name (5 ∷ []) then 2 ∷ [] else name

abbrev joined : List ℕ → List (List ℕ) → List (List ℕ)
joined value [] = value ∷ []
joined value (old ∷ rest) = (old ++ 44 ∷ value) ∷ rest

abbrev added : List ℕ → List ℕ → List (List ℕ) → List (List ℕ)
added name value old = if same_bytes name (3 ∷ []) then joined value old else old ++ value ∷ []

abbrev functions : HeaderMaps
functions = record {
  HeaderMap = List ℕ → List (List ℕ);
  remove = λ name m k. if same_bytes k (alias name) then [] else m k;
  add_copy = λ name value m k.
      if same_bytes k (alias name) then added name value (m (alias name)) else m k;
  set = λ name value m k. if same_bytes k (alias name) then value ∷ [] else m k;
  lower_case = λ name. name;
  kept_as = alias;
  name_content_length = 1 ∷ [];
  name_host = 2 ∷ [];
  name_path = 3 ∷ [];
  name_method = 4 ∷ [];
  str_cat = λ n. n ∷ [];
}

added_to_none : (name value : List ℕ) → added name value [] ≡ value ∷ []
added_to_none name value = elim (Bool-cases (same_bytes name (3 ∷ []))) [
  | inl path ↦ rw (path) refl
  | inr other ↦ rw (other) refl
]

abbrev functions-Lawful : Lawful functions
functions-Lawful = record {
  values = λ m k. m (alias k);
  values-remove = λ name m k. refl;
  values-add_copy = λ name value m k none_there.
      ap (λ new. if same_bytes (alias k) (alias name) then new else m (alias k))
        (ap (added name value) none_there ∙ added_to_none name value);
  values-set = λ name value m k. refl;
}

-- A path of its own, and a header given twice.
abbrev a_specifier : Specifier
a_specifier = record {
  v3_headers = some ((9 ∷ [], 50 ∷ []) ∷ (3 ∷ [], 51 ∷ []) ∷ (9 ∷ [], 52 ∷ []) ∷ []);
  headers = none;
  content_length = none;
  authority = none;
  path = some (60 ∷ []);
  method = none;
}

abbrev base : List ℕ → List (List ℕ)
base k = (40 ∷ []) ∷ []

message_to_request-chosen_example :
    (message_to_request functions base (some a_specifier) (9 ∷ [])
      ≡ value_or (base (9 ∷ [])) (chosen functions (9 ∷ []) a_specifier))
    × (message_to_request functions base none ≡ base)
message_to_request-chosen_example =
    message_to_request-chosen functions functions-Lawful base a_specifier (9 ∷ [])

chosen_values :
    (message_to_request functions base (some a_specifier) (9 ∷ []) ≡ (52 ∷ []) ∷ [])
    × (message_to_request functions base (some a_specifier) (3 ∷ []) ≡ (60 ∷ []) ∷ [])
    × (message_to_request functions base (some a_specifier) (8 ∷ []) ≡ (40 ∷ []) ∷ [])
unfolding message_to_request override_headers override_field
chosen_values = (refl, refl, refl)

-- A buffer of one: a response comes, is taken, and another is asked for.
abbrev after : Client
unfolding dequeue
after = (dequeue (on_receive_message none (start true (new_client 1)))).1

a_life : Happens (start true (new_client 1)) (none ∷ []) (none ∷ []) after
unfolding dequeue refill on_receive_message start try_send_request
a_life = next (received none) (refl, omega arith) (next wanted tt done)

Happens-Delivers_example :
    (none ∷ [] ≡ none ∷ after.messages)
    × (length after.messages + after.in_flight_headers < 2)
    × ((after.has_stream ≡ false) ⊎ (0 < length after.messages + after.in_flight_headers))
    × (1 + after.in_flight_headers ≡ asked_for after)
Happens-Delivers_example =
    Happens-Delivers 1 true after (none ∷ []) (none ∷ []) (omega arith) (omega arith) a_life
