-- ===== src/Tcp/Slots.antt =====
-- The slots of a TcpBenchmarkClientImpl: retries, the links they own, and what is in flight
-- (engine/source/client/tcp_benchmark_client_impl.cc).

use sortie.Prelude.Words.{add64, sub32, u32_mod}
use sortie.Tcp.{
  waits_echoes, waits_opens, waits_nothing, closed, retiring, connecting, opened, role_none,
  role_retiring, role_standby, role_active, set_slot, max_backoff, Link, Role, set_link, link_at,
  slot_at, initial_backoff, InflightMessage, Client, Slot, backoff_starts_over_after, State,
}
use sortie.Prelude.{
  ℕ, ◌+◌, ◌-◌, ◌*◌, ◌%◌, min, Bool, true, false, not, ◌&&◌, ◌||◌, Option, none, some, List, [], ◌∷◌,
  ◌++◌, ltb, leb, ◌==◌, if◌then◌else◌, one_if,
}

abbrev pub is_open : State → Bool
is_open opened = true
is_open _ = false

abbrev pub is_connecting : State → Bool
is_connecting connecting = true
is_connecting _ = false

abbrev pub is_retiring : State → Bool
is_retiring retiring = true
is_retiring _ = false

abbrev pub is_closed : State → Bool
is_closed closed = true
is_closed _ = false

abbrev pub is_some : {A : Type 0} → Option A → Bool
is_some none = false
is_some (some a) = true

-- slot.active.get() == &link.
abbrev pub points_to : Option ℕ → ℕ → Bool
points_to none i = false
points_to (some j) i = i == j

abbrev pub starts_over : ℕ → Option ℕ → Bool
starts_over now none = false
starts_over now (some last) = leb backoff_starts_over_after (now - last)

-- scheduleRetry() on the slot alone, when it may.
unfoldable pub back_off : ℕ → Slot → Slot
back_off now slot =
    let backoff = if starts_over now slot.last_retry then initial_backoff else slot.backoff in
    record slot { retry_timer = some backoff; backoff = min (backoff * 2) max_backoff }

unfoldable pub schedule_retry : ℕ → ℕ → Client → Client
unfolding back_off
schedule_retry now slot_index c =
    if c.finished || is_some (slot_at c slot_index).retry_timer
    then c
    else set_slot slot_index (back_off now (slot_at c slot_index)) c

unfoldable pub initial_attempt_done : ℕ → Client → Client
initial_attempt_done i c =
    if (link_at c i).initial_pending
    then record (set_link i (record (link_at c i) { initial_pending = false }) c) {
      pending_opens = sub32 c.pending_opens 1;
    }
    else c

-- The loop of completeInflight(), over what is in flight.
unfoldable pub complete_queue : Bool → ℕ → List InflightMessage → Client → Client
complete_queue success i [] c = c
complete_queue success i (message ∷ rest) c =
    complete_queue success i rest
      (record (set_link i (record (link_at c i) { inflight = rest }) c) {
        counters =
            if success
            then c.counters
            else record c.counters { tcp_inflight_lost = add64 c.counters.tcp_inflight_lost 1 };
        completed = (message.completion_callback, success) ∷ c.completed;
      })

unfoldable pub complete_inflight : Bool → ℕ → Client → Client
unfolding complete_queue
complete_inflight success i c = complete_queue success i (link_at c i).inflight c

abbrev pub remove : ℕ → List ℕ → List ℕ
remove i [] = []
remove i (j ∷ js) = if i == j then js else j ∷ remove i js

abbrev pub contains : ℕ → List ℕ → Bool
contains i [] = false
contains i (j ∷ js) = i == j || contains i js

unfoldable pub release : ℕ → Client → Client × Role
release i c =
    let at = (link_at c i).slot in
    let slot = slot_at c at in
    if points_to slot.active i
    then (set_slot at (record slot { active = none }) c, role_active)
    else if points_to slot.standby i
    then (set_slot at (record slot { standby = none }) c, role_standby)
    else if contains i slot.retiring
    then (set_slot at (record slot { retiring = remove i slot.retiring }) c, role_retiring)
    else (c, role_none)

abbrev pub to_list : Option ℕ → List ℕ
to_list none = []
to_list (some i) = i ∷ []

-- links().
unfoldable pub links : List Slot → List ℕ
links [] = []
links (slot ∷ slots) =
    to_list slot.active ++ (to_list slot.standby ++ (slot.retiring ++ links slots))

abbrev pub is_empty : {A : Type 0} → List A → Bool
is_empty [] = true
is_empty (x ∷ xs) = false

abbrev pub any_of : Client → List ℕ → Bool
any_of c [] = false
any_of c (i ∷ is) = not (is_empty (link_at c i).inflight) || any_of c is

unfoldable pub any_inflight : Client → Bool
unfolding links
any_inflight c = any_of c (links c.slots)

unfoldable pub maybe_exit_wait_loop : Client → Client
unfolding any_inflight
maybe_exit_wait_loop c = elim c.waiting_for [
  | waits_nothing ↦ c
  | waits_opens ↦ if c.pending_opens == 0 then record c { exits = true } else c
  | waits_echoes ↦ if any_inflight c then c else record c { exits = true }
]

abbrev pub count_open : Client → List Slot → ℕ
count_open c [] = 0
count_open c (slot ∷ slots) = elim slot.active [
  | none ↦ count_open c slots
  | some i ↦ one_if (is_open (link_at c i).state) + count_open c slots
]

unfoldable pub open_connections : Client → ℕ
open_connections c = count_open c c.slots % u32_mod

abbrev pub rotation_due : Client → Link → Bool
rotation_due c link =
    ltb 0 c.max_messages_per_connection && leb c.max_messages_per_connection link.sent
