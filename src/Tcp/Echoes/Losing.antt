-- ===== src/Tcp/Echoes/Losing.antt =====
-- A link that is closed and has lost what it had in flight
-- (engine/source/client/tcp_benchmark_client_impl.cc).
use sortie.Prelude.{
  get_or, ℕ, ◌<◌, ◌≡◌, refl, sym, ap, ◌∙◌, inl, inr, Bool, true, false, not, ◌&&◌, ◌||◌, none, List,
  [], ◌∷◌, arith, if◌then◌else◌, Bool-cases, length,
}
use sortie.Tcp.Slots.{is_closed}
use sortie.Tcp.Connections.{on_close, count_close, is_role_in_use, shut}
use sortie.Prelude.Words.{add64}
use sortie.Tcp.Ledger.{length-update_at, get_or-update_at}
use sortie.Tcp.Echoes.Match.{maybe_exit_wait_loop-SameBooks}
use mathlib.Core.Path.{subst}
use sortie.Tcp.Connections.{on_close}
use sortie.Tcp.{set_link, no_link, slot_at, closed, link_at, Client, Link, InflightMessage}
use sortie.Tcp.Slots.{
  is_closed, complete_queue, complete_inflight, is_some, release, schedule_retry,
  maybe_exit_wait_loop, initial_attempt_done,
}

-- The calls of completion callbacks for messages that are lost, in this order.

abbrev pub lost : List InflightMessage → List (ℕ × Bool) → List (ℕ × Bool)
lost [] calls = calls
lost (message ∷ rest) calls = lost rest ((message.completion_callback, false) ∷ calls)

-- The link is closed, with nothing in flight; the calls and the latencies are these.
pub record DroppedOf (i : ℕ) (calls : List (ℕ × Bool)) (latencies : List ℕ) (links : List Link)
    (completed : List (ℕ × Bool)) (statistic : List ℕ) : Type 0 where
  pub there : i < length links
  pub down : (get_or no_link i links).state ≡ closed
  pub empty : (get_or no_link i links).inflight ≡ []
  pub called : completed ≡ calls
  pub untimed : statistic ≡ latencies

abbrev pub Dropped : ℕ → List (ℕ × Bool) → List ℕ → Client → Type 0
Dropped i calls latencies d =
    DroppedOf i calls latencies d.links d.completed d.message_latency_statistic

module _ (i : ℕ) where
  complete_queue-Dropped :
      (queue : List InflightMessage) (c : Client)
      → i < length c.links
      → (link_at c i).state ≡ closed
      → (link_at c i).inflight ≡ queue
      → Dropped i
          (lost queue c.completed)
          c.message_latency_statistic
          (complete_queue false i queue c)
  unfolding complete_queue
  complete_queue-Dropped [] c there down e = record {
    there = there;
    down = down;
    empty = e;
    called = refl;
    untimed = refl;
  }
  complete_queue-Dropped (message ∷ rest) c there down e =
      let l = record (link_at c i) { inflight = rest } in
      let n = c.counters in
      let at_l = get_or-update_at i l c.links there in
      complete_queue-Dropped rest
        (record (set_link i l c) {
          counters = record n { tcp_inflight_lost = add64 n.tcp_inflight_lost 1 };
          completed = (message.completion_callback, false) ∷ c.completed;
        })
        (omega (arith, there, length-update_at i l c.links)) (ap (λ x. x.state) at_l ∙ down)
        (ap (λ x. x.inflight) at_l)

  module _ (calls : List (ℕ × Bool)) (latencies : List ℕ) where
    set_link-Dropped :
        (l : Link) (d : Client)
        → l.state ≡ closed
        → l.inflight ≡ []
        → Dropped i calls latencies d
        → Dropped i calls latencies (set_link i l d)
    set_link-Dropped l d down empty v =
        let at_l = get_or-update_at i l d.links v.there in
        record {
          there = omega (arith, v.there, length-update_at i l d.links);
          down = ap (λ x. x.state) at_l ∙ down;
          empty = ap (λ x. x.inflight) at_l ∙ empty;
          called = v.called;
          untimed = v.untimed;
        }

    initial_attempt_done-Dropped :
        (d : Client)
        → Dropped i calls latencies d
        → Dropped i calls latencies (initial_attempt_done i d)
    unfolding initial_attempt_done
    initial_attempt_done-Dropped d v =
        let kept =
          set_link-Dropped (record (link_at d i) { initial_pending = false }) d v.down v.empty v in
        elim (Bool-cases (link_at d i).initial_pending) [
          | inl pending ↦ rw (pending) kept
          | inr over ↦ rw (over) v
        ]

    complete_inflight-Dropped :
        (d : Client)
        → Dropped i calls latencies d
        → Dropped i calls latencies (complete_inflight false i d)
    unfolding complete_inflight complete_queue
    complete_inflight-Dropped d v =
        subst (λ queue. Dropped i calls latencies (complete_queue false i queue d)) (sym v.empty) v

    release-Dropped :
        (d : Client) → Dropped i calls latencies d → Dropped i calls latencies (release i d).0
    unfolding release
    release-Dropped d v = ground arith

    pub schedule_retry-Dropped :
        (now at : ℕ) (d : Client)
        → Dropped i calls latencies d
        → Dropped i calls latencies (schedule_retry now at d)
    unfolding schedule_retry
    schedule_retry-Dropped now at d v =
        elim (Bool-cases (d.finished || is_some (slot_at d at).retry_timer)) [
          | inl skip ↦ rw (skip) v
          | inr go ↦ rw (go) v
        ]

    pub maybe_exit_wait_loop-Dropped :
        (d : Client)
        → Dropped i calls latencies d
        → Dropped i calls latencies (maybe_exit_wait_loop d)
    maybe_exit_wait_loop-Dropped d v =
        let same = maybe_exit_wait_loop-SameBooks d in
        rw (same.links, same.completed, same.latencies) v

    pub if-Dropped :
        (b : Bool) (c d : Client)
        → Dropped i calls latencies c
        → Dropped i calls latencies d
        → Dropped i calls latencies (if b then c else d)
    if-Dropped true c d v w = v
    if-Dropped false c d v w = w

    pub on_close-Dropped :
        (now : ℕ) (d : Client)
        → Dropped i calls latencies d
        → Dropped i calls latencies (on_close now i d)
    unfolding on_close
    on_close-Dropped now d v =
        let previous = (link_at d i).state in
        let l = record (link_at d i) { state = closed; timer = none } in
        let ended = initial_attempt_done i (set_link i l d) in
        let counted = record ended { counters = count_close previous ended.counters } in
        let emptied = complete_inflight false i counted in
        let (released, role) = release i emptied in
        let v1 =
          initial_attempt_done-Dropped (set_link i l d) (set_link-Dropped l d refl v.empty v) in
        let v2 = release-Dropped emptied (complete_inflight-Dropped counted v1) in
        let at = (link_at released i).slot in
        let again = not (is_closed previous) && is_role_in_use role in
        maybe_exit_wait_loop-Dropped (if again then schedule_retry now at released else released) (
          if-Dropped again (schedule_retry now at released) released
            (schedule_retry-Dropped now at released v2) v2)

  initial_attempt_done_keeps :
      (d : Client)
      → i < length d.links
      → let e = initial_attempt_done i d in
        (i < length e.links)
        × ((link_at e i).state ≡ (link_at d i).state)
        × ((link_at e i).inflight ≡ (link_at d i).inflight)
        × (e.completed ≡ d.completed)
        × (e.message_latency_statistic ≡ d.message_latency_statistic)
  unfolding initial_attempt_done
  initial_attempt_done_keeps d there =
      let l = record (link_at d i) { initial_pending = false } in
      let at_l = get_or-update_at i l d.links there in
      elim (Bool-cases (link_at d i).initial_pending) [
        | inl pending ↦ rw (pending) (
          omega (arith, there, length-update_at i l d.links),
          ap (λ x. x.state) at_l,
          ap (λ x. x.inflight) at_l,
          refl,
          refl,
        )
        | inr over ↦ rw (over) (there, refl, refl, refl, refl)
      ]

  pub shut-Dropped :
      (c : Client)
      → i < length c.links
      → Dropped i (lost (link_at c i).inflight c.completed) c.message_latency_statistic (shut i c)
  unfolding shut complete_inflight
  shut-Dropped c there =
      let l = record (link_at c i) { state = closed; timer = none } in
      let closing = set_link i l c in
      let ended = initial_attempt_done i closing in
      let at_l = get_or-update_at i l c.links there in
      let (still, state, inflight, called, untimed) =
        initial_attempt_done_keeps closing (omega (arith, there, length-update_at i l c.links)) in
      let v =
        complete_queue-Dropped (link_at ended i).inflight ended still
          (state ∙ ap (λ x. x.state) at_l) refl in
      record {
        there = v.there;
        down = v.down;
        empty = v.empty;
        called =
            v.called
            ∙ (ap (λ q. lost q ended.completed) (inflight ∙ ap (λ x. x.inflight) at_l)
                ∙ ap (lost (link_at c i).inflight) called);
        untimed = v.untimed ∙ untimed;
      }
