-- ===== src/Tcp/Echoes/Order.antt =====
-- The order in which echoes are matched
-- (engine/source/client/tcp_benchmark_client_impl.cc).

use sortie.Tcp.Echoes.Match.{answered_link, answered_there, on_echo-opened}
use sortie.Tcp.Ledger.{length-update_at, in_range, get_or-update_at}
use sortie.Tcp.Messages.{on_echo, takes_echoes, on_data, match_echoes}
use sortie.Tcp.{set_link, opened, link_at, Client, InflightMessage, Link, Network}
use sortie.Tcp.Echoes.{matched, answered, SameBooks, timed, copies}
use sortie.Prelude.{
  List-cases, zero, suc, ℕ, ◌+◌, ◌-◌, ◌≤◌, ◌<◌, ◌≡◌, refl, sym, ap, ◌∙◌, inl, inr, Bool, true,
  false, ◌&&◌, List, [], ◌∷◌, ◌++◌, arith, leb, if◌then◌else◌, length, take, drop, length-append,
  take-append, drop-append,
}

copies_long : (k : ℕ) (message : List ℕ) → 0 < length message → k ≤ length (copies k message)
copies_long zero message h = omega arith
copies_long (suc k) message h =
    omega (arith, copies_long k message h, length-append message (copies k message))

module _ (net : Network) (now i : ℕ) where
  -- What `k` echoes do on a connection whose link was `l`, of a client that was `c`.
  record Answered (k : ℕ) (l : Link) (c d : Client) : Type 0 where
    pub link : link_at d i ≡ record l { inflight = drop k l.inflight; received = [] }
    pub completed : d.completed ≡ answered (take k l.inflight) c.completed
    pub latencies : d.message_latency_statistic ≡ (
        if c.measure_latencies
        then timed now (take k l.inflight) c.message_latency_statistic
        else c.message_latency_statistic)

  unanswered : (l : Link) (c : Client) → link_at c i ≡ record l { received = [] } → Answered 0 l c c
  unanswered l c e = record { link = e; completed = refl; latencies = ground arith }

  timed_one_more :
      (measures : Bool) (message : InflightMessage) (rest : List InflightMessage)
      (latencies : List ℕ)
      → (let later = if measures then (now - message.sent_at) ∷ latencies else latencies in
          if measures then timed now rest later else later)
        ≡ (if measures then timed now (message ∷ rest) latencies else latencies)
  timed_one_more true message rest latencies = refl
  timed_one_more false message rest latencies = refl

  -- One answer, and then `k` more.
  one_more :
      (k : ℕ) (l l1 : Link) (message : InflightMessage) (rest : List InflightMessage)
      (c d e : Client)
      → l.inflight ≡ message ∷ rest
      → SameBooks (matched now i message rest (set_link i l1 c)) d
      → Answered k (record l { inflight = rest }) d e
      → Answered (suc k) l c e
  one_more k l l1 message rest c d e queue same a = record {
    link = a.link ∙ ap (λ q. record l { inflight = drop (suc k) q; received = [] }) (sym queue);
    completed =
        a.completed
        ∙ (ap (answered (take k rest)) same.completed
            ∙ ap (λ q. answered (take (suc k) q) c.completed) (sym queue));
    latencies =
        a.latencies
        ∙ (ap
              (λ b.
                if b
                then timed now (take k rest) d.message_latency_statistic
                else d.message_latency_statistic)
              same.measures
            ∙ (ap (λ ls. if c.measure_latencies then timed now (take k rest) ls else ls)
                  same.latencies
                ∙ (timed_one_more c.measure_latencies message (take k rest)
                      c.message_latency_statistic
                    ∙ ap
                        (λ q.
                          if c.measure_latencies
                          then timed now (take (suc k) q) c.message_latency_statistic
                          else c.message_latency_statistic)
                        (sym queue))));
  }

  match_echoes-copies :
      (k fuel : ℕ) (l : Link) (c : Client)
      → i < length c.links
      → 0 < length c.message
      → l.state ≡ opened
      → k ≤ length l.inflight
      → link_at c i ≡ record l { received = copies k c.message }
      → k ≤ fuel
      → Answered k l c (match_echoes net fuel now i c)
  unfolding match_echoes
  match_echoes-copies zero zero l c there long up room e enough = unanswered l c e
  match_echoes-copies zero (suc fuel) l c there long up room e enough =
      let empty : length (link_at c i).received ≡ 0 = ap (λ x. length x.received) e in
      let short : (leb (length c.message) (length (link_at c i).received)
            && takes_echoes (link_at c i).state)
          ≡ false =
        ground (arith, empty, long) in
      rw (short) (unanswered l c e)
  match_echoes-copies (suc k) zero l c there long up room e enough = absurd (omega arith)
  match_echoes-copies (suc k) (suc fuel) l c there long up room e enough =
      let size = length c.message in
      let link = link_at c i in
      let l1 = record link { received = drop size link.received } in
      let c1 = set_link i l1 c in
      let bytes = take size link.received in
      let got : link.received ≡ c.message ++ copies k c.message = ap (λ x. x.received) e in
      let exact : bytes ≡ c.message =
        ap (take size) got ∙ take-append size c.message (copies k c.message) refl in
      let left : drop size link.received ≡ copies k c.message =
        ap (drop size) got ∙ drop-append size c.message (copies k c.message) refl in
      let at_l1 : link_at c1 i ≡ l1 = get_or-update_at i l1 c.links there in
      let sized : length link.received ≡ size + length (copies k c.message) =
        ap length got ∙ length-append c.message (copies k c.message) in
      let alive : link.state ≡ opened = ap (λ x. x.state) e ∙ up in
      let goes : (leb size (length link.received) && takes_echoes link.state) ≡ true =
        ground (arith, sized, alive) in
      elim (List-cases l.inflight) [
        | inl none_out ↦ absurd (omega (arith, room, ap length none_out))
        | inr (message, rest, queue) ↦
            let d = on_echo net now i bytes c1 in
            let same =
              on_echo-opened net now i message rest bytes c1 exact (ap (λ x. x.state) at_l1 ∙ alive)
                (ap (λ x. x.inflight) at_l1 ∙ (ap (λ x. x.inflight) e ∙ queue)) in
            let there1 = answered_there now i l1 message rest c d there same in
            let at_d : link_at d i ≡ record l { inflight = rest; received = copies k d.message } =
              answered_link now i l1 message rest c d there same
              ∙ (ap {A = Link} {B = Link}
                    (λ x. record x { inflight = rest; received = drop size link.received }) e
                  ∙ ap {A = List ℕ} {B = Link} (λ r. record l { inflight = rest; received = r })
                      (left ∙ ap (copies k) (sym same.message))) in
            let long1 : 0 < length d.message = omega (arith, long, ap length same.message) in
            let room1 : k ≤ length rest = omega (arith, room, ap length queue) in
            rw (goes) (
              one_more k l l1 message rest c d (match_echoes net fuel now i d) queue same (
                match_echoes-copies k fuel (record l { inflight = rest }) d there1 long1 up room1
                  at_d (omega arith)))
      ]

  -- On an open connection with nothing half received, `k` exact echoes, at most as many as there
  -- are messages in flight, answer the `k` oldest of these, in the order in which they were sent:
  -- their callbacks are called with success, and their latencies are recorded if latencies are
  -- measured. The others stay in flight.
  pub on_data-copies :
      (k : ℕ) (c : Client)
      → c.expect_echo ≡ true
      → 0 < length c.message
      → (link_at c i).state ≡ opened
      → (link_at c i).received ≡ []
      → k ≤ length (link_at c i).inflight
      → let d = on_data net now i (copies k c.message) c in
        ((link_at d i).inflight ≡ drop k (link_at c i).inflight)
        × (d.completed ≡ answered (take k (link_at c i).inflight) c.completed)
        × (d.message_latency_statistic ≡ (
            if c.measure_latencies
            then timed now (take k (link_at c i).inflight) c.message_latency_statistic
            else c.message_latency_statistic))
  unfolding on_data
  on_data-copies k c echo long up empty room =
      let l = link_at c i in
      let received = l.received ++ copies k c.message in
      let whole : received ≡ copies k c.message = ap (λ r. r ++ copies k c.message) empty in
      let l1 = record l { received = received } in
      let c1 = set_link i l1 c in
      let there = in_range i c.links (rw (up) refl) in
      let there1 : i < length c1.links = omega (arith, there, length-update_at i l1 c.links) in
      let at_l1 : link_at c1 i ≡ record l { received = copies k c.message } =
        get_or-update_at i l1 c.links there
        ∙ ap {A = List ℕ} {B = Link} (λ r. record l { received = r }) whole in
      let enough : k ≤ length received =
        omega (arith, ap length whole, copies_long k c.message long) in
      let a = match_echoes-copies k (length received) l c1 there1 long up room at_l1 enough in
      let goes : (c.expect_echo && takes_echoes l.state) ≡ true = rw (echo, up) refl in
      let d = match_echoes net (length received) now i c1 in
      let path : on_data net now i (copies k c.message) c ≡ d = ap (λ b. if b then d else c) goes in
      (
        ap (λ e. (link_at e i).inflight) path ∙ ap (λ x. x.inflight) a.link,
        ap (λ e. e.completed) path ∙ a.completed,
        ap (λ e. e.message_latency_statistic) path ∙ a.latencies,
      )
