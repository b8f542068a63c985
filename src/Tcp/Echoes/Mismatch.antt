-- ===== src/Tcp/Echoes/Mismatch.antt =====
-- What comes back and is not the message (engine/source/client/tcp_benchmark_client_impl.cc).
use sortie.Tcp.Echoes.Losing.{
  schedule_retry-Dropped, if-Dropped, maybe_exit_wait_loop-Dropped, shut-Dropped, on_close-Dropped,
  lost, Dropped,
}
use sortie.Tcp.Messages.{on_echo, match_echoes, on_data, answer, takes_echoes, on_echo_mismatch}
use sortie.Prelude.{
  same_bytes, zero, suc, ℕ, ◌-◌, ◌≤◌, ◌<◌, ◌≡◌, refl, ap, ◌∙◌, true, false, ◌&&◌, List, [], ◌∷◌,
  ◌++◌, arith, leb, if◌then◌else◌, length, take, drop,
}
use sortie.Tcp.Connections.{close_link}
use sortie.Tcp.Slots.{is_closed, points_to}
use sortie.Tcp.Connections.{shut}
use sortie.Prelude.Words.{add64}
use sortie.Tcp.Ledger.{in_range, length-update_at, get_or-update_at}
use sortie.Tcp.{no_flush, opened, Network, set_link, slot_at, closed, link_at, Client}
use sortie.Tcp.Slots.{is_closed, schedule_retry}

take_all : (n : ℕ) (xs : List ℕ) → length xs ≡ n → take n xs ≡ xs
take_all zero [] h = refl
take_all zero (x ∷ xs) h = absurd (omega arith)
take_all (suc n) [] h = refl
take_all (suc n) (x ∷ xs) h = ap (◌∷◌ x) (take_all n xs (omega arith))

module _ (net : Network) (now i : ℕ) where
  on_echo_mismatch-Dropped :
      (c : Client)
      → i < length c.links
      → (link_at c i).state ≡ opened
      → Dropped i
          (lost (link_at c i).inflight c.completed)
          c.message_latency_statistic
          (on_echo_mismatch net now i c)
  unfolding on_echo_mismatch close_link
  on_echo_mismatch-Dropped c there up =
      let n = c.counters in
      let at = (link_at c i).slot in
      let calls = lost (link_at c i).inflight c.completed in
      let latencies = c.message_latency_statistic in
      let counted : Client = record c {
        counters = record n { tcp_echo_mismatch = add64 n.tcp_echo_mismatch 1 };
        echo_mismatch_logged = true;
      } in
      let dropped = close_link net now no_flush i counted in
      let live : is_closed (link_at c i).state ≡ false = rw (up) refl in
      let v : Dropped i calls latencies dropped =
        rw (live) (
          on_close-Dropped i calls latencies now (shut i counted) (shut-Dropped i counted there)) in
      let active = points_to (slot_at c at).active i in
      maybe_exit_wait_loop-Dropped i calls latencies
        (if active then schedule_retry now at dropped else dropped)
        (if-Dropped i calls latencies active (schedule_retry now at dropped) dropped
          (schedule_retry-Dropped i calls latencies now at dropped v) v)

  match_echoes-closed :
      (fuel : ℕ) (c : Client) → (link_at c i).state ≡ closed → match_echoes net fuel now i c ≡ c
  unfolding match_echoes
  match_echoes-closed zero c down = refl
  match_echoes-closed (suc fuel) c down =
      let stops : (leb (length c.message) (length (link_at c i).received)
            && takes_echoes (link_at c i).state)
          ≡ false =
        ground (arith, down) in
      rw (stops) refl

  -- The client once the bytes of an echo are taken off a link.
  abbrev taken : Client → Client
  taken c =
      set_link i
        (record (link_at c i) { received = drop (length c.message) (link_at c i).received }) c

  taken-Dropped :
      (c : Client)
      → i < length c.links
      → (link_at c i).state ≡ opened
      → Dropped i
          (lost (link_at c i).inflight c.completed)
          c.message_latency_statistic
          (on_echo_mismatch net now i (taken c))
  taken-Dropped c there up =
      let l = record (link_at c i) { received = drop (length c.message) (link_at c i).received } in
      let at_l = get_or-update_at i l c.links there in
      let v =
        on_echo_mismatch-Dropped (taken c) (omega (arith, there, length-update_at i l c.links))
          (ap (λ x. x.state) at_l ∙ up) in
      record {
        there = v.there;
        down = v.down;
        empty = v.empty;
        called = v.called ∙ ap (λ x. lost x.inflight c.completed) at_l;
        untimed = v.untimed;
      }

  match_echoes_mismatch :
      (fuel : ℕ) (c : Client)
      → i < length c.links
      → (link_at c i).state ≡ opened
      → length c.message ≤ length (link_at c i).received
      → same_bytes (take (length c.message) (link_at c i).received) c.message ≡ false
      → match_echoes net (suc fuel) now i c ≡ on_echo_mismatch net now i (taken c)
  unfolding match_echoes on_echo
  match_echoes_mismatch fuel c there up sized differ =
      let goes : (leb (length c.message) (length (link_at c i).received)
            && takes_echoes (link_at c i).state)
          ≡ true =
        ground (arith, sized, up) in
      let bytes = take (length c.message) (link_at c i).received in
      let d = on_echo_mismatch net now i (taken c) in
      ap (λ b. if b then match_echoes net fuel now i (on_echo net now i bytes (taken c)) else c)
        goes
      ∙ (ap
            (λ b.
              match_echoes net fuel now i
                (if b then answer net now i (link_at (taken c) i).inflight (taken c) else d))
            differ
          ∙ match_echoes-closed fuel d (taken-Dropped c there up).down)

  on_data-closed :
      (bytes : List ℕ) (c : Client) → (link_at c i).state ≡ closed → on_data net now i bytes c ≡ c
  unfolding on_data
  on_data-closed bytes c down =
      let stops : (c.expect_echo && takes_echoes (link_at c i).state) ≡ false =
        ground (arith, down) in
      rw (stops) refl

  -- A message's worth of bytes that is not the message, on an open connection with nothing half
  -- received, ends the connection: its link is closed and keeps nothing in flight, what was in
  -- flight is lost, oldest first, and nothing is timed. Whatever more comes on it changes nothing.
  pub on_data_mismatch :
      (bytes more : List ℕ) (c : Client)
      → c.expect_echo ≡ true
      → (link_at c i).state ≡ opened
      → (link_at c i).received ≡ []
      → 0 < length bytes
      → length bytes ≡ length c.message
      → same_bytes bytes c.message ≡ false
      → let d = on_data net now i bytes c in
        ((link_at d i).state ≡ closed)
        × ((link_at d i).inflight ≡ [])
        × (d.completed ≡ lost (link_at c i).inflight c.completed)
        × (d.message_latency_statistic ≡ c.message_latency_statistic)
        × (on_data net now i more d ≡ d)
  unfolding on_data
  on_data_mismatch bytes more c echo up clean long sized differ =
      let l = record (link_at c i) { received = (link_at c i).received ++ bytes } in
      let c1 = set_link i l c in
      let there = in_range i c.links (rw (up) refl) in
      let there1 : i < length c1.links = omega (arith, there, length-update_at i l c.links) in
      let at_l = get_or-update_at i l c.links there in
      let up1 : (link_at c1 i).state ≡ opened = ap (λ x. x.state) at_l ∙ up in
      let got : (link_at c1 i).received ≡ bytes =
        ap (λ x. x.received) at_l ∙ ap (λ r. r ++ bytes) clean in
      let first : take (length c.message) (link_at c1 i).received ≡ bytes =
        ap (take (length c.message)) got ∙ take_all (length c.message) bytes sized in
      let n = length bytes - 1 in
      let fuel : length l.received ≡ suc n =
        ap (λ r. length (r ++ bytes)) clean ∙ omega (arith, long) in
      let goes : (c.expect_echo && takes_echoes (link_at c i).state) ≡ true = rw (echo, up) refl in
      let d = on_echo_mismatch net now i (taken c1) in
      let path : on_data net now i bytes c ≡ d =
        ap (λ b. if b then match_echoes net (length l.received) now i c1 else c) goes
        ∙ (ap (λ m. match_echoes net m now i c1) fuel
            ∙ match_echoes_mismatch n c1 there1 up1 (omega (arith, ap length got, sized))
                (rw (first) differ)) in
      let v = taken-Dropped c1 there1 up1 in
      (
        ap (λ e. (link_at e i).state) path ∙ v.down,
        ap (λ e. (link_at e i).inflight) path ∙ v.empty,
        ap (λ e. e.completed) path ∙ (v.called ∙ ap (λ x. lost x.inflight c.completed) at_l),
        ap (λ e. e.message_latency_statistic) path ∙ v.untimed,
        on_data-closed more (on_data net now i bytes c)
            (ap (λ e. (link_at e i).state) path ∙ v.down),
      )
