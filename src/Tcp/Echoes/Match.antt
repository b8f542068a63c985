-- ===== src/Tcp/Echoes/Match.antt =====
-- One echo that is exact (engine/source/client/tcp_benchmark_client_impl.cc).

use sortie.Tcp.Connections.{close_link}
use mathlib.Core.Path.{subst}
use sortie.Tcp.Ledger.{get_or-update_at, length-update_at}
use sortie.Tcp.Echoes.{matched, SameBooks}
use sortie.Tcp.Slots.{is_empty, is_retiring, any_inflight, maybe_exit_wait_loop}
use sortie.Tcp.{
  flush_write, waits_echoes, no_link, waits_opens, waits_nothing, set_link, opened, link_at,
  WaitingFor, InflightMessage, Link, Network, Client,
}
use sortie.Tcp.Messages.{on_echo_mismatch, answer, on_echo, on_match}
use sortie.Prelude.{
  same_bytes_refl, same_bytes, get_or, ℕ, ◌<◌, ◌≡◌, refl, sym, ap, ◌∙◌, inl, inr, true, ◌&&◌, List,
  ◌∷◌, arith, ◌==◌, if◌then◌else◌, Bool-cases, length,
}

SameBooks-refl : (c : Client) → SameBooks c c
SameBooks-refl c = record {
  links = refl;
  completed = refl;
  latencies = refl;
  message = refl;
  measures = refl;
}

pub maybe_exit_wait_loop-SameBooks : (c : Client) → SameBooks c (maybe_exit_wait_loop c)
unfolding maybe_exit_wait_loop
maybe_exit_wait_loop-SameBooks c = by_reason c.waiting_for
  where
    exits : SameBooks c (record c { exits = true })
    exits = record {
      links = refl;
      completed = refl;
      latencies = refl;
      message = refl;
      measures = refl;
    }

    by_reason :
        (reason : WaitingFor)
        → SameBooks c (elim reason [
          | waits_nothing ↦ c
          | waits_opens ↦ if c.pending_opens == 0 then record c { exits = true } else c
          | waits_echoes ↦ if any_inflight c then c else record c { exits = true }
        ])
    by_reason waits_nothing = SameBooks-refl c
    by_reason waits_opens = elim (Bool-cases (c.pending_opens == 0)) [
      | inl over ↦ rw (over) exits
      | inr pending ↦ rw (pending) (SameBooks-refl c)
    ]
    by_reason waits_echoes = elim (Bool-cases (any_inflight c)) [
      | inl waits ↦ rw (waits) (SameBooks-refl c)
      | inr over ↦ rw (over) exits
    ]

module _ (net : Network) (now i : ℕ) where
  on_match-opened :
      (message : InflightMessage) (rest : List InflightMessage) (c : Client)
      → (link_at c i).state ≡ opened
      → on_match net now i message rest c ≡ maybe_exit_wait_loop (matched now i message rest c)
  unfolding on_match
  on_match-opened message rest c up =
      ap
        (λ state. maybe_exit_wait_loop (
          if is_retiring state && is_empty rest
          then close_link net now flush_write i (matched now i message rest c)
          else matched now i message rest c))
        up

  pub on_echo-opened :
      (message : InflightMessage) (rest : List InflightMessage) (bytes : List ℕ) (c : Client)
      → bytes ≡ c.message
      → (link_at c i).state ≡ opened
      → (link_at c i).inflight ≡ message ∷ rest
      → SameBooks (matched now i message rest c) (on_echo net now i bytes c)
  unfolding on_echo answer
  on_echo-opened message rest bytes c same up e =
      let all_same : same_bytes bytes c.message ≡ true = rw (same) (same_bytes_refl c.message) in
      let path : on_echo net now i bytes c ≡ maybe_exit_wait_loop (matched now i message rest c) =
        ap
          (λ b.
            if b then answer net now i (link_at c i).inflight c else on_echo_mismatch net now i c)
          all_same
        ∙ (ap (λ queue. answer net now i queue c) e ∙ on_match-opened message rest c up) in
      subst (SameBooks (matched now i message rest c)) (sym path)
        (maybe_exit_wait_loop-SameBooks (matched now i message rest c))

module _ (now i : ℕ) where
  -- The link of an answered message, and that it is still there.
  pub answered_there :
      (l1 : Link) (message : InflightMessage) (rest : List InflightMessage) (c d : Client)
      → i < length c.links
      → SameBooks (matched now i message rest (set_link i l1 c)) d
      → i < length d.links
  answered_there l1 message rest c d there same =
      let c1 = set_link i l1 c in
      let l2 = record (link_at c1 i) { inflight = rest } in
      omega (
        arith,
        there,
        length-update_at i l1 c.links,
        length-update_at i l2 c1.links,
        ap length same.links,
      )

  pub answered_link :
      (l1 : Link) (message : InflightMessage) (rest : List InflightMessage) (c d : Client)
      → i < length c.links
      → SameBooks (matched now i message rest (set_link i l1 c)) d
      → link_at d i ≡ record l1 { inflight = rest }
  answered_link l1 message rest c d there same =
      let c1 = set_link i l1 c in
      let l2 = record (link_at c1 i) { inflight = rest } in
      let there1 : i < length c1.links = omega (arith, there, length-update_at i l1 c.links) in
      ap (get_or no_link i) same.links
      ∙ (get_or-update_at i l2 c1.links there1
          ∙ ap {A = Link} {B = Link} (λ x. record x { inflight = rest })
              (get_or-update_at i l1 c.links there))
