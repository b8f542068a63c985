-- ===== src/Http/Ledger/Ending.antt =====
-- The books when a request ends: its response is complete, its stream is reset, or the
-- pool fails it (engine/source/client/{benchmark_client_impl,stream_decoder}.cc).
use sortie.Prelude.{
  ap, ◌==◌, update_at, get_or, ℕ, ◌+◌, ◌-◌, ◌<◌, ◌≡◌, refl, sym, ◌∙◌, inl, inr, Bool, true, false,
  not, ◌&&◌, Option, List, [], ◌∷◌, arith, ltb, if◌then◌else◌, Bool-cases, Option-cases, one_if,
}
use mathlib.Core.Path.{subst}
use sortie.Http.Decoding.{finish_decoder, decoder_complete, record_response}
use sortie.Prelude.Words.{add64}
use sortie.Prelude.Updates.{
  total-update_same, total-update_in, total, total-update_at, length-update_at, counted_in_range,
  amend,
}
use sortie.Http.{
  Statistics, set_decoder, StreamResetReason, Headers, Counters, Decoder, Client, Plugin,
  Surroundings, no_decoder, decoder_at,
}
use sortie.Http.Counting.{
  status_of, score, on_request_done, export_latency, on_complete, handle_response_data,
  data_failures, headers_failures,
}
use sortie.Http.Ledger.{ended_with, Books, outstanding, BooksFor, BooksWith}
use sortie.Http.Ledger.Scoring.{score-shape, score-Scored, Scored}

module _ (requests due : ℕ) (decoders : List Decoder) (completed : List (ℕ × (Bool × Bool)))
    (outstanding_now initiated done_so_far : ℕ) (grpc : Bool) (statuses : List (Option ℕ × ℕ))
    (reasons : List (StreamResetReason × ℕ)) where
  abbrev At : Counters → Type 0
  At n =
      BooksFor requests due decoders completed outstanding_now initiated done_so_far grpc statuses
        reasons n

  if-At : (b : Bool) (n m : Counters) → At n → At m → At (if b then n else m)
  if-At true n m v w = v
  if-At false n m v w = w

  headers_failures-At :
      (headers : Option Headers) (plugins : List Plugin) (n : Counters)
      → At n
      → At (headers_failures headers plugins n)
  unfolding headers_failures
  headers_failures-At headers [] n v = v
  headers_failures-At headers (plugin ∷ plugins) n v =
      let counted : Counters = record n {
        user_defined_plugin_handle_headers_failure =
            add64 n.user_defined_plugin_handle_headers_failure 1;
      } in
      headers_failures-At headers plugins (if plugin.takes_headers headers then n else counted)
        (if-At (plugin.takes_headers headers) n counted v v)

  data_failures-At :
      (bytes : List ℕ) (plugins : List Plugin) (n : Counters)
      → At n
      → At (data_failures bytes plugins n)
  unfolding data_failures
  data_failures-At bytes [] n v = v
  data_failures-At bytes (plugin ∷ plugins) n v =
      let counted : Counters = record n {
        user_defined_plugin_handle_data_failure = add64 n.user_defined_plugin_handle_data_failure 1;
      } in
      data_failures-At bytes plugins (if plugin.takes_data bytes then n else counted)
        (if-At (plugin.takes_data bytes) n counted v v)

pub handle_response_data-Books :
    (requests due : ℕ) (around : Surroundings) (bytes : List ℕ) (c : Client)
    → BooksWith requests due c
    → BooksWith requests due (handle_response_data around bytes c)
unfolding handle_response_data
handle_response_data-Books requests due around bytes c v =
    data_failures-At requests due c.decoders c.completed c.requests_outstanding c.requests_initiated
      c.requests_completed c.grpc c.grpc_status_counters c.stream_reset_reason_counters bytes
      around.plugins c.counters v

-- A decoder that is deleted is outstanding no more.
abbrev pub delete : Decoder → Decoder
delete d = record d { deleted = true }

not_ended : (k : ℕ) (d : Decoder) → outstanding d ≡ 1 → ended_with k d ≡ 0
not_ended k d e = elim (Bool-cases d.deleted) [
  | inl over ↦ absurd (omega (arith, e, ap (λ b. one_if (not b)) over))
  | inr there ↦ rw (there) refl
]

pub delete_one :
    (i : ℕ) (decoders : List Decoder)
    → outstanding (get_or no_decoder i decoders) ≡ 1
    → total outstanding (amend no_decoder i delete decoders) + 1 ≡ total outstanding decoders
delete_one i decoders e =
    let there = counted_in_range outstanding no_decoder i decoders refl (omega (arith, e)) in
    let change =
      total-update_at outstanding no_decoder i (delete (get_or no_decoder i decoders)) decoders refl
        (inr there) in
    omega (arith, change, e)

-- It has ended then, with its callback.
pub end_one :
    (k i : ℕ) (decoders : List Decoder)
    → outstanding (get_or no_decoder i decoders) ≡ 1
    → total (ended_with k) (amend no_decoder i delete decoders)
      ≡ total (ended_with k) decoders
        + one_if ((get_or no_decoder i decoders).caller_completion_callback == k)
end_one k i decoders e =
    let there = counted_in_range outstanding no_decoder i decoders refl (omega (arith, e)) in
    let change =
      total-update_in (ended_with k) no_decoder i (delete (get_or no_decoder i decoders)) decoders
        there in
    omega (arith, change, not_ended k (get_or no_decoder i decoders) e)

-- One fewer, or none fewer of none.
abbrev pub fewer : ℕ → ℕ
fewer k = if ltb 0 k then k - 1 else k

-- A request completes: its score is in, its decoder is deleted, its callback called.
completed-Books :
    (requests due i : ℕ) (call : ℕ × (Bool × Bool)) (c : Client) (statuses : List (Option ℕ × ℕ))
    (m : Counters)
    → outstanding (decoder_at c i) ≡ 1
    → call.0 ≡ (decoder_at c i).caller_completion_callback
    → Scored due c.grpc c.grpc_status_counters statuses c.counters m
    → BooksWith requests due c
    → BooksFor requests 0
        (amend no_decoder i delete c.decoders)
        (call ∷ c.completed)
        (fewer c.requests_outstanding)
        c.requests_initiated
        (add64 c.requests_completed 1)
        c.grpc
        statuses
        c.stream_reset_reason_counters
        m
completed-Books requests due i call c statuses m live its s v =
    let one_less = delete_one i c.decoders live in
    let some_there : 0 < c.requests_outstanding = omega (arith, v.waiting, one_less) in
    let less : fewer c.requests_outstanding ≡ c.requests_outstanding - 1 =
      ground (arith, some_there) in
    record {
      there = length-update_at i (delete (decoder_at c i)) c.decoders ∙ v.there;
      calls = omega (arith, v.calls, one_less);
      owed = λ k.
          let same : one_if (call.0 == k)
              ≡ one_if ((decoder_at c i).caller_completion_callback == k) =
            ap (λ b. one_if (b == k)) its in
          omega (arith, v.owed k, end_one k i c.decoders live, same);
      waiting = omega (arith, less, v.waiting, one_less);
      initiated_all = v.initiated_all;
      ends = omega (arith, v.ends, one_less, s.same_failures);
      scored = λ e. omega (arith, v.scored e, s.answered e);
      tracked = λ e. omega (arith, v.tracked e, s.tracks e);
      phased = omega (arith, v.phased, s.same_phases, s.reset);
      reasoned = omega (arith, v.reasoned, s.reset);
      sided = omega (arith, v.sided, s.same_sides, s.same_connection);
      none_lost = s.same_lost ∙ v.none_lost;
      word = omega arith;
    }

record_response-shape :
    (now : ℕ) (d : Decoder) (c : Client)
    → record_response now d c ≡ record c { statistic = (record_response now d c).statistic }
unfolding record_response export_latency
record_response-shape now d c = elim (Option-cases d.response_code) [
  | inl missing ↦ rw (missing) refl
  | inr (code, there) ↦ rw (there) refl
]

module _ (around : Surroundings) (requests : ℕ) where
  on_complete-Books :
      (i : ℕ) (complete success : Bool) (headers : Option Headers) (status : Option ℕ) (c : Client)
      → outstanding (decoder_at c i) ≡ 1
      → BooksWith requests (one_if (not success)) c
      → Books requests
          (finish_decoder i complete success (on_complete around success headers status c))
  unfolding on_complete on_request_done
  on_complete-Books i complete success headers status c live v =
      let k = on_request_done (record c { requests_completed = add64 c.requests_completed 1 }) in
      let s = score success (status_of headers) status k in
      let call : ℕ × (Bool × Bool) =
        ((decoder_at c i).caller_completion_callback, (complete, success)) in
      let scored : Scored (one_if (not success)) c.grpc c.grpc_status_counters
          s.grpc_status_counters c.counters s.counters =
        score-Scored success (status_of headers) status k in
      subst
        (λ sc. Books requests (
          finish_decoder i complete success
            (record sc { counters = headers_failures headers around.plugins sc.counters })))
        (sym (score-shape success (status_of headers) status k))
        (headers_failures-At requests 0 (amend no_decoder i delete c.decoders) (call ∷ c.completed)
          (fewer c.requests_outstanding) c.requests_initiated (add64 c.requests_completed 1) c.grpc
          s.grpc_status_counters c.stream_reset_reason_counters headers around.plugins s.counters
          (completed-Books requests (one_if (not success)) i call c s.grpc_status_counters
            s.counters live refl scored v))

  pub decoder_complete-Books :
      (now i : ℕ) (success : Bool) (c : Client)
      → outstanding (decoder_at c i) ≡ 1
      → BooksWith requests (one_if (not success)) c
      → Books requests (decoder_complete around now i success c)
  unfolding decoder_complete
  decoder_complete-Books now i success c live v =
      let d = decoder_at c i in
      let ended : Client → Client = λ timed. finish_decoder i d.complete success (
        on_complete around success d.response_headers d.decoder_status (record timed {
          statistic = record timed.statistic {
            response_body_size_statistic =
                d.bytes_sent ∷ timed.statistic.response_body_size_statistic;
          };
        })) in
      let kept : (s : Statistics) → Books requests (ended (record c { statistic = s })) = λ s.
        on_complete-Books i d.complete success d.response_headers d.decoder_status
          (record c {
            statistic = record s {
              response_body_size_statistic = d.bytes_sent ∷ s.response_body_size_statistic;
            };
          })
          live v in
      elim (Bool-cases (success && d.measures)) [
        | inl measured ↦ rw (measured) (
            subst (λ timed. Books requests (ended timed)) (sym (record_response-shape now d c))
              (kept (record_response now d c).statistic))
        | inr unmeasured ↦ rw (unmeasured) (kept c.statistic)
      ]

-- A change of a decoder that leaves it outstanding or not.
pub touched-Books :
    (requests due i : ℕ) (d : Decoder) (c : Client)
    → outstanding d ≡ outstanding (decoder_at c i)
    → ((k : ℕ) → ended_with k d ≡ ended_with k (decoder_at c i))
    → BooksWith requests due c
    → BooksWith requests due (set_decoder i d c)
touched-Books requests due i d c e its v =
    let change =
      total-update_at outstanding no_decoder i d c.decoders refl (inl (omega (arith, e))) in
    let same : total outstanding (update_at i (λ old. d) c.decoders)
        ≡ total outstanding c.decoders =
      omega (arith, change, e) in
    record {
      there = length-update_at i d c.decoders ∙ v.there;
      calls = omega (arith, v.calls, same);
      owed =
          λ k. v.owed k ∙ sym (total-update_same (ended_with k) no_decoder i d c.decoders (its k));
      waiting = omega (arith, v.waiting, same);
      initiated_all = v.initiated_all;
      ends = omega (arith, v.ends, same);
      scored = v.scored;
      tracked = v.tracked;
      phased = v.phased;
      reasoned = v.reasoned;
      sided = v.sided;
      none_lost = v.none_lost;
      word = v.word;
    }
