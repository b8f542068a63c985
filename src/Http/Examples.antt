-- ===== src/Http/Examples.antt =====
-- A client with two requests, and the theorems applied to it.
use sortie.Http.Counting.{headers_failures, count_status, score, on_request_done, on_complete}
use sortie.Prelude.Words.{u64_mod, sub64}
use sortie.Prelude.{◌+◌, ◌%◌, ◌≡◌, refl, true, false, none, some, [], arith, length}
use sortie.Http.Ledger.History.{headers_came, request_came, no_step, one_more, Run}
use sortie.Http.Ledger.Finishing.{requests_add_up, finish-Accounted, Accounted}
use sortie.Http.Decoding.{decoder_complete, decode_headers}
use sortie.Prelude.Updates.{total}
use sortie.Http.{http1, Headers, Client, Surroundings, Limits, configure, benchmark_client}
use sortie.Http.Life.{
  content_length, is_backed_up, on_pool, start, start_next, Network, try_start_request, finish,
}
use sortie.Http.Ledger.{ended_with, call_of, outstanding, failures}

abbrev quiet_surroundings : Surroundings
quiet_surroundings = record { plugins = []; atoi_u64 = λ s. none; atoi_i64 = λ s. none }

-- The pool queues every request.
abbrev queueing : Network
queueing = record {
  has_pool = λ c. true;
  next_request = λ c. some (record { content_length = none; body = [] });
  pool_raises = λ c i. none;
}

abbrev limits : Limits
limits = record {
  connections = 10;
  pending_requests = 10;
  active_requests = 10;
  seconds = 5;
  scores_grpc = false;
}

abbrev fresh : Client
fresh = configure limits (benchmark_client http1 true false)

abbrev ok : Headers
ok = record { byte_size = 20; status = 200; grpc_status = none; timing = [] }

abbrev one : Client
one = (try_start_request quiet_surroundings queueing 100 7 fresh).0

abbrev two : Client
two = (try_start_request quiet_surroundings queueing 200 8 one).0

-- The first request got its response; the second is outstanding.
abbrev used : Client
used = decode_headers quiet_surroundings 900 0 ok true two

used-Run : Run quiet_surroundings queueing 2 fresh used
unfolding try_start_request start_next start on_pool is_backed_up configure benchmark_client
    content_length
used-Run =
    one_more
      (one_more (one_more (no_step fresh) (request_came 100 7 fresh)) (request_came 200 8 one))
      (headers_came 900 0 ok true two refl)

still_going : used.finished ≡ false
unfolding try_start_request start_next start on_pool is_backed_up configure benchmark_client
    content_length decode_headers decoder_complete on_complete on_request_done score count_status
    headers_failures
still_going = refl

-- The second request is lost.
finish-Accounted_example :
    Accounted 2 (finish [] 1_000 2_000 used).counters (finish [] 1_000 2_000 used).grpc
finish-Accounted_example =
    finish-Accounted quiet_surroundings queueing http1 true false limits 2 1_000 2_000 used []
      (omega arith) used-Run still_going tt

requests_add_up_example :
    (length used.decoders ≡ 2)
    × (total (call_of 7) used.completed ≡ total (ended_with 7) used.decoders)
    × (length used.completed + total outstanding used.decoders ≡ 2)
    × (used.requests_outstanding ≡ total outstanding used.decoders)
    × (sub64 used.requests_initiated used.requests_completed % u64_mod
        ≡ (used.requests_outstanding + failures used.counters) % u64_mod)
requests_add_up_example =
    requests_add_up quiet_surroundings queueing http1 true false limits 2 7 used (omega arith)
      used-Run
