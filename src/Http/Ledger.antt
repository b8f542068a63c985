-- ===== src/Http/Ledger.antt =====
-- The books of a BenchmarkClientHttpImpl: what its counters say of the requests that it accepted
-- (engine/source/client/benchmark_client_impl.{h,cc}).
pub mod Scoring
pub mod Ending
pub mod Decoding
pub mod Starting
pub mod History
pub mod Finishing
use sortie.Prelude.{
  zero, suc, ℕ, ◌+◌, ◌-◌, ◌*◌, ◌/◌, ◌%◌, ◌≤◌, ◌<◌, min, max, ◌≡◌, refl, sym, ap, ◌∙◌, ◌≢◌, ◌↔◌, ◌⊎◌,
  inl, inr, Bool, true, false, not, ◌&&◌, ◌||◌, Option, none, some, List, [], ◌∷◌, ◌++◌, map, arith,
  ltb, leb, ◌==◌, ==_iff, if◌then◌else◌, Bool-cases, Option-cases, one_if, length, take, drop,
  length-append, take-append, drop-append, All, bit_and, bit_or, bit_xor,
}
use sortie.Prelude.Words.{u64_mod}
use sortie.Prelude.Updates.{total}
use sortie.Http.{StreamResetReason, Decoder, Counters, Client}

-- A request is outstanding while its decoder is there.
abbrev pub outstanding : Decoder → ℕ
outstanding d = one_if (not d.deleted)

-- Whether a decoder with a completion callback has ended, and whether a call is of that callback.
abbrev pub ended_with : ℕ → Decoder → ℕ
ended_with callback d = one_if (d.deleted && d.caller_completion_callback == callback)

abbrev pub call_of : ℕ → ℕ × (Bool × Bool) → ℕ
call_of callback call = one_if (call.0 == callback)

abbrev pub answers : Counters → ℕ
answers n = n.http_1xx + n.http_2xx + (n.http_3xx + n.http_4xx) + (n.http_5xx + n.http_xxx)

abbrev pub phases : Counters → ℕ
phases n = n.stream_resets_before_headers + n.stream_resets_incomplete_body

abbrev pub failures : Counters → ℕ
failures n = n.pool_overflow + n.pool_connection_failure + n.pool_failure_timeout

abbrev pub sides : Counters → ℕ
sides n = n.pool_failure_local_connection_failure + n.pool_failure_remote_connection_failure

abbrev pub tally : {K : Type 0} → K × ℕ → ℕ
tally entry = entry.1

-- `requests` were accepted. Each has a decoder, which is outstanding or whose callback was called,
-- each callback as often as decoders with it have ended;
-- each completed, failed in the pool or is outstanding. What completed has a status or was reset;
-- in gRPC mode each has an entry under its grpc-status. A reset has a phase and a reason, a
-- connection failure a side. None is written off yet. `due` resets have been classified that are not yet counted. Counters
-- are 64-bit words.
pub record BooksOf (requests due : ℕ) (decoders : List Decoder)
    (completed : List (ℕ × (Bool × Bool))) (outstanding_now initiated done_so_far : ℕ) (grpc : Bool)
    (statuses : List (Option ℕ × ℕ)) (reasons : List (StreamResetReason × ℕ))
    (resets answered in_phases failed connection on_sides lost : ℕ) : Type 0 where
  pub there : length decoders ≡ requests
  pub calls : length completed + total outstanding decoders ≡ requests
  pub owed : (k : ℕ) → total (call_of k) completed ≡ total (ended_with k) decoders
  pub waiting : outstanding_now ≡ total outstanding decoders
  pub initiated_all : initiated ≡ requests % u64_mod
  pub ends : (done_so_far + failed + total outstanding decoders) % u64_mod ≡ requests % u64_mod
  pub scored : grpc ≡ false → (resets + answered) % u64_mod ≡ done_so_far % u64_mod
  pub tracked : grpc ≡ true → total tally statuses % u64_mod ≡ done_so_far % u64_mod
  pub phased : in_phases % u64_mod ≡ (resets + due) % u64_mod
  pub reasoned : total tally reasons % u64_mod ≡ (resets + due) % u64_mod
  pub sided : on_sides % u64_mod ≡ connection % u64_mod
  pub none_lost : lost ≡ 0
  pub word : done_so_far < u64_mod

abbrev pub BooksFor :
    ℕ
    → ℕ
    → List Decoder
    → List (ℕ × (Bool × Bool))
    → ℕ
    → ℕ
    → ℕ
    → Bool
    → List (Option ℕ × ℕ)
    → List (StreamResetReason × ℕ)
    → Counters
    → Type 0
BooksFor requests due decoders completed outstanding_now initiated done_so_far grpc statuses reasons
      n =
    BooksOf requests due decoders completed outstanding_now initiated done_so_far grpc statuses
      reasons n.stream_resets (answers n) (phases n) (failures n) n.pool_connection_failure
      (sides n) n.http_inflight_lost

abbrev pub BooksWith : ℕ → ℕ → Client → Type 0
BooksWith requests due c =
    BooksFor requests due c.decoders c.completed c.requests_outstanding c.requests_initiated
      c.requests_completed c.grpc c.grpc_status_counters c.stream_reset_reason_counters c.counters

abbrev pub Books : ℕ → Client → Type 0
Books requests c = BooksWith requests 0 c

pub if-BooksWith :
    (requests due : ℕ) (b : Bool) (c d : Client)
    → BooksWith requests due c
    → BooksWith requests due d
    → BooksWith requests due (if b then c else d)
if-BooksWith requests due true c d v w = v
if-BooksWith requests due false c d v w = w

pub counted-Books : (a b : ℕ) (c : Client) → a ≡ b → Books a c → Books b c
counted-Books a b c e v = record {
  there = v.there ∙ e;
  calls = v.calls ∙ e;
  owed = v.owed;
  waiting = v.waiting;
  initiated_all = omega (arith, v.initiated_all, e);
  ends = omega (arith, v.ends, e);
  scored = v.scored;
  tracked = v.tracked;
  phased = v.phased;
  reasoned = v.reasoned;
  sided = v.sided;
  none_lost = v.none_lost;
  word = v.word;
}

pub same-Books : (requests : ℕ) (c : Client) → Books requests c → Books (requests + 0) c
same-Books requests c v = counted-Books requests (requests + 0) c (omega arith) v
