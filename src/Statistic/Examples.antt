-- ===== src/Statistic/Examples.antt =====
-- Runs of the statistics on exact fractions, at which their theorems apply.
use sortie.Statistic.Native.{
  deserialize-serialize, serialize_streaming, deserialize_streaming, serialize_simple,
  deserialize_simple, Protobuf, StreamingMessage, SimpleMessage,
}
use sortie.Statistic.Combining.{
  durations_add_up, combine-Describes, in_memory, streaming, simple, Describes,
}
use sortie.Prelude.{
  ℕ, ◌+◌, ◌*◌, ◌<◌, ◌≡◌, refl, true, false, Option, none, some, List, [], ◌∷◌, arith, ◌==◌,
}
use sortie.RateLimiter.Examples.{fractions}
use sortie.Statistic.{
  new_streaming, add_to_streaming, one_billion, new_simple, combine_bases, add_to_base,
  combine_in_memory, combine_streaming, reported_min, combine_simple, Streaming, Simple,
  streaming_mean, set_duration_from_nanos, Floats,
}

abbrev exactly : Floats
exactly = record {
  ops = fractions;
  nan = (0, 0);
  is_nan = λ x. x.1 == 0;
  square = λ x. (x.0 * x.0, x.1 * x.1);
}

combine-Describes_example :
    Describes
      (30 ∷ 10 ∷ 20 ∷ 50 ∷ [])
      (combine_simple exactly (simple exactly (30 ∷ 10 ∷ [])) (simple exactly (20 ∷ 50 ∷ []))).base
    × Describes
        (30 ∷ 10 ∷ 20 ∷ 50 ∷ [])
        (combine_streaming exactly
          (streaming exactly (30 ∷ 10 ∷ []))
          (streaming exactly (20 ∷ 50 ∷ []))).base
    × Describes
        (30 ∷ 10 ∷ 20 ∷ 50 ∷ [])
        (combine_in_memory exactly
          (in_memory exactly (30 ∷ 10 ∷ []))
          (in_memory exactly (20 ∷ 50 ∷ []))).base
    × ((combine_in_memory exactly
          (in_memory exactly (30 ∷ 10 ∷ []))
          (in_memory exactly (20 ∷ 50 ∷ []))).samples
        ≡ 30 ∷ 10 ∷ 20 ∷ 50 ∷ [])
combine-Describes_example = combine-Describes exactly (30 ∷ 10 ∷ []) (20 ∷ 50 ∷ []) (omega arith)

long_durations :
    (2 * one_billion + 500_000_000 ≡ 2_500_000_000)
    × (500_000_000 < one_billion)
    × (0 * one_billion + 20 ≡ 20)
unfolding set_duration_from_nanos reported_min add_to_base
long_durations = durations_add_up 2_500_000_000 (30 ∷ 20 ∷ [])

-- Combining with a worker that recorded nothing keeps the mean.
mean_of_one_worker :
    streaming_mean exactly
      (combine_streaming exactly (streaming exactly (30 ∷ 10 ∷ [])) (new_streaming exactly))
    ≡ (120, 4)
unfolding streaming_mean combine_streaming combine_bases add_to_streaming add_to_base
mean_of_one_worker = refl

-- The messages as lists of numbers: a parser that reads back what it wrote.
abbrev of_simple : SimpleMessage exactly → List ℕ
of_simple m =
    m.count ∷ m.min_field ∷ m.max_field ∷ m.sum_x_field.0 ∷ m.sum_x_field.1 ∷ m.sum_x2_field.0
    ∷ m.sum_x2_field.1 ∷ m.id

abbrev to_simple : List ℕ → Option (SimpleMessage exactly)
to_simple (c ∷ l ∷ h ∷ x ∷ y ∷ z ∷ w ∷ rest) = some (record {
  id = rest;
  count = c;
  min_field = l;
  max_field = h;
  sum_x_field = (x, y);
  sum_x2_field = (z, w);
})
to_simple _ = none

abbrev of_streaming : StreamingMessage exactly → List ℕ
of_streaming m =
    m.count ∷ m.min_field ∷ m.max_field ∷ m.mean_field.0 ∷ m.mean_field.1 ∷ m.variance_field.0
    ∷ m.variance_field.1 ∷ m.id

abbrev to_streaming : List ℕ → Option (StreamingMessage exactly)
to_streaming (c ∷ l ∷ h ∷ x ∷ y ∷ z ∷ w ∷ rest) = some (record {
  id = rest;
  count = c;
  min_field = l;
  max_field = h;
  mean_field = (x, y);
  variance_field = (z, w);
})
to_streaming _ = none

abbrev simple_proto : Protobuf (SimpleMessage exactly)
simple_proto = record { serialize = of_simple; parse = to_simple }

abbrev streaming_proto : Protobuf (StreamingMessage exactly)
streaming_proto = record { serialize = of_streaming; parse = to_streaming }

abbrev one_simple : Simple exactly
one_simple = simple exactly (30 ∷ 10 ∷ [])

abbrev one_streaming : Streaming exactly
one_streaming = streaming exactly (30 ∷ 10 ∷ [])

deserialize-serialize_example :
    (deserialize_simple exactly simple_proto
        (serialize_simple exactly simple_proto one_simple)
        (new_simple exactly)
      ≡ (true, one_simple))
    × (deserialize_streaming exactly streaming_proto
          (serialize_streaming exactly streaming_proto one_streaming)
          (new_streaming exactly)
        ≡ (true, one_streaming))
    × (deserialize_simple exactly simple_proto (1 ∷ []) (new_simple exactly)
        ≡ (false, new_simple exactly))
    × (deserialize_streaming exactly streaming_proto (1 ∷ []) (new_streaming exactly)
        ≡ (false, new_streaming exactly))
deserialize-serialize_example =
    deserialize-serialize exactly simple_proto streaming_proto one_simple (new_simple exactly)
      one_streaming (new_streaming exactly) (1 ∷ []) (λ m. refl) (λ m. refl) refl refl
