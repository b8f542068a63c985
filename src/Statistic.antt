-- ===== src/Statistic.antt =====
-- The statistics of engine/source/common/statistic_impl.{h,cc}: what each class keeps of the values
-- that it records, and how two of a class are combined.
pub mod Combining
mod Examples
pub mod Native
use sortie.Prelude.Words.{add64, u64_mod}
use sortie.Prelude.{
  zero, suc, ℕ, ◌+◌, ◌-◌, ◌*◌, ◌/◌, ◌%◌, ◌≤◌, ◌<◌, min, max, ◌≡◌, refl, sym, ap, ◌∙◌, ◌≢◌, ◌↔◌, ◌⊎◌,
  inl, inr, Bool, true, false, not, ◌&&◌, ◌||◌, Option, none, some, List, [], ◌∷◌, ◌++◌, map, arith,
  ltb, leb, ◌==◌, ==_iff, if◌then◌else◌, Bool-cases, Option-cases, one_if, length, take, drop,
  length-append, take-append, drop-append, All, bit_and, bit_or, bit_xor,
}
use sortie.Prelude.Double.{Ops}

-- StatisticImpl: the extremes and the number of the values.
pub record Base : Type 0 where
  pub id : List ℕ
  pub min_value : ℕ
  pub max_value : ℕ
  pub count : ℕ

abbrev pub uint64_max : ℕ
uint64_max = u64_mod - 1

abbrev pub no_values : Base
no_values = record { id = []; min_value = uint64_max; max_value = 0; count = 0 }

-- StatisticImpl::addValue().
unfoldable pub add_to_base : ℕ → Base → Base
add_to_base value b = record b {
  min_value = min b.min_value value;
  max_value = max b.max_value value;
  count = add64 b.count 1;
}

-- What every combine() does with the extremes and the numbers.
unfoldable pub combine_bases : Base → Base → Base
combine_bases a b = record {
  id = [];
  min_value = min a.min_value b.min_value;
  max_value = max a.max_value b.max_value;
  count = add64 a.count b.count;
}

-- A google.protobuf.Duration.
pub record Duration : Type 0 where
  pub seconds : ℕ
  pub nanos : ℕ

abbrev pub one_billion : ℕ
one_billion = 1_000_000_000

unfoldable pub set_duration_from_nanos : ℕ → Duration
set_duration_from_nanos nanos = record {
  seconds = nanos / one_billion;
  nanos = nanos % one_billion;
}

-- toProto() reports the minimum of no values as none.
unfoldable pub reported_min : Base → Duration
unfolding set_duration_from_nanos
reported_min b = set_duration_from_nanos (if b.min_value == uint64_max then 0 else b.min_value)

-- What the program asks of doubles besides their arithmetic.
pub record Floats : Type 1 where
  pub ops : Ops
  pub nan : ops.Double
  pub is_nan : ops.Double → Bool
  pub square : ops.Double → ops.Double  -- pow(x, 2)

module _ (f : Floats) where
  abbrev pub Double : Type 0
  Double = f.ops.Double

  abbrev pub number : ℕ → Double
  number n = f.ops.of_nat n

  pub record Simple : Type 0 where
    pub base : Base
    pub sum_x : Double
    pub sum_x2 : Double

  abbrev pub new_simple : Simple
  new_simple = record { base = no_values; sum_x = number 0; sum_x2 = number 0 }

  unfoldable pub add_to_simple : ℕ → Simple → Simple
  unfolding add_to_base
  add_to_simple value s = record {
    base = add_to_base value s.base;
    sum_x = f.ops.add s.sum_x (number value);
    sum_x2 = f.ops.add s.sum_x2 (f.ops.mul (f.ops.mul (number 1) (number value)) (number value));
  }

  unfoldable pub simple_mean : Simple → Double
  simple_mean s = if s.base.count == 0 then f.nan else f.ops.div s.sum_x (number s.base.count)

  unfoldable pub simple_pvariance : Simple → Double
  unfolding simple_mean
  simple_pvariance s =
      if s.base.count == 0
      then f.nan
      else f.ops.sub (f.ops.div s.sum_x2 (number s.base.count))
          (f.ops.mul (simple_mean s) (simple_mean s))

  unfoldable pub combine_simple : Simple → Simple → Simple
  unfolding combine_bases
  combine_simple a b = record {
    base = combine_bases a.base b.base;
    sum_x = f.ops.add a.sum_x b.sum_x;
    sum_x2 = f.ops.add a.sum_x2 b.sum_x2;
  }

  pub record Streaming : Type 0 where
    pub base : Base
    pub mean_so_far : Double
    pub accumulated_variance : Double

  abbrev pub new_streaming : Streaming
  new_streaming = record {
    base = no_values;
    mean_so_far = number 0;
    accumulated_variance = number 0;
  }

  unfoldable pub add_to_streaming : ℕ → Streaming → Streaming
  unfolding add_to_base
  add_to_streaming value s =
      let counted = add_to_base value s.base in
      let delta = f.ops.sub (number value) s.mean_so_far in
      let delta_n = f.ops.div delta (number counted.count) in
      let grown =
        f.ops.mul (f.ops.mul delta delta_n) (f.ops.sub (number counted.count) (number 1)) in
      record {
        base = counted;
        mean_so_far = f.ops.add s.mean_so_far delta_n;
        accumulated_variance = f.ops.add s.accumulated_variance grown;
      }

  unfoldable pub streaming_mean : Streaming → Double
  streaming_mean s = if s.base.count == 0 then f.nan else s.mean_so_far

  unfoldable pub streaming_pvariance : Streaming → Double
  streaming_pvariance s =
      if s.base.count == 0 then f.nan else f.ops.div s.accumulated_variance (number s.base.count)

  -- A mean that is not a number counts as 0.
  abbrev pub or_zero : Double → Double
  or_zero mean = if f.is_nan mean then number 0 else mean

  unfoldable pub combine_streaming : Streaming → Streaming → Streaming
  unfolding combine_bases streaming_mean
  combine_streaming a b =
      let combined = combine_bases a.base b.base in
      let a_mean = or_zero (streaming_mean a) in
      let b_mean = or_zero (streaming_mean b) in
      let a_count = number a.base.count in
      let b_count = number b.base.count in
      let count = number combined.count in
      let spread =
        f.ops.div (f.ops.mul (f.ops.mul (f.square (f.ops.sub a_mean b_mean)) a_count) b_count)
          count in
      if combined.count == 0
      then record { base = combined; mean_so_far = number 0; accumulated_variance = number 0 }
      else record {
        base = combined;
        mean_so_far =
            f.ops.div (f.ops.add (f.ops.mul a_count a_mean) (f.ops.mul b_count b_mean)) count;
        accumulated_variance =
            f.ops.add (f.ops.add a.accumulated_variance b.accumulated_variance) spread;
      }

  pub record InMemory : Type 0 where
    pub base : Base
    pub samples : List ℕ
    pub streaming_stats : Streaming

  abbrev pub new_in_memory : InMemory
  new_in_memory = record { base = no_values; samples = []; streaming_stats = new_streaming }

  unfoldable pub add_to_in_memory : ℕ → InMemory → InMemory
  unfolding add_to_base add_to_streaming
  add_to_in_memory value s = record {
    base = add_to_base value s.base;
    samples = s.samples ++ value ∷ [];
    streaming_stats = add_to_streaming value s.streaming_stats;
  }

  -- Its number of values is that of the samples.
  unfoldable pub combine_in_memory : InMemory → InMemory → InMemory
  unfolding combine_streaming
  combine_in_memory a b = record {
    base = record {
      id = [];
      min_value = min a.base.min_value b.base.min_value;
      max_value = max a.base.max_value b.base.max_value;
      count = length (a.samples ++ b.samples);
    };
    samples = a.samples ++ b.samples;
    streaming_stats = combine_streaming a.streaming_stats b.streaming_stats;
  }
