-- ===== src/Statistic/Native.antt =====
-- Statistics written and read back by the program itself, and the summary of a statistic of a run
-- in flight (engine/source/common/statistic_impl.cc).
use sortie.Prelude.Words.{u64_mod}
use sortie.Prelude.{
  ℕ, ◌%◌, ◌<◌, ◌≡◌, refl, inl, inr, Bool, true, false, Option, none, some, List, [], ◌∷◌, arith,
  ◌==◌, ==_iff, if◌then◌else◌, Bool-cases, length,
}
use sortie.Statistic.{
  number, streaming_pvariance, new_streaming, streaming_mean, Streaming, Simple, Double, Base,
  no_values, Floats,
}
use sortie.Statistic.Combining.{streaming-Describes, streaming}

-- The messages of engine/internal_proto/statistic/statistic.proto.
module _ (f : Floats) where
  pub record SimpleMessage : Type 0 where
    pub id : List ℕ
    pub count : ℕ
    pub min_field : ℕ
    pub max_field : ℕ
    pub sum_x_field : Double f
    pub sum_x2_field : Double f

  pub record StreamingMessage : Type 0 where
    pub id : List ℕ
    pub count : ℕ
    pub min_field : ℕ
    pub max_field : ℕ
    pub mean_field : Double f
    pub variance_field : Double f

-- SerializeToString() and ParseFromString().
pub record Protobuf (M : Type 0) : Type 0 where
  pub serialize : M → List ℕ
  pub parse : List ℕ → Option M

-- The documented behaviour on one message: what is written is parsed.
abbrev pub ParsesBack : {M : Type 0} → Protobuf M → M → Type 0
ParsesBack proto message = proto.parse (proto.serialize message) ≡ some message

module _ (f : Floats) (proto : Protobuf (SimpleMessage f)) where
  unfoldable pub serialize_simple : Simple f → List ℕ
  serialize_simple s = proto.serialize (record {
    id = s.base.id;
    count = s.base.count;
    min_field = s.base.min_value;
    max_field = s.base.max_value;
    sum_x_field = s.sum_x;
    sum_x2_field = s.sum_x2;
  })

  -- The status, which is whether it could, and the statistic after it.
  unfoldable pub deserialize_simple : List ℕ → Simple f → Bool × Simple f
  deserialize_simple bytes s = elim (proto.parse bytes) [
    | none ↦ (false, s)
    | some m ↦ (
      true,
      record {
        base = record {
          id = m.id;
          min_value = m.min_field;
          max_value = m.max_field;
          count = m.count;
        };
        sum_x = m.sum_x_field;
        sum_x2 = m.sum_x2_field;
      },
    )
  ]

module _ (f : Floats) (proto : Protobuf (StreamingMessage f)) where
  unfoldable pub serialize_streaming : Streaming f → List ℕ
  serialize_streaming s = proto.serialize (record {
    id = s.base.id;
    count = s.base.count;
    min_field = s.base.min_value;
    max_field = s.base.max_value;
    mean_field = s.mean_so_far;
    variance_field = s.accumulated_variance;
  })

  unfoldable pub deserialize_streaming : List ℕ → Streaming f → Bool × Streaming f
  deserialize_streaming bytes s = elim (proto.parse bytes) [
    | none ↦ (false, s)
    | some m ↦ (
      true,
      record {
        base = record {
          id = m.id;
          min_value = m.min_field;
          max_value = m.max_field;
          count = m.count;
        };
        mean_so_far = m.mean_field;
        accumulated_variance = m.variance_field;
      },
    )
  ]

-- summaryOf(), on what it asks of a statistic.
pub record View (f : Floats) : Type 0 where
  pub shown : Base
  pub mean : Double f
  pub pvariance : Double f

module _ (f : Floats) where
  unfoldable pub summary_of : View f → Streaming f
  summary_of v =
      if v.shown.count == 0
      then record (new_streaming f) { base = record no_values { id = v.shown.id } }
      else record {
        base = v.shown;
        mean_so_far = v.mean;
        accumulated_variance =
            if f.is_nan v.pvariance
            then number f 0
            else f.ops.mul v.pvariance (number f v.shown.count);
      }

  abbrev pub view : Streaming f → View f
  view s = record { shown = s.base; mean = streaming_mean f s; pvariance = streaming_pvariance f s }

-- A statistic that is written and read back into any other is itself again; bytes that do not
-- parse are refused and leave the other as it was. Both hold for the simple and for the streaming
-- class. Protobuf is taken to parse the message that it wrote.
pub deserialize-serialize :
    (f : Floats) (simple_proto : Protobuf (SimpleMessage f))
    (streaming_proto : Protobuf (StreamingMessage f)) (s t : Simple f) (u v : Streaming f)
    (garbage : List ℕ)
    → ((m : SimpleMessage f) → ParsesBack simple_proto m)
    → ((m : StreamingMessage f) → ParsesBack streaming_proto m)
    → simple_proto.parse garbage ≡ none
    → streaming_proto.parse garbage ≡ none
    → (deserialize_simple f simple_proto (serialize_simple f simple_proto s) t ≡ (true, s))
      × (deserialize_streaming f streaming_proto (serialize_streaming f streaming_proto u) v
          ≡ (true, u))
      × (deserialize_simple f simple_proto garbage t ≡ (false, t))
      × (deserialize_streaming f streaming_proto garbage v ≡ (false, v))
unfolding deserialize_simple serialize_simple deserialize_streaming serialize_streaming
deserialize-serialize f simple_proto streaming_proto s t u v garbage simple_back streaming_back bad
      bad_too =
    let m : SimpleMessage f = record {
      id = s.base.id;
      count = s.base.count;
      min_field = s.base.min_value;
      max_field = s.base.max_value;
      sum_x_field = s.sum_x;
      sum_x2_field = s.sum_x2;
    } in
    let n : StreamingMessage f = record {
      id = u.base.id;
      count = u.base.count;
      min_field = u.base.min_value;
      max_field = u.base.max_value;
      mean_field = u.mean_so_far;
      variance_field = u.accumulated_variance;
    } in
    (
      rw (simple_back m, deserialize_simple) refl,
      rw (streaming_back n, deserialize_streaming) refl,
      rw (bad, deserialize_simple) refl,
      rw (bad_too, deserialize_streaming) refl,
    )

-- The summary of a streaming statistic of any values has the extremes, the number and the mean
-- that the statistic itself has. Fewer than 2^64 values are assumed.
pub summary_of-view :
    (f : Floats) (values : List ℕ)
    → length values < u64_mod
    → ((summary_of f (view f (streaming f values))).base ≡ (streaming f values).base)
      × ((summary_of f (view f (streaming f values))).mean_so_far
          ≡ (streaming f values).mean_so_far)
unfolding summary_of streaming_mean
summary_of-view f [] few = (refl, refl)
summary_of-view f (value ∷ values) few =
    let total = (streaming f (value ∷ values)).base.count in
    let counted : total ≡ length (value ∷ values) % u64_mod =
      (streaming-Describes f (value ∷ values)).number_of in
    let there : (total == 0) ≡ false =
      elim (Bool-cases (total == 0)) as (λ _. (total == 0) ≡ false) [
        | inl none_there ↦ absurd (omega (arith, counted, few, (==_iff total 0).0 none_there))
        | inr some_there ↦ some_there
      ] in
    rw (there, summary_of) (refl, refl)
