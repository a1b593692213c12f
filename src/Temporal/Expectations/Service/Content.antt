-- ===== src/Temporal/Expectations/Service/Content.antt =====
-- What the range of an expectation says of the history.
use mathlib.Core.Path.{subst}
use openassetwatch.Prelude.{
  ℕ, ◌*◌, ◌≤◌, ◌<◌, ◌≡◌, refl, sym, ap, ◌∙◌, ◌+◌, ◌⊎◌, inl, inr, String, none, some, List, length,
  count_if,
}
use openassetwatch.Temporal.Result.{ok}
use openassetwatch.Temporal.Clock.{Stamp, day, minus_days-eq-ok}
use openassetwatch.Temporal.Vocabulary.{BlockedReason}
use openassetwatch.Temporal.Identity.{Hashing}
use openassetwatch.Temporal.Contracts.Signal.{Signal}
use openassetwatch.Temporal.Contracts.Series.{Series}
use openassetwatch.Temporal.Contracts.Expectation.{Expectation, history_buckets}
use openassetwatch.Temporal.Expectations.Range.{Range}
use openassetwatch.Temporal.Expectations.Range.Laws.{is_within, robust_expected_range-covers}
use openassetwatch.Temporal.Expectations.Samples.{
  Sample, primary_method, usable_signals, method_sample, minimum_observations,
}
use openassetwatch.Temporal.Expectations.Service.{
  Projection, ExpectationRequest, Accepted, sample_values, computed_outcome, expectation_of,
  expectation, history_request,
}
use openassetwatch.Temporal.Expectations.Service.Values.{
  outcome_of-eq-ok, length-method_sample_values,
}
use openassetwatch.Temporal.Expectations.Service.Replay.{IsMade, expectation-IsGrounded}

-- An expectation without a range, since its sample is too small.
pub record IsBlocked (s : Sample) (e : Expectation) : Type 0 where
  pub few : length s.signals < minimum_observations s.method
  pub expected : e.expected ≡ none
  pub lower : e.lower ≡ none
  pub upper : e.upper ≡ none
  pub reason : e.blocked_reason ≡ some BlockedReason.insufficient_usable_history

-- An expectation with a range that holds at least half of its sample.
pub record HasRange (s : Sample) (e : Expectation) : Type 0 where
  pub enough : minimum_observations s.method ≤ length s.signals
  pub range : Range
  pub expected : e.expected ≡ some range.expected
  pub lower : e.lower ≡ some range.lower
  pub upper : e.upper ≡ some range.upper
  pub reason : e.blocked_reason ≡ none
  pub covers : length s.signals ≤ 2 * count_if (is_within range) (sample_values s.signals)

-- The sample that an expectation was made from, and what it made of it.
pub record IsEstimate (metric_key : String) (history : List Signal) (e : Expectation) : Type 0 where
  pub sample : Sample
  pub sampled :
      method_sample (primary_method metric_key) (usable_signals history) e.target_bucket_start
      ≡ ok sample
  pub method : e.method ≡ sample.method
  pub count : e.method_sample_count ≡ length sample.signals
  pub estimate : IsBlocked sample e ⊎ HasRange sample e

IsMade→IsEstimate :
    (h : Hashing) (a : Accepted) (k s : String) (start : ℕ) (history : List Signal)
    {e : Expectation}
    → IsMade h a k s start history e
    → IsEstimate k history e
unfolding expectation_of computed_outcome
IsMade→IsEstimate h a k s start history {e} m = rw m.made (record {
  sample = m.sample;
  sampled = m.sampled;
  method = refl;
  count = refl;
  estimate = elim (outcome_of-eq-ok (length (usable_signals history)) m.sample m.decided) [
    | inl (few, blocked) ↦ inl (record {
      few = few;
      expected = rw blocked;
      lower = rw blocked;
      upper = rw blocked;
      reason = rw blocked;
    })
    | inr c ↦ inr (record {
      enough = c.enough;
      range = c.range;
      expected = rw c.outcome;
      lower = rw c.outcome;
      upper = rw c.outcome;
      reason = rw c.outcome;
      covers =
          rw (← length-method_sample_values (primary_method k) history a.target m.sampled)
            (robust_expected_range-covers (sample_values m.sample.signals) c.computed);
    })
  ];
})

-- The history that an expectation was made from.
pub record IsAnswered (project : Projection) (r : ExpectationRequest) (e : Expectation)
    : Type 0 where
  pub history_start : ℕ
  pub history : Series
  pub answered : project (history_request r history_start e.target_bucket_start) ≡ ok history
  pub begun : e.target_bucket_start ≡ history_start + history_buckets * day
  pub estimate : IsEstimate r.metric_key history.signals e

IsMade-target :
    {h : Hashing} {a : Accepted} {k s : String} {start : ℕ} {history : List Signal}
    {e : Expectation}
    → IsMade h a k s start history e
    → e.target_bucket_start ≡ a.target
unfolding expectation_of
IsMade-target m = ap (λ (x : Expectation). x.target_bucket_start) m.made

-- A returned expectation was made from the history that the projection gave for the 56 days before
-- its target: from the sample that its metric's method takes of the usable signals. It is blocked
-- with no range if that sample is smaller than the method's minimum, and else its range holds at
-- least half of the sample's values.
pub expectation-IsAnswered :
    (h : Hashing) (project : Projection) (now : Stamp) (r : ExpectationRequest) {e : Expectation}
    → expectation h project now r ≡ ok e
    → IsAnswered project r e
expectation-IsAnswered h project now r {e} q =
    let g = expectation-IsGrounded h project now r q in
    let t : e.target_bucket_start ≡ g.accepted.target = IsMade-target g.made in
    record {
      history_start = g.history_start;
      history = g.history;
      answered =
          subst (λ x. project (history_request r g.history_start x) ≡ ok g.history) (sym t)
            g.answered;
      begun = t ∙ sym (minus_days-eq-ok g.accepted.target history_buckets g.history_start g.begun);
      estimate =
          IsMade→IsEstimate h g.accepted r.metric_key r.site_id g.history_start g.history.signals
            g.made;
    }
