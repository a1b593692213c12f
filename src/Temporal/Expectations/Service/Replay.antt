-- ===== src/Temporal/Expectations/Service/Replay.antt =====
-- What an expectation that was made rests on, and that making it later again gives the same.
use mathlib.Core.Path.{subst₃}
use openassetwatch.Prelude.{ℕ, ◌+◌, ◌≡◌, sym, ◌∙◌, ap, String, Option, List, arith, length, any}
use openassetwatch.Text.{Text}
use openassetwatch.Temporal.Result.{ok, >>=-eq-ok, raise_if, construct-eq-ok, same_ok}
use openassetwatch.Temporal.Clock.{Stamp, as_utc, day, minus_days}
use openassetwatch.Temporal.Identity.{Hashing}
use openassetwatch.Temporal.Contracts.Signal.{Signal}
use openassetwatch.Temporal.Contracts.Series.{Series}
use openassetwatch.Temporal.Contracts.Expectation.{
  Expectation, history_buckets, validate_expectation,
}
use openassetwatch.Temporal.Expectations.Digest.{temporal_history_digest, temporal_expectation_id}
use openassetwatch.Temporal.Expectations.Samples.{
  Sample, primary_method, usable_signals, method_sample,
}
use openassetwatch.Temporal.Expectations.Service.{
  Projection, ExpectationRequest, Accepted, Outcome, accept, history_request, outcome_of,
  expectation_of, expect, expectation,
}

-- How an expectation was made from a history.
pub record IsMade (h : Hashing) (a : Accepted) (metric_key site_id : String) (history_start : ℕ)
    (history : List Signal) (e : Expectation) : Type 0 where
  pub digest : Text
  pub sample : Sample
  pub outcome : Outcome
  pub identity : Text
  pub digested : temporal_history_digest h history ≡ ok digest
  pub sampled :
      method_sample (primary_method metric_key) (usable_signals history) a.target ≡ ok sample
  pub decided : outcome_of (length (usable_signals history)) sample ≡ ok outcome
  pub identified :
      temporal_expectation_id h metric_key site_id a.target
        (a.target + day)
        history_start
        a.target
        sample.method
        a.metric.projection_version
        digest
      ≡ ok identity
  pub made :
      e
      ≡ expectation_of a.metric metric_key site_id a.target a.calculation_time history_start history
          digest identity sample outcome
  pub valid : validate_expectation e ≡ ok tt

pub expect-IsMade :
    (h : Hashing) (a : Accepted) (metric_key site_id : String) (history_start : ℕ)
    (history : List Signal) {e : Expectation}
    → expect h a metric_key site_id history_start history ≡ ok e
    → IsMade h a metric_key site_id history_start history e
unfolding expect
expect-IsMade h a metric_key site_id history_start history q =
    let (_, _, q1) = >>=-eq-ok (raise_if (any _ history) _) _ q in
    let (digest, digested, q2) = >>=-eq-ok (temporal_history_digest h history) _ q1 in
    let (s, sampled, q3) =
      >>=-eq-ok (method_sample (primary_method metric_key) (usable_signals history) a.target) _
        q2 in
    let (o, decided, q4) = >>=-eq-ok (outcome_of (length (usable_signals history)) s) _ q3 in
    let (identity, identified, q5) =
      >>=-eq-ok
        (temporal_expectation_id h metric_key site_id a.target (a.target + day) history_start
          a.target s.method a.metric.projection_version digest)
        _ q4 in
    let (made, valid) = construct-eq-ok validate_expectation _ q5 in
    record {
      digest = digest;
      sample = s;
      outcome = o;
      identity = identity;
      digested = digested;
      sampled = sampled;
      decided = decided;
      identified = identified;
      made = made;
      valid = rw made valid;
    }

-- What an expectation that was returned rests on.
pub record IsGrounded (h : Hashing) (project : Projection) (now : Stamp) (r : ExpectationRequest)
    (e : Expectation) : Type 0 where
  pub accepted : Accepted
  pub history_start : ℕ
  pub history : Series
  pub guarded : accept now r ≡ ok accepted
  pub begun : minus_days accepted.target history_buckets ≡ ok history_start
  pub answered : project (history_request r history_start accepted.target) ≡ ok history
  pub made : IsMade h accepted r.metric_key r.site_id history_start history.signals e

pub expectation-IsGrounded :
    (h : Hashing) (project : Projection) (now : Stamp) (r : ExpectationRequest) {e : Expectation}
    → expectation h project now r ≡ ok e
    → IsGrounded h project now r e
unfolding expectation
expectation-IsGrounded h project now r q =
    let (a, guarded, q1) = >>=-eq-ok (accept now r) _ q in
    let (history_start, begun, q2) = >>=-eq-ok (minus_days a.target history_buckets) _ q1 in
    let (history, answered, q3) =
      >>=-eq-ok (project (history_request r history_start a.target)) _ q2 in
    record {
      accepted = a;
      history_start = history_start;
      history = history;
      guarded = guarded;
      begun = begun;
      answered = answered;
      made = expect-IsMade h a r.metric_key r.site_id history_start history.signals q3;
    }

-- The two acceptances of one request differ at most in their calculation time.
accept-same :
    (now now' : Stamp) (r : ExpectationRequest) (g : Option Stamp) {a b : Accepted}
    → accept now r ≡ ok a
    → accept now' (record r { generated_at = g }) ≡ ok b
    → b ≡ record a { calculation_time = b.calculation_time }
unfolding accept as_utc
accept-same now now' r g p q = ground arith

IsMade-same :
    (h : Hashing) (a : Accepted) (t : ℕ) (k s : String) (start : ℕ) (history : List Signal)
    {d e : Expectation}
    → IsMade h a k s start history d
    → IsMade h (record a { calculation_time = t }) k s start history e
    → e ≡ record d { generated_at = t }
unfolding expectation_of
IsMade-same h a t k s start history {d} {e} p q =
    let same_digest : p.digest ≡ q.digest = same_ok p.digested q.digested in
    let same_sample : p.sample ≡ q.sample = same_ok p.sampled q.sampled in
    let same_outcome : p.outcome ≡ q.outcome =
      same_ok p.decided (rw (← same_sample) at q.decided) in
    let same_identity : p.identity ≡ q.identity =
      same_ok p.identified (rw (← same_sample, ← same_digest) at q.identified) in
    rw (p.made, q.made, same_digest, same_sample, same_outcome, same_identity)

same_request :
    (project : Projection) (r : ExpectationRequest) (g : Option Stamp) {t t' start start' : ℕ}
    {history : Series}
    → t' ≡ t
    → start' ≡ start
    → project (history_request r start t) ≡ ok history
    → project (history_request (record r { generated_at = g }) start' t') ≡ ok history
unfolding history_request
same_request project r g p q e = rw (p, q) e

replayed :
    (h : Hashing) (a b : Accepted) (k s : String) (x y : ℕ) (u v : List Signal) {d e : Expectation}
    → b ≡ record a { calculation_time = b.calculation_time }
    → y ≡ x
    → v ≡ u
    → IsMade h a k s x u d
    → IsMade h b k s y v e
    → e ≡ record d { generated_at = e.generated_at }
replayed h a b k s x y u v {d} {e} p q r m n =
    let same : e ≡ record d { generated_at = b.calculation_time } =
      IsMade-same h a b.calculation_time k s x u m
        (subst₃ (λ b' y' v'. IsMade h b' k s y' v' e) p q r n) in
    same
    ∙ ap (λ (t : ℕ). record d { generated_at = t })
        (sym (ap (λ (z : Expectation). z.generated_at) same))

-- Asked again at any other time, with another clock or another generated_at, over the same
-- projection, a request that is answered both times gets the same expectation but for generated_at.
pub expectation_replays :
    (h : Hashing) (project : Projection) (now now' : Stamp) (r : ExpectationRequest)
    (g : Option Stamp) {d e : Expectation}
    → expectation h project now r ≡ ok d
    → expectation h project now' (record r { generated_at = g }) ≡ ok e
    → e ≡ record d { generated_at = e.generated_at }
expectation_replays h project now now' r g p q =
    let first = expectation-IsGrounded h project now r p in
    let again = expectation-IsGrounded h project now' (record r { generated_at = g }) q in
    let same = accept-same now now' r g first.guarded again.guarded in
    let target : again.accepted.target ≡ first.accepted.target =
      ap (λ (a : Accepted). a.target) same in
    let start : again.history_start ≡ first.history_start =
      same_ok again.begun (rw (← target) at first.begun) in
    let history : again.history ≡ first.history =
      same_ok again.answered (same_request project r g target start first.answered) in
    replayed h first.accepted again.accepted r.metric_key r.site_id first.history_start
      again.history_start first.history.signals again.history.signals same start
      (ap (λ (x : Series). x.signals) history) first.made again.made
