-- ===== src/Temporal/Deviations/Service/Directions.antt =====
-- The direction of an assessment does not depend on its support, and a candidate keeps up a deviation
-- (`_build_assessment` of backend/app/temporal_deviations.py).
use openassetwatch.Prelude.{
  ℕ, suc, ◌≡◌, refl, sym, ap, ◌∙◌, Option, none, some, true, List, [], ◌∷◌, length, length-append,
  arith,
}
use openassetwatch.Temporal.Result.{ok, same_ok}
use openassetwatch.Temporal.Vocabulary.{ReasonCode}
use openassetwatch.Temporal.Identity.{Hashing}
use openassetwatch.Temporal.Contracts.Signal.{Signal}
use openassetwatch.Temporal.Contracts.Expectation.{Expectation}
use openassetwatch.Temporal.Contracts.Policy.{Policy}
use openassetwatch.Temporal.Contracts.Assessment.{Assessment}
use openassetwatch.Temporal.Deviations.Verdict.{
  Verdict, verdict, verdict_for, asserted_verdict, evaluated_verdict, measured, persistent_verdict,
  blocking_reasons,
}
use openassetwatch.Temporal.Deviations.Support.{
  is_persisting, insert_assessment, sorted_assessments,
}
use openassetwatch.Temporal.Deviations.Assess.{Inputs, assessment_of}
use openassetwatch.Temporal.Deviations.Assess.Built.{IsBuilt}
use openassetwatch.Temporal.Deviations.Service.{reversed}

length-insert_assessment :
    (a : Assessment) (xs : List Assessment) → length (insert_assessment a xs) ≡ suc (length xs)
unfolding insert_assessment
length-insert_assessment a [] = refl
length-insert_assessment a (x ∷ xs) = ground (arith, length-insert_assessment a xs)

pub length-sorted_assessments : (xs : List Assessment) → length (sorted_assessments xs) ≡ length xs
unfolding sorted_assessments
length-sorted_assessments [] = refl
length-sorted_assessments (x ∷ xs) =
    omega (arith, length-insert_assessment x (sorted_assessments xs), length-sorted_assessments xs)

pub length-reversed : (xs : List Assessment) → length (reversed xs) ≡ length xs
unfolding reversed
length-reversed [] = refl
length-reversed (x ∷ xs) = omega (arith, length-append (reversed xs) (x ∷ []), length-reversed xs)

evaluated-direction :
    (p : Policy) (value mid low high : ℕ) (xs : List Assessment) {v : Verdict}
    → evaluated_verdict p value mid low high xs ≡ ok v
    → v.direction ≡ (measured value low high).0
unfolding evaluated_verdict measured persistent_verdict
evaluated-direction p value mid low high xs q = ground arith

asserted-direction :
    (p : Policy) (value mid low high : Option ℕ) (xs ys : List Assessment) {v w : Verdict}
    → asserted_verdict p value mid low high xs ≡ ok v
    → asserted_verdict p value mid low high ys ≡ ok w
    → w.direction ≡ v.direction
unfolding asserted_verdict
asserted-direction p none mid low high xs ys q s = cc
asserted-direction p (some o) none low high xs ys q s = cc
asserted-direction p (some o) (some m) none high xs ys q s = cc
asserted-direction p (some o) (some m) (some l) none xs ys q s = cc
asserted-direction p (some o) (some m) (some l) (some u) xs ys q s =
    evaluated-direction p o m l u ys s ∙ sym (evaluated-direction p o m l u xs q)

for-direction :
    (rs : List ReasonCode) (o : Signal) (e : Expectation) (p : Policy) (xs ys : List Assessment)
    {v w : Verdict}
    → verdict_for rs o e p xs ≡ ok v
    → verdict_for rs o e p ys ≡ ok w
    → w.direction ≡ v.direction
unfolding verdict_for
for-direction [] o e p xs ys q s = asserted-direction p o.value e.expected e.lower e.upper xs ys q s
for-direction (r ∷ rs) o e p xs ys q s =
    ap (λ (v : Verdict). v.direction) (same_ok s refl ∙ same_ok refl q)

-- The direction does not depend on the support.
verdict-direction :
    (o : Signal) (e : Expectation) (p : Policy) (xs ys : List Assessment) {v w : Verdict}
    → verdict o e p xs ≡ ok v
    → verdict o e p ys ≡ ok w
    → w.direction ≡ v.direction
unfolding verdict
verdict-direction o e p xs ys q s = for-direction (blocking_reasons o e p) o e p xs ys q s

pub IsBuilt-direction :
    {h : Hashing} {i : Inputs} {p : Policy} {t : ℕ} {xs ys : List Assessment} {a b : Assessment}
    → IsBuilt h i p t xs a
    → IsBuilt h i p t ys b
    → b.direction ≡ a.direction
unfolding assessment_of
IsBuilt-direction {i = i} {p = p} {xs = xs} {ys = ys} x y =
    let same =
      verdict-direction i.observation i.expectation p (sorted_assessments xs)
        (sorted_assessments ys) x.decided y.decided in
    rw (x.made, y.made) same

pub IsBuilt-persisting :
    {h : Hashing} {i : Inputs} {p : Policy} {t : ℕ} {xs : List Assessment} {a : Assessment}
    → IsBuilt h i p t xs a
    → a.candidate ≡ true
    → is_persisting a.assessment_state ≡ true
unfolding assessment_of verdict verdict_for asserted_verdict evaluated_verdict measured
    persistent_verdict is_persisting
IsBuilt-persisting {i = i} {p = p} {xs = xs} x y =
    let q = x.decided in let m = x.made in ground arith
