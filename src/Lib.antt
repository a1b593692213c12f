-- ===== src/Lib.antt =====
-- OpenAssetWatch, four subsystems of its hub: the temporal one (backend/app/temporal_contracts.py,
-- backend/app/temporal_projection.py, backend/app/temporal_expectations.py and
-- backend/app/temporal_deviations.py), the comparison of versions
-- (backend/app/version_intelligence.py) and the matching of components with advisories that rests on
-- it (backend/app/vulnerability_matching.py, backend/app/vulnerability_service.py), and the
-- correlation of affected matches with known exploited vulnerabilities
-- (backend/app/kev_correlation.py): what they compute, and why it is right.
--
-- The program. A store (backend/app/temporal_store.py) aggregates a metric of a site by UTC days. The
-- projection turns the aggregates of a window into a contiguous series of signals, one a day. The
-- expectation service asks the projection for the 56 days before a target day and computes a robust
-- range from the usable signals among them. The deviation service asks the projection for the target
-- day's signal and the expectation service for its range, compares them under the metric's policy,
-- and, where the policy wants a deviation to persist, assesses the days before. Every artifact is a
-- contract (a pydantic model) whose validator may refuse it, and carries an identity and a digest.
--
-- A version is normalised, checked against a safe alphabet and compared by the rules of its ecosystem:
-- SemVer, Debian, RPM, Maven, a generic form, or PEP 440. A reviewed range is a conjunction of bounds,
-- each a comparison, and says whether an installed version is affected, fixed or not affected.
-- Matching looks up the affected records that may be about a component, compares identities, applies
-- constraints and evaluates exact versions and ranges; the matches of one component and advisory are
-- aggregated into one.
--
-- The modules.
--   Prelude, Text: lists and tests over the native numbers; identifiers and digests as code points.
--   Temporal.Result: the services' errors as values. A contract's refusal, a plain ValueError and an
--     OverflowError have constructors of their own.
--   Temporal.Clock: a UTC datetime is the number of microseconds since the year 1; a datetime from
--     outside is a Stamp, with or without a timezone. Subtracting days may overflow, as in Python.
--   Temporal.Vocabulary, Temporal.Registry: the literal types, and TEMPORAL_METRICS.
--   Temporal.Identity: SHA-256, json.dumps and isoformat, which the repository does not define, are
--     the parameter Hashing; its one law is the form of hexdigest's result.
--   Temporal.Contracts: the validators of TemporalSignal, TemporalSignalSeriesResponse,
--     TemporalExpectation, TemporalDeviationPolicy and TemporalDeviationAssessment.
--   Temporal.Projection: Windows (validate_temporal_window, iter_daily_buckets), Signals (_signal and
--     its helpers), Service (TemporalProjectionService.series). The store is the parameter Store.
--   Temporal.Expectations: Range (robust_expected_range), Samples (_method_sample,
--     _quality_and_confidence; Days says which days they hold), Digest (temporal_history_digest, temporal_expectation_id), Service
--     (TemporalExpectationService.expectation). The projection is a parameter.
--   Temporal.Deviations: Policies, Identity (digests and identifiers), Verdict and Support and Assess
--     (_build_assessment), Inputs (_validate_request, _load_inputs, _validate_provenance), Service
--     (TemporalDeviationService.assessment). The projection and the expectation service are the
--     parameter Collaborators; from_projection_store fills it with the two services of one store.
--   Versions.Order: the outcomes of a comparison, and total preorders of tuples and sequences.
--   Versions.Characters: characters, numerals, tokens, and normalize_version_text
--     (backend/app/component_intelligence.py).
--   Versions.Schemes: the keys: Semver (_semver), Rpm (_split_epoch, _rpm_segments,
--     _generic_numeric), Maven (_maven). A raised ValueError is an error value.
--   Versions.Debian: _debian_compare, with the two indices as what is left of the two texts. Key
--     gives an independent description of its order, and Refinement relates the two.
--   Versions.Compare: compare_versions. packaging.version, which the repository does not define, is
--     the parameter Pep440: a reader and a total preorder.
--   Versions.Range: version_satisfies_range.
--   Vulnerability.Records: what matching reads of a component and of an advisory's affected record,
--     and the match that it returns. Names: normalized_token; purl_identity, which is not modelled,
--     and str.casefold are the parameter Naming.
--   Vulnerability.Outcomes, Vulnerability.Matching: backend/app/vulnerability_matching.py, from
--     _exact_version_status and _identity_match to match_component. Confidence is in hundredths.
--   Vulnerability.Index, Vulnerability.Evaluation: _candidate_index, the candidates of a component,
--     and _aggregate_advisory_matches (backend/app/vulnerability_service.py).
--   Vulnerability.Run: evaluate_vulnerabilities between its reads and its writes: the limits, the
--     loops over components and candidates, the groups, and the matches that are reconciled.
--   Vulnerability.Examples: a component, an advisory, and instances of the results.
--   Kev: exact_cve_aliases and the two correlations of backend/app/kev_correlation.py, with
--     normalize_cve of backend/app/kev_catalog.py. Batch relates the batch to the single correlation.
--   Versions.Examples: runs of the comparison, and instances of the results.
--   Temporal.Rows: _project_rows and _utc of backend/app/temporal_store.py. A row is a record of the
--     columns that the query returned, whose numbers are whole. Entries is about the dictionary that
--     is made, Collected about what the projection's loop makes of it.
--   Temporal.Examples: a small store, runs over it, and instances of the results.
--
-- Numbers. Values, ranges and distances are whole numbers of millionths, the quantum of the range;
-- the range is computed in parts of 1/40000 of a millionth, where nothing is rounded before the last
-- step. The code's Decimal keeps 28 digits, which is exact for values below 10^17. A relative change
-- is an exact fraction where the code has a float quotient; the code and its contract compute the
-- same quotient. The calendar's last year, where adding a day could overflow, is not modelled, and
-- neither is an overflow where the freshness of a bucket in the calendar's first days is computed.
--
-- Texts. A value that may be no text is an option of one. Versions are compared after the check of the
-- alphabet, so digits, letters and their lower case are those of ASCII.
--
-- Loops. The rounds of _debian_part_compare are fuel with the limit of the code itself, 256; a result
-- below says when they are enough. iter_daily_buckets runs on fuel, one more than the window's days;
-- that this is enough is a result below. The persistence loop is recursion on the number of turns
-- left, the others on lists.
--
-- Not modelled: the SQL of temporal_store.py and its metric_buckets, the HTTP handlers, field limits
-- on values that are constants of the registry, the run records and store calls of
-- evaluate_vulnerabilities and the checksums that it passes on, and the parts of the repository
-- outside these files.
pub mod Prelude
pub mod Text
pub mod Temporal
pub mod Versions
pub mod Vulnerability
pub mod Kev
