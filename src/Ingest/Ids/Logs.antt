-- ===== src/Ingest/Ids/Logs.antt =====
-- otlp_ids.go: what `sanitizeLogsRequest` keeps and counts.
use otelcontext.Base.{
  ℕ, ◌+◌, ◌≡◌, refl, ap, inl, inr, List, [], ◌∷◌, length, ◌==◌, keep, arith, Bool-cases,
}
use otelcontext.Ingest.Ids.{
  LogRecord, ScopeLogs, ResourceLogs, valid_log_ids, count_logs, count_scope_logs,
  count_resource_logs, filter_scope_logs, filter_resource_logs, sanitize_logs_request,
}

module _ (L S G C R : Type 0) where
  abbrev scope_logs_size : List (ScopeLogs L S G C R) → ℕ
  scope_logs_size [] = 0
  scope_logs_size (sl ∷ sls) = length sl.log_records + scope_logs_size sls

  -- The log records of a request.
  abbrev pub logs_size : List (ResourceLogs L S G C R) → ℕ
  logs_size [] = 0
  logs_size (rl ∷ rls) = scope_logs_size rl.scope_logs + logs_size rls

  count_logs-keep :
      (n : ℕ) (ls : List (LogRecord L S G C R))
      → length (keep (valid_log_ids L S G C R) ls) + count_logs L S G C R n ls ≡ length ls + n
  unfolding count_logs
  count_logs-keep n [] = refl
  count_logs-keep n (l ∷ ls) = ground (arith, count_logs-keep n ls, count_logs-keep (n + 1) ls)

  count_logs-kept :
      (n : ℕ) (ls : List (LogRecord L S G C R))
      → count_logs L S G C R n (keep (valid_log_ids L S G C R) ls) ≡ n
  unfolding count_logs
  count_logs-kept n [] = refl
  count_logs-kept n (l ∷ ls) = ground (arith, count_logs-kept n ls)

  count_scope_logs-size :
      (n : ℕ) (sls : List (ScopeLogs L S G C R))
      → scope_logs_size (filter_scope_logs L S G C R sls) + count_scope_logs L S G C R n sls
        ≡ scope_logs_size sls + n
  unfolding count_scope_logs filter_scope_logs
  count_scope_logs-size n [] = refl
  count_scope_logs-size n (sl ∷ sls) = ground (
    arith,
    count_logs-keep n sl.log_records,
    count_scope_logs-size (count_logs L S G C R n sl.log_records) sls,
  )

  empty_scope_logs : (sls : List (ScopeLogs L S G C R)) → length sls ≡ 0 → scope_logs_size sls ≡ 0
  empty_scope_logs [] h = refl
  empty_scope_logs (sl ∷ sls) h = omega arith

  count_resource_logs-size :
      (n : ℕ) (rls : List (ResourceLogs L S G C R))
      → logs_size (filter_resource_logs L S G C R rls) + count_resource_logs L S G C R n rls
        ≡ logs_size rls + n
  unfolding count_resource_logs filter_resource_logs
  count_resource_logs-size n [] = refl
  count_resource_logs-size n (rl ∷ rls) = ground (
    arith,
    count_scope_logs-size n rl.scope_logs,
    count_resource_logs-size (count_scope_logs L S G C R n rl.scope_logs) rls,
    empty_scope_logs (filter_scope_logs L S G C R rl.scope_logs),
  )

  count_scope_logs-kept :
      (n : ℕ) (sls : List (ScopeLogs L S G C R))
      → count_scope_logs L S G C R n (filter_scope_logs L S G C R sls) ≡ n
  unfolding count_scope_logs filter_scope_logs
  count_scope_logs-kept n [] = refl
  count_scope_logs-kept n (sl ∷ sls) = ground (
    arith,
    count_scope_logs-kept n sls,
    ap (λ k. count_scope_logs L S G C R k (filter_scope_logs L S G C R sls))
        (count_logs-kept n sl.log_records),
  )

  count_resource_logs-kept :
      (n : ℕ) (rls : List (ResourceLogs L S G C R))
      → count_resource_logs L S G C R n (filter_resource_logs L S G C R rls) ≡ n
  unfolding count_resource_logs filter_resource_logs
  count_resource_logs-kept n [] = refl
  count_resource_logs-kept n (rl ∷ rls) = ground (
    arith,
    count_resource_logs-kept n rls,
    ap (λ k. count_resource_logs L S G C R k (filter_resource_logs L S G C R rls))
        (count_scope_logs-kept n rl.scope_logs),
  )

  -- Every log record is kept or counted as refused.
  pub logs_conserved :
      (req : List (ResourceLogs L S G C R))
      → logs_size (sanitize_logs_request L S G C R req).0 + (sanitize_logs_request L S G C R req).1
        ≡ logs_size req
  unfolding sanitize_logs_request
  logs_conserved req = ground (arith, count_resource_logs-size 0 req)

  -- A sanitized request is clean: sanitizing it again refuses nothing and changes nothing.
  pub logs_settled :
      (req : List (ResourceLogs L S G C R))
      → sanitize_logs_request L S G C R ((sanitize_logs_request L S G C R req).0)
        ≡ ((sanitize_logs_request L S G C R req).0, 0)
  unfolding sanitize_logs_request
  logs_settled req =
      let again = count_resource_logs-kept 0 req in
      elim (Bool-cases (count_resource_logs L S G C R 0 req == 0)) [
        | inl z ↦ rw (z, sanitize_logs_request, z) refl
        | inr z ↦ rw (z, sanitize_logs_request, again) refl
      ]
