-- ===== src/Ingest/Ids.antt =====
-- internal/ingest/otlp_ids.go: requests lose the spans, links and log records with malformed ids.
-- The protobuf messages carry the fields that this code reads; the others are parameters.
pub mod Traces
pub mod Kept
pub mod Logs
mod Tests
use otelcontext.Base.{
  ℕ, ◌+◌, Bool, true, false, not, ◌&&◌, ◌||◌, List, [], ◌∷◌, length, ◌==◌, ltb, if◌then◌else◌,
  replicate, keep, Text, text_discrete, dec_bool,
}

abbrev pub trace_id_len : ℕ
trace_id_len = 16

abbrev pub span_id_len : ℕ
span_id_len = 8

-- `bytes.Equal(id, zeroID[:n])`
pub is_zero_id : Text → ℕ → Bool
is_zero_id id n = dec_bool (text_discrete id (replicate n 0))

pub valid_id : Text → ℕ → Bool
valid_id id n = length id == n && not (is_zero_id id n)

pub optional_id : Text → ℕ → Bool
optional_id id n = length id == 0 || valid_id id n

module _ (LinkRest SpanRest LogRest ScopeRest ResourceRest : Type 0) where
  pub record Link : Type 0 where
    pub trace_id : Text
    pub span_id : Text
    pub rest : LinkRest

  pub record Span : Type 0 where
    pub trace_id : Text
    pub span_id : Text
    pub parent_span_id : Text
    pub links : List Link
    pub rest : SpanRest

  pub record LogRecord : Type 0 where
    pub trace_id : Text
    pub span_id : Text
    pub rest : LogRest

  pub record ScopeSpans : Type 0 where
    pub scope : ScopeRest
    pub spans : List Span

  pub record ResourceSpans : Type 0 where
    pub resource : ResourceRest
    pub scope_spans : List ScopeSpans

  pub record ScopeLogs : Type 0 where
    pub scope : ScopeRest
    pub log_records : List LogRecord

  pub record ResourceLogs : Type 0 where
    pub resource : ResourceRest
    pub scope_logs : List ScopeLogs

  pub valid_span_ids : Span → Bool
  valid_span_ids s =
      valid_id s.trace_id trace_id_len
      && (valid_id s.span_id span_id_len && optional_id s.parent_span_id span_id_len)

  pub valid_link_ids : Link → Bool
  valid_link_ids l = valid_id l.trace_id trace_id_len && valid_id l.span_id span_id_len

  pub valid_log_ids : LogRecord → Bool
  valid_log_ids l = optional_id l.trace_id trace_id_len && optional_id l.span_id span_id_len

  -- The two counters of the first pass.
  pub record Tally : Type 0 where
    pub refused : ℕ
    pub links : ℕ

  pub count_links : List Link → ℕ
  count_links [] = 0
  count_links (l ∷ ls) = if valid_link_ids l then count_links ls else count_links ls + 1

  pub count_spans : Tally → List Span → Tally
  count_spans t [] = t
  count_spans t (sp ∷ sps) =
      if not (valid_span_ids sp)
      then count_spans (record t { refused = t.refused + 1 }) sps
      else count_spans (record t { links = t.links + count_links sp.links }) sps

  pub count_scopes : Tally → List ScopeSpans → Tally
  count_scopes t [] = t
  count_scopes t (ss ∷ sss) = count_scopes (count_spans t ss.spans) sss

  pub count_resources : Tally → List ResourceSpans → Tally
  count_resources t [] = t
  count_resources t (rs ∷ rss) = count_resources (count_scopes t rs.scope_spans) rss

  -- A span whose links are all kept is passed on itself.
  pub filter_links : Span → Span
  filter_links sp =
      let kept = keep valid_link_ids sp.links in
      if not (length kept == length sp.links) then record sp { links = kept } else sp

  pub filter_spans : List Span → List Span
  filter_spans [] = []
  filter_spans (sp ∷ sps) =
      let rest = filter_spans sps in
      if not (valid_span_ids sp) then rest else filter_links sp ∷ rest

  pub filter_scopes : List ScopeSpans → List ScopeSpans
  filter_scopes [] = []
  filter_scopes (ss ∷ sss) =
      let spans = filter_spans ss.spans in
      let rest = filter_scopes sss in
      if ltb 0 (length spans) then record ss { spans = spans } ∷ rest else rest

  pub filter_resources : List ResourceSpans → List ResourceSpans
  filter_resources [] = []
  filter_resources (rs ∷ rss) =
      let scopes = filter_scopes rs.scope_spans in
      let rest = filter_resources rss in
      if ltb 0 (length scopes) then record rs { scope_spans = scopes } ∷ rest else rest

  pub sanitize_trace_request : List ResourceSpans → List ResourceSpans × ℕ × ℕ
  sanitize_trace_request req =
      let t = count_resources (record { refused = 0; links = 0 }) req in
      if t.refused == 0 && t.links == 0
      then (req, 0, 0)
      else (filter_resources req, t.refused, t.links)

  pub count_logs : ℕ → List LogRecord → ℕ
  count_logs n [] = n
  count_logs n (l ∷ ls) = if not (valid_log_ids l) then count_logs (n + 1) ls else count_logs n ls

  pub count_scope_logs : ℕ → List ScopeLogs → ℕ
  count_scope_logs n [] = n
  count_scope_logs n (sl ∷ sls) = count_scope_logs (count_logs n sl.log_records) sls

  pub count_resource_logs : ℕ → List ResourceLogs → ℕ
  count_resource_logs n [] = n
  count_resource_logs n (rl ∷ rls) = count_resource_logs (count_scope_logs n rl.scope_logs) rls

  pub filter_scope_logs : List ScopeLogs → List ScopeLogs
  filter_scope_logs [] = []
  filter_scope_logs (sl ∷ sls) =
      let records = keep valid_log_ids sl.log_records in
      let rest = filter_scope_logs sls in
      if ltb 0 (length records) then record sl { log_records = records } ∷ rest else rest

  pub filter_resource_logs : List ResourceLogs → List ResourceLogs
  filter_resource_logs [] = []
  filter_resource_logs (rl ∷ rls) =
      let scopes = filter_scope_logs rl.scope_logs in
      let rest = filter_resource_logs rls in
      if ltb 0 (length scopes) then record rl { scope_logs = scopes } ∷ rest else rest

  pub sanitize_logs_request : List ResourceLogs → List ResourceLogs × ℕ
  sanitize_logs_request req =
      let refused = count_resource_logs 0 req in
      if refused == 0 then (req, 0) else (filter_resource_logs req, refused)
