-- ===== src/Ingest/Ids/Traces.antt =====
-- otlp_ids.go: what `sanitizeTraceRequest` keeps and counts.
use otelcontext.Base.{
  ℕ, ◌+◌, ◌≡◌, refl, ◌∙◌, ap, inl, inr, ◌&&◌, List, [], ◌∷◌, length, ◌==◌, ltb, keep, arith,
  Bool-cases,
}
use otelcontext.Ingest.Ids.{
  Link, Span, ScopeSpans, ResourceSpans, Tally, valid_span_ids, valid_link_ids, count_links,
  count_spans, count_scopes, count_resources, filter_links, filter_spans, filter_scopes,
  filter_resources, sanitize_trace_request,
}

module _ (L S G C R : Type 0) where
  abbrev pub scope_size : List (ScopeSpans L S G C R) → ℕ
  scope_size [] = 0
  scope_size (ss ∷ sss) = length ss.spans + scope_size sss

  -- The spans of a request.
  abbrev pub trace_size : List (ResourceSpans L S G C R) → ℕ
  trace_size [] = 0
  trace_size (rs ∷ rss) = scope_size rs.scope_spans + trace_size rss

  pub count_links-keep :
      (ls : List (Link L S G C R))
      → count_links L S G C R ls + length (keep (valid_link_ids L S G C R) ls) ≡ length ls
  unfolding count_links
  count_links-keep [] = refl
  count_links-keep (l ∷ ls) = ground (arith, count_links-keep ls)

  count_links-kept :
      (ls : List (Link L S G C R)) → count_links L S G C R (keep (valid_link_ids L S G C R) ls) ≡ 0
  unfolding count_links
  count_links-kept [] = refl
  count_links-kept (l ∷ ls) = ground (arith, count_links-kept ls)

  count_links-filter_links :
      (sp : Span L S G C R) → count_links L S G C R (filter_links L S G C R sp).links ≡ 0
  unfolding filter_links
  count_links-filter_links sp = ground (arith, count_links-keep sp.links, count_links-kept sp.links)

  valid_span_ids-filter_links :
      (sp : Span L S G C R)
      → valid_span_ids L S G C R (filter_links L S G C R sp) ≡ valid_span_ids L S G C R sp
  unfolding filter_links valid_span_ids
  valid_span_ids-filter_links sp = ground arith

  links_unchanged : (t : Tally L S G C R) (n : ℕ) → n ≡ 0 → record t { links = t.links + n } ≡ t
  links_unchanged t n h =
      let e : t.links + n ≡ t.links = omega (arith, h) in ap (λ k. record t { links = k }) e

  count_spans-clean :
      (t : Tally L S G C R) (sps : List (Span L S G C R))
      → count_spans L S G C R t (filter_spans L S G C R sps) ≡ t
  unfolding count_spans filter_spans
  count_spans-clean t [] = refl
  count_spans-clean t (sp ∷ sps) =
      let v = valid_span_ids-filter_links sp in
      elim (Bool-cases (valid_span_ids L S G C R sp)) [
        | inl h ↦
            rw (h, filter_spans, v ∙ h, count_spans)
              (ap (λ u. count_spans L S G C R u (filter_spans L S G C R sps))
                  (links_unchanged t _ (count_links-filter_links sp))
                ∙ count_spans-clean t sps)
        | inr h ↦ rw (h, filter_spans) (count_spans-clean t sps)
      ]

  count_scopes-clean :
      (t : Tally L S G C R) (sss : List (ScopeSpans L S G C R))
      → count_scopes L S G C R t (filter_scopes L S G C R sss) ≡ t
  unfolding count_scopes filter_scopes
  count_scopes-clean t [] = refl
  count_scopes-clean t (ss ∷ sss) =
      let rest = filter_scopes L S G C R sss in
      let first = ap (λ u. count_scopes L S G C R u rest) (count_spans-clean t ss.spans) in
      let e = first ∙ count_scopes-clean t sss in
      elim (Bool-cases (ltb 0 (length (filter_spans L S G C R ss.spans)))) [
        | inl h ↦ rw (h, filter_scopes) e
        | inr h ↦ rw (h, filter_scopes) (count_scopes-clean t sss)
      ]

  count_resources-clean :
      (t : Tally L S G C R) (rss : List (ResourceSpans L S G C R))
      → count_resources L S G C R t (filter_resources L S G C R rss) ≡ t
  unfolding count_resources filter_resources
  count_resources-clean t [] = refl
  count_resources-clean t (rs ∷ rss) =
      let rest = filter_resources L S G C R rss in
      let first =
        ap (λ u. count_resources L S G C R u rest) (count_scopes-clean t rs.scope_spans) in
      let e = first ∙ count_resources-clean t rss in
      elim (Bool-cases (ltb 0 (length (filter_scopes L S G C R rs.scope_spans)))) [
        | inl h ↦ rw (h, filter_resources) e
        | inr h ↦ rw (h, filter_resources) (count_resources-clean t rss)
      ]

  count_spans-size :
      (t : Tally L S G C R) (sps : List (Span L S G C R))
      → length (filter_spans L S G C R sps) + (count_spans L S G C R t sps).refused
        ≡ length sps + t.refused
  unfolding count_spans filter_spans
  count_spans-size t [] = refl
  count_spans-size t (sp ∷ sps) = ground (
    arith,
    count_spans-size (record t { refused = t.refused + 1 }) sps,
    count_spans-size (record t { links = t.links + count_links L S G C R sp.links }) sps,
  )

  count_scopes-size :
      (t : Tally L S G C R) (sss : List (ScopeSpans L S G C R))
      → scope_size (filter_scopes L S G C R sss) + (count_scopes L S G C R t sss).refused
        ≡ scope_size sss + t.refused
  unfolding count_scopes filter_scopes
  count_scopes-size t [] = refl
  count_scopes-size t (ss ∷ sss) =
      ground (
        arith,
        count_spans-size t ss.spans,
        count_scopes-size (count_spans L S G C R t ss.spans) sss,
      )

  empty_scopes : (sss : List (ScopeSpans L S G C R)) → length sss ≡ 0 → scope_size sss ≡ 0
  empty_scopes [] h = refl
  empty_scopes (ss ∷ sss) h = omega arith

  count_resources-size :
      (t : Tally L S G C R) (rss : List (ResourceSpans L S G C R))
      → trace_size (filter_resources L S G C R rss) + (count_resources L S G C R t rss).refused
        ≡ trace_size rss + t.refused
  unfolding count_resources filter_resources
  count_resources-size t [] = refl
  count_resources-size t (rs ∷ rss) = ground (
    arith,
    count_scopes-size t rs.scope_spans,
    count_resources-size (count_scopes L S G C R t rs.scope_spans) rss,
    empty_scopes (filter_scopes L S G C R rs.scope_spans),
  )

  abbrev zero_tally : Tally L S G C R
  zero_tally = record { refused = 0; links = 0 }

  -- Every span is kept or counted as refused.
  pub spans_conserved :
      (req : List (ResourceSpans L S G C R))
      → trace_size (sanitize_trace_request L S G C R req).0
          + (sanitize_trace_request L S G C R req).1
        ≡ trace_size req
  unfolding sanitize_trace_request
  spans_conserved req = ground (arith, count_resources-size zero_tally req)

  -- A sanitized request is clean: sanitizing it again refuses no span and no link, and changes
  -- nothing.
  pub spans_settled :
      (req : List (ResourceSpans L S G C R))
      → sanitize_trace_request L S G C R ((sanitize_trace_request L S G C R req).0)
        ≡ ((sanitize_trace_request L S G C R req).0, 0, 0)
  unfolding sanitize_trace_request
  spans_settled req =
      let again = count_resources-clean zero_tally req in
      let t = count_resources L S G C R zero_tally req in
      elim (Bool-cases (t.refused == 0 && t.links == 0)) [
        | inl z ↦ rw (z, sanitize_trace_request, z) refl
        | inr z ↦ rw (z, sanitize_trace_request, again) refl
      ]
