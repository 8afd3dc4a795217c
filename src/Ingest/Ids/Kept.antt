-- ===== src/Ingest/Ids/Kept.antt =====
-- otlp_ids.go: which spans and links of a trace request are kept, and what is counted.
use otelcontext.Base.{
  ℕ, ◌+◌, ◌≡◌, refl, ◌∙◌, ap, sym, ◌≤◌, inl, inr, false, ◌&&◌, List, [], ◌∷◌, ◌++◌, length, ◌==◌,
  ltb, keep, arith, Bool-cases, if◌then◌else◌,
}
use otelcontext.Ingest.Ids.{
  Link, Span, ScopeSpans, ResourceSpans, Tally, valid_span_ids, valid_link_ids, count_links,
  count_spans, count_scopes, count_resources, filter_links, filter_spans, filter_scopes,
  filter_resources, sanitize_trace_request,
}
use otelcontext.Ingest.Ids.Traces.{count_links-keep}

module _ (L S G C R : Type 0) where
  scope_spans : List (ScopeSpans L S G C R) → List (Span L S G C R)
  scope_spans [] = []
  scope_spans (ss ∷ sss) = ss.spans ++ scope_spans sss

  -- The spans of a request, in their order.
  pub spans_of : List (ResourceSpans L S G C R) → List (Span L S G C R)
  spans_of [] = []
  spans_of (rs ∷ rss) = scope_spans rs.scope_spans ++ spans_of rss

  -- The same span with its well-formed links.
  abbrev pub well_linked : Span L S G C R → Span L S G C R
  well_linked sp = record sp { links = keep (valid_link_ids L S G C R) sp.links }

  -- The spans with well-formed ids, with their well-formed links.
  unfoldable pub well_formed : List (Span L S G C R) → List (Span L S G C R)
  well_formed [] = []
  well_formed (sp ∷ sps) =
      let rest = well_formed sps in
      if valid_span_ids L S G C R sp then well_linked sp ∷ rest else rest

  -- The links of the spans with well-formed ids.
  unfoldable pub links_of : List (Span L S G C R) → ℕ
  links_of [] = 0
  links_of (sp ∷ sps) =
      let rest = links_of sps in
      if valid_span_ids L S G C R sp then length sp.links + rest else rest

  well_formed-append :
      (xs ys : List (Span L S G C R)) → well_formed (xs ++ ys) ≡ well_formed xs ++ well_formed ys
  unfolding well_formed
  well_formed-append [] ys = refl
  well_formed-append (x ∷ xs) ys = ground (arith, well_formed-append xs ys)

  keep_all :
      (ls : List (Link L S G C R))
      → count_links L S G C R ls ≡ 0
      → keep (valid_link_ids L S G C R) ls ≡ ls
  unfolding count_links
  keep_all [] h = refl
  keep_all (l ∷ ls) h = elim (Bool-cases (valid_link_ids L S G C R l)) [
    | inl v ↦
        let z : count_links L S G C R ls ≡ 0 = ground (arith, h, v) in
        rw (v, keep) (ap (λ k. l ∷ k) (keep_all ls z))
    | inr v ↦ absurd (ground (arith, h, v))
  ]

  filter_links_lem : (sp : Span L S G C R) → filter_links L S G C R sp ≡ well_linked sp
  unfolding filter_links
  filter_links_lem sp =
      let kept = keep (valid_link_ids L S G C R) sp.links in
      elim (Bool-cases (length kept == length sp.links)) [
        | inl e ↦
            let z : count_links L S G C R sp.links ≡ 0 =
              ground (arith, e, count_links-keep L S G C R sp.links) in
            rw (e, filter_links) (ap (λ ls. record sp { links = ls }) (sym (keep_all sp.links z)))
        | inr e ↦ rw (e, filter_links) refl
      ]

  filter_spans_lem : (sps : List (Span L S G C R)) → filter_spans L S G C R sps ≡ well_formed sps
  unfolding filter_spans well_formed
  filter_spans_lem [] = refl
  filter_spans_lem (sp ∷ sps) = ground (arith, filter_spans_lem sps, filter_links_lem sp)

  nothing_kept : {A : Type 0} → (xs : List A) → ltb 0 (length xs) ≡ false → xs ≡ []
  nothing_kept [] h = refl
  nothing_kept (x ∷ xs) h = absurd (ground (arith, h))

  filter_scopes_lem :
      (sss : List (ScopeSpans L S G C R))
      → scope_spans (filter_scopes L S G C R sss) ≡ well_formed (scope_spans sss)
  unfolding filter_scopes scope_spans well_formed
  filter_scopes_lem [] = refl
  filter_scopes_lem (ss ∷ sss) =
      let kept = filter_spans L S G C R ss.spans in
      let e : kept ++ scope_spans (filter_scopes L S G C R sss)
          ≡ well_formed (ss.spans ++ scope_spans sss) =
        rw
          (
            well_formed-append ss.spans (scope_spans sss),
            filter_spans_lem ss.spans,
            filter_scopes_lem sss,
          )
          refl in
      elim (Bool-cases (ltb 0 (length kept))) [
        | inl h ↦ rw (h, filter_scopes) e
        | inr h ↦
            rw (h, filter_scopes)
              (ap (λ k. k ++ scope_spans (filter_scopes L S G C R sss)) (sym (nothing_kept kept h))
                ∙ e)
      ]

  filter_resources_lem :
      (rss : List (ResourceSpans L S G C R))
      → spans_of (filter_resources L S G C R rss) ≡ well_formed (spans_of rss)
  unfolding filter_resources spans_of well_formed scope_spans
  filter_resources_lem [] = refl
  filter_resources_lem (rs ∷ rss) =
      let kept = filter_scopes L S G C R rs.scope_spans in
      let rest = spans_of (filter_resources L S G C R rss) in
      let e : scope_spans kept ++ rest ≡ well_formed (scope_spans rs.scope_spans ++ spans_of rss) =
        rw
          (
            well_formed-append (scope_spans rs.scope_spans) (spans_of rss),
            filter_scopes_lem rs.scope_spans,
            filter_resources_lem rss,
          )
          refl in
      elim (Bool-cases (ltb 0 (length kept))) [
        | inl h ↦ rw (h, filter_resources) e
        | inr h ↦
            rw (h, filter_resources)
              (ap (λ k. scope_spans k ++ rest) (sym (nothing_kept kept h)) ∙ e)
      ]

  -- The first pass, over the spans alone.
  count_spans-append :
      (t : Tally L S G C R) (xs ys : List (Span L S G C R))
      → count_spans L S G C R t (xs ++ ys) ≡ count_spans L S G C R (count_spans L S G C R t xs) ys
  unfolding count_spans
  count_spans-append t [] ys = refl
  count_spans-append t (sp ∷ sps) ys = elim (Bool-cases (valid_span_ids L S G C R sp)) [
    | inl v ↦
        rw (v, count_spans)
          (count_spans-append (record t { links = t.links + count_links L S G C R sp.links }) sps
            ys)
    | inr v ↦ rw (v, count_spans) (count_spans-append (record t { refused = t.refused + 1 }) sps ys)
  ]

  count_scopes_lem :
      (t : Tally L S G C R) (sss : List (ScopeSpans L S G C R))
      → count_scopes L S G C R t sss ≡ count_spans L S G C R t (scope_spans sss)
  unfolding count_scopes count_spans scope_spans
  count_scopes_lem t [] = refl
  count_scopes_lem t (ss ∷ sss) =
      count_scopes_lem (count_spans L S G C R t ss.spans) sss
      ∙ sym (count_spans-append t ss.spans (scope_spans sss))

  count_resources_lem :
      (t : Tally L S G C R) (rss : List (ResourceSpans L S G C R))
      → count_resources L S G C R t rss ≡ count_spans L S G C R t (spans_of rss)
  unfolding count_resources count_spans spans_of
  count_resources_lem t [] = refl
  count_resources_lem t (rs ∷ rss) =
      count_resources_lem (count_scopes L S G C R t rs.scope_spans) rss
      ∙ (ap (λ u. count_spans L S G C R u (spans_of rss)) (count_scopes_lem t rs.scope_spans)
          ∙ sym (count_spans-append t (scope_spans rs.scope_spans) (spans_of rss)))

  count_spans-refused :
      (t : Tally L S G C R) (sps : List (Span L S G C R))
      → (count_spans L S G C R t sps).refused + length (well_formed sps) ≡ length sps + t.refused
  unfolding count_spans well_formed
  count_spans-refused t [] = omega arith
  count_spans-refused t (sp ∷ sps) = ground (
    arith,
    count_spans-refused (record t { refused = t.refused + 1 }) sps,
    count_spans-refused (record t { links = t.links + count_links L S G C R sp.links }) sps,
  )

  -- The links of the spans.
  pub all_links : List (Span L S G C R) → ℕ
  all_links [] = 0
  all_links (sp ∷ sps) = length sp.links + all_links sps

  count_spans-links :
      (t : Tally L S G C R) (sps : List (Span L S G C R))
      → (count_spans L S G C R t sps).links + all_links (well_formed sps) ≡ links_of sps + t.links
  unfolding count_spans well_formed links_of all_links
  count_spans-links t [] = omega arith
  count_spans-links t (sp ∷ sps) = ground (
    arith,
    count_links-keep L S G C R sp.links,
    count_spans-links (record t { refused = t.refused + 1 }) sps,
    count_spans-links (record t { links = t.links + count_links L S G C R sp.links }) sps,
  )

  -- A first pass that counts nothing leaves nothing for the second.
  count_spans-grows :
      (t : Tally L S G C R) (sps : List (Span L S G C R))
      → (t.refused ≤ (count_spans L S G C R t sps).refused)
        × (t.links ≤ (count_spans L S G C R t sps).links)
  unfolding count_spans
  count_spans-grows t [] = (omega arith, omega arith)
  count_spans-grows t (sp ∷ sps) = ground (
    arith,
    count_spans-grows (record t { refused = t.refused + 1 }) sps,
    count_spans-grows (record t { links = t.links + count_links L S G C R sp.links }) sps,
  )

  well_formed_all :
      (t : Tally L S G C R) (sps : List (Span L S G C R))
      → (count_spans L S G C R t sps).refused ≡ 0
      → (count_spans L S G C R t sps).links ≡ 0
      → well_formed sps ≡ sps
  unfolding count_spans well_formed
  well_formed_all t [] r l = refl
  well_formed_all t (sp ∷ sps) r l = elim (Bool-cases (valid_span_ids L S G C R sp)) [
    | inl v ↦
        let next : Tally L S G C R = record t {
          links = t.links + count_links L S G C R sp.links;
        } in
        let e : count_spans L S G C R t (sp ∷ sps) ≡ count_spans L S G C R next sps =
          rw (v, count_spans) refl in
        let r' : (count_spans L S G C R next sps).refused ≡ 0 = sym (ap (λ u. u.refused) e) ∙ r in
        let l' : (count_spans L S G C R next sps).links ≡ 0 = sym (ap (λ u. u.links) e) ∙ l in
        let z : count_links L S G C R sp.links ≡ 0 =
          omega (arith, l', count_spans-grows next sps) in
        rw (v, well_formed)
          (rw (well_formed_all next sps r' l')
            (ap (λ ls. record sp { links = ls } ∷ sps) (keep_all sp.links z)))
    | inr v ↦
        let next : Tally L S G C R = record t { refused = t.refused + 1 } in
        let e : count_spans L S G C R t (sp ∷ sps) ≡ count_spans L S G C R next sps =
          rw (v, count_spans) refl in
        let r' : (count_spans L S G C R next sps).refused ≡ 0 = sym (ap (λ u. u.refused) e) ∙ r in
        absurd (omega (arith, r', count_spans-grows next sps))
  ]

  abbrev zero_tally : Tally L S G C R
  zero_tally = record { refused = 0; links = 0 }

  -- The spans and the two numbers of a sanitized request.
  abbrev pub Sanitized :
      List (ResourceSpans L S G C R) → List (ResourceSpans L S G C R) × ℕ × ℕ → Type 0
  Sanitized req out =
      (spans_of out.0 ≡ well_formed (spans_of req))
      × (out.1 + length (well_formed (spans_of req)) ≡ length (spans_of req))
      × (out.2 + all_links (well_formed (spans_of req)) ≡ links_of (spans_of req))

  -- A sanitized request has the spans of the request whose ids are well-formed, in their order,
  -- each with its well-formed links; the first number that is returned counts the spans that are
  -- left out, and the second the malformed links of the spans that are kept.
  pub sanitize_trace_request-Sanitized :
      (req : List (ResourceSpans L S G C R)) → Sanitized req (sanitize_trace_request L S G C R req)
  unfolding sanitize_trace_request
  sanitize_trace_request-Sanitized req =
      let t = count_resources L S G C R zero_tally req in
      let flat = count_resources_lem zero_tally req in
      let refused = ap (λ u. u.refused) flat in
      let links = ap (λ u. u.links) flat in
      let r = count_spans-refused zero_tally (spans_of req) in
      let l = count_spans-links zero_tally (spans_of req) in
      elim (Bool-cases (t.refused == 0 && t.links == 0)) [
        | inl z ↦
            let zr : t.refused ≡ 0 = ground (arith, z) in
            let zl : t.links ≡ 0 = ground (arith, z) in
            rw (z, sanitize_trace_request)
              (
                sym (well_formed_all zero_tally (spans_of req) (sym refused ∙ zr) (sym links ∙ zl)),
                omega (arith, r, refused, zr),
                omega (arith, l, links, zl),
              )
        | inr z ↦
            rw (z, sanitize_trace_request)
              (filter_resources_lem req, omega (arith, r, refused), omega (arith, l, links))
      ]
