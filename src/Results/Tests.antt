-- ===== src/Results/Tests.antt =====
-- Runs of the result collector.
use ring_lang.Common.{◌≡◌, refl, [], ◌∷◌, codes, inl, inr, text_eq, ◌&&◌}
use ring_lang.Common.Dicts.{text_key}
use ring_lang.Results.{
  ResultCollector, pass_status, fail_status, count_in, how_many, summary, summary-counts,
}

abbrev two_results : ResultCollector
two_results = record {
  results =
      record { status = pass_status; suite = codes "e2e"; name = codes "a"; detail = [] }
      ∷ record { status = fail_status; suite = codes "rc"; name = codes "b"; detail = [] }
      ∷ [];
  printed = [];
}

summary-counts_example :
    (count_in (codes "rc") (codes "pass") (summary two_results)
      ≡ how_many
          (λ r. text_eq (codes "rc") r.suite && text_eq (codes "PASS") r.status)
          two_results.results)
    × (count_in (codes "rc") (codes "fail") (summary two_results)
        ≡ how_many
            (λ r. text_eq (codes "rc") r.suite && text_eq (codes "FAIL") r.status)
            two_results.results)
    × (count_in (codes "rc") (codes "skip") (summary two_results)
        ≡ how_many
            (λ r. text_eq (codes "rc") r.suite && text_eq (codes "SKIP") r.status)
            two_results.results)
summary-counts_example = summary-counts two_results (codes "rc") (inl refl, (inr (inl refl), tt))
