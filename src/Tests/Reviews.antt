-- ===== src/Tests/Reviews.antt =====
-- edc_translation/review.py at concrete inputs.
use edctranslation_public.Prelude.{
  String, ◌≡◌, refl, none, some, List, [], ◌∷◌, length, string_eq, nat_eq,
}
use edctranslation_public.Prelude.Dict
use edctranslation_public.Review.{Request, Decisions, draft, store, of_job, list_reviews}
use edctranslation_public.Review.Laws.{add_all, numbered, list_reviews-add_all}

abbrev request : String → String → Request
request job_id decision = record {
  job_id = job_id;
  decision = decision;
  reviewer = "ann";
  notes = "";
  now = "2026-01-01";
}

abbrev requests : List Request
requests = request "j1" "approve" ∷ request "j2" "reject" ∷ request "j1" "reject" ∷ []

list_reviews-add_all_example :
    list_reviews (some "j1") (add_all requests []) ≡ of_job (some "j1") (numbered 0 requests)
list_reviews-add_all_example = list_reviews-add_all (some "j1") requests

-- Two calls that both number their review before either stores it leave one review of two.
abbrev both_drafted : Decisions
both_drafted =
    store (draft (request "j2" "reject") []) (store (draft (request "j1" "approve") []) [])

both_drafted-one : length (list_reviews none both_drafted) ≡ 1
unfolding list_reviews Dict.insert string_eq nat_eq
both_drafted-one = refl
