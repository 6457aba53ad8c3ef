-- ===== src/Review.antt =====
-- edc_translation/review.py: review decisions on jobs. `add` takes the number of the decisions outside
-- the lock and stores under the lock: `draft` and `store` are its two steps, and other threads may run
-- between them.
pub mod Numbers
pub mod Laws
use edctranslation_public.Prelude.{
  ℕ, suc, String, ◌<>◌, Option, none, some, List, [], ◌∷◌, length, keep, ◌==◌, string_eq,
}
use edctranslation_public.Prelude.Dict
use edctranslation_public.Prelude.Dict.{Dict}
use edctranslation_public.Json.{text, Payload}
use edctranslation_public.Kafka.Text.{padded}

pub record ReviewDecision : Type 0 where
  pub review_id : String
  pub job_id : String
  pub decision : String
  pub reviewer : String
  pub notes : String
  pub created_at : String

unfoldable pub to_dict : ReviewDecision → Payload
to_dict r =
    ("review_id", text r.review_id)
    ∷ ("job_id", text r.job_id)
    ∷ ("decision", text r.decision)
    ∷ ("reviewer", text r.reviewer)
    ∷ ("notes", text r.notes)
    ∷ ("created_at", text r.created_at)
    ∷ []

abbrev pub Decisions : Type 0
Decisions = Dict String ReviewDecision

-- The arguments of `add`, and the time of its call.
pub record Request : Type 0 where
  pub job_id : String
  pub decision : String
  pub reviewer : String
  pub notes : String
  pub now : String

-- `f"review_{n:06d}"`
abbrev pub review_id_of : ℕ → String
review_id_of n = "review_" <> padded 6 n

abbrev pub decision_of : ℕ → Request → ReviewDecision
decision_of n r = record {
  review_id = review_id_of n;
  job_id = r.job_id;
  decision = r.decision;
  reviewer = r.reviewer;
  notes = r.notes;
  created_at = r.now;
}

abbrev pub draft : Request → Decisions → ReviewDecision
draft r decisions = decision_of (suc (length decisions)) r

abbrev pub store : ReviewDecision → Decisions → Decisions
store review decisions = Dict.insert review.review_id review decisions

unfoldable pub add : Request → Decisions → ReviewDecision × Decisions
add r decisions = let review = draft r decisions in (review, store review decisions)

-- `[review for review in reviews if review.job_id == job_id]`, all of them without a job.
abbrev pub of_job : Option String → List ReviewDecision → List ReviewDecision
of_job none reviews = reviews
of_job (some job_id) reviews = keep (λ r. r.job_id == job_id) reviews

unfoldable pub list_reviews : Option String → Decisions → List ReviewDecision
list_reviews job_id decisions = of_job job_id (Dict.values decisions)
