-- ===== src/Services/Review/Tests.antt =====
-- review_service_impl.go: the theorems at a table with room for one review, which a new one
-- replaces.
use dataset_service.Base.{
  ℕ, ◌≡◌, inl, inr, ◌⊎◌, Option, none, some, List, [], ◌∷◌, arith, ◌==◌, if◌then◌else◌, All,
  Bool-cases, true,
}
use dataset_service.Base.Time.{pos}
use dataset_service.Text.{codes}
use dataset_service.Exec.{Result, ok}
use dataset_service.Entities.{Review, is_valid_rating}
use dataset_service.Repositories.{ReviewRepository}
use dataset_service.Services.Review.{CreateReview, UpdateReview}
use dataset_service.Services.Review.Ratings.{
  LawfulReviews, create, update, IsRated, perform_all, perform_all-IsRated,
}

abbrev Slot : Type 0
Slot = Option Review

abbrev row : Slot → ℕ → Option Review
row none j = none
row (some rev) j = if rev.id == j then some rev else none

abbrev of_dataset : ℕ → Slot → List Review
of_dataset dataset_id none = []
of_dataset dataset_id (some rev) = if rev.dataset_id == dataset_id then rev ∷ [] else []

abbrev repo : ReviewRepository Slot
repo = record {
  create = λ rev s. (ok (record rev { id = 1 }), some (record rev { id = 1 }));
  update = λ rev s. (ok tt, some rev);
  delete = λ id s. (ok tt, none);
  find_by_id = λ id s. ok (row s id);
  find_by_dataset_id = λ dataset_id s. ok (of_dataset dataset_id s);
  find_by_user_id = λ user_id s. ok [];
}

found_row :
    (id : ℕ) (s : Slot) (rev : Review)
    → Path (Result (Option Review)) (ok (row s id)) (ok (some rev))
    → row s id ≡ some rev
found_row id s rev h = ground arith

stored_row :
    (rev made : Review) (s : Slot) (j : ℕ)
    → row (some rev) j ≡ some made
    → (row s j ≡ some made) ⊎ (made.rating ≡ rev.rating)
stored_row rev made s j h = inr (ground arith)

of_dataset-stored :
    (dataset_id : ℕ) (s : Slot)
    → All (λ rev. (j : ℕ) × (row s j ≡ some rev)) (of_dataset dataset_id s)
of_dataset-stored dataset_id none = tt
of_dataset-stored dataset_id (some rev) = elim (Bool-cases (rev.dataset_id == dataset_id)) [
  | inl same ↦ rw same ((rev.id, ground arith), tt)
  | inr other ↦ rw other tt
]

listed_rows :
    (dataset_id : ℕ) (s : Slot) (reviews : List Review)
    → Path (Result (List Review)) (ok (of_dataset dataset_id s)) (ok reviews)
    → All (λ rev. (j : ℕ) × (row s j ≡ some rev)) reviews
listed_rows dataset_id s reviews h =
    let same : of_dataset dataset_id s ≡ reviews = ground arith in
    rw same at (of_dataset-stored dataset_id s)

gone_row : (made : Review) (s : Slot) (j : ℕ) → row none j ≡ some made → row s j ≡ some made
gone_row made s j h = absurd (ground arith)

abbrev laws : LawfulReviews repo
laws = record {
  row = row;
  found = found_row;
  listed = listed_rows;
  created = λ rev made s j. stored_row (record rev { id = 1 }) made s j;
  updated = stored_row;
  deleted = λ id made s j. gone_row made s j;
}

abbrev four : CreateReview
four = record { user_id = 3; dataset_id = 5; rating = pos 4; text = codes "good" }

abbrev nine : UpdateReview
nine = record { review_id = 1; rating = pos 9; text = [] }

no_row : (j : ℕ) (rev : Review) → row none j ≡ some rev → is_valid_rating rev.rating ≡ true
no_row j rev h = absurd (ground arith)

perform_all-IsRated_example :
    IsRated repo laws (perform_all repo laws (create four 1 2 ∷ update nine ∷ []) none)
perform_all-IsRated_example =
    perform_all-IsRated repo laws (create four 1 2 ∷ update nine ∷ []) none
      (record { rated = no_row })

abbrev stored : Review
stored = record {
  id = 1;
  user_id = 3;
  dataset_id = 5;
  rating = pos 4;
  created_at = 1;
  text = codes "good";
}
