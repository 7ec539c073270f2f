-- ===== src/Services/Review/Ratings.antt =====
-- review_service_impl.go: every rating that is stored lies from 1 to 5.
use dataset_service.Base.{
  ℕ, ◌≡◌, refl, ◌⊎◌, inl, inr, true, Option, none, some, List, [], ◌∷◌, arith, All, Bool-cases,
}
use dataset_service.Base.Time.{ℤ, pos, negsuc}
use dataset_service.Text.{Text}
use dataset_service.Exec.{ok, Result-cases}
use dataset_service.Entities.{Review, new_review, is_valid_rating}
use dataset_service.Repositories.{ReviewRepository}
use dataset_service.Services.Review.{
  CreateReview, UpdateReview, in_range, create_review, update_review, delete_review,
}

-- The repository shows the reviews by their numbers. A call either takes effect on its row or
-- leaves it as it was.
pub record LawfulReviews {S : Type 0} (r : ReviewRepository S) : Type 0 where
  pub row : S → ℕ → Option Review
  pub found :
      (id : ℕ) (s : S) (rev : Review) → r.find_by_id id s ≡ ok (some rev) → row s id ≡ some rev
  pub listed :
      (dataset_id : ℕ) (s : S) (reviews : List Review)
      → r.find_by_dataset_id dataset_id s ≡ ok reviews
      → All (λ rev. (j : ℕ) × (row s j ≡ some rev)) reviews
  pub created :
      (rev made : Review) (s : S) (j : ℕ)
      → row (r.create rev s).1 j ≡ some made
      → (row s j ≡ some made) ⊎ (made.rating ≡ rev.rating)
  pub updated :
      (rev made : Review) (s : S) (j : ℕ)
      → row (r.update rev s).1 j ≡ some made
      → (row s j ≡ some made) ⊎ (made.rating ≡ rev.rating)
  pub deleted :
      (id : ℕ) (made : Review) (s : S) (j : ℕ)
      → row (r.delete id s).1 j ≡ some made
      → row s j ≡ some made

-- The check of `NewReview`, which looks into a map, and the check of `UpdateReview`, which
-- compares with both ends, agree on every rating.
pub in_range-is_valid_rating : (rating : ℤ) → in_range rating ≡ is_valid_rating rating
in_range-is_valid_rating (pos r) = ground arith
in_range-is_valid_rating (negsuc r) = refl

new_review-rating :
    (user_id dataset_id : ℕ) (rating : ℤ) (at : ℕ) (text : Text) (now : ℕ) (rev : Review)
    → new_review user_id dataset_id rating at text now ≡ ok rev
    → (rev.rating ≡ rating) × (is_valid_rating rating ≡ true)
unfolding new_review
new_review-rating user_id dataset_id rating at text now rev h =
    elim (Bool-cases (is_valid_rating rating)) [
      | inl valid ↦ (ground arith, valid)
      | inr invalid ↦ absurd (ground arith)
    ]

abbrev AllRated : List Review → Type 0
AllRated = All (λ rev. is_valid_rating rev.rating ≡ true)

-- A call of the service that may write.
pub data Call : Type 0 where
  create : CreateReview → ℕ → ℕ → Call
  update : UpdateReview → Call
  delete : ℕ → Call

module _ {S : Type 0} (repo : ReviewRepository S) (laws : LawfulReviews repo) where
  open laws use {row}

  abbrev pub perform : Call → S → S
  perform (create cmd created_at now) s = (create_review repo cmd created_at now s).1
  perform (update cmd) s = (update_review repo cmd s).1
  perform (delete id) s = (delete_review repo id s).1

  abbrev pub perform_all : List Call → S → S
  perform_all [] s = s
  perform_all (c ∷ cs) s = perform_all cs (perform c s)

  -- Every stored rating lies from 1 to 5.
  pub record IsRated (s : S) : Type 0 where
    pub rated : (j : ℕ) (rev : Review) → row s j ≡ some rev → is_valid_rating rev.rating ≡ true

  create_review-rated :
      (cmd : CreateReview) (created_at now : ℕ) (s : S) (j : ℕ) (rev : Review)
      → IsRated s
      → row (create_review repo cmd created_at now s).1 j ≡ some rev
      → is_valid_rating rev.rating ≡ true
  create_review-rated cmd created_at now s j rev h there =
      elim (Result-cases
        (new_review cmd.user_id cmd.dataset_id cmd.rating created_at cmd.text now)) [
          | inr (e, invalid) ↦ h.rated j rev (unfold create_review in ground arith)
          | inl (new, built) ↦
              let (same, valid) =
                new_review-rating cmd.user_id cmd.dataset_id cmd.rating created_at cmd.text now new
                  built in
              let stored : row (repo.create new s).1 j ≡ some rev =
                unfold create_review in ground arith in
              elim (laws.created new rev s j stored) [
                | inl before ↦ h.rated j rev before
                | inr fresh ↦ rw (fresh, same) valid
              ]
        ]

  update_review-rated :
      (cmd : UpdateReview) (s : S) (j : ℕ) (rev : Review)
      → IsRated s
      → row (update_review repo cmd s).1 j ≡ some rev
      → is_valid_rating rev.rating ≡ true
  update_review-rated cmd s j rev h there = elim (Result-cases (repo.find_by_id cmd.review_id s)) [
    | inr (e, failed) ↦ h.rated j rev (unfold update_review in ground arith)
    | inl (none, missing) ↦ h.rated j rev (unfold update_review in ground arith)
    | inl (some old, found) ↦ elim (Bool-cases (in_range cmd.rating)) [
      | inr out ↦ h.rated j rev (unfold update_review in ground arith)
      | inl inside ↦
          let changed = record old { rating = cmd.rating; text = cmd.text } in
          let stored : row (repo.update changed s).1 j ≡ some rev =
            unfold update_review in ground arith in
          elim (laws.updated changed rev s j stored) [
            | inl before ↦ h.rated j rev before
            | inr fresh ↦ rw (fresh, ← in_range-is_valid_rating cmd.rating) inside
          ]
    ]
  ]

  delete_review-rated :
      (id : ℕ) (s : S) (j : ℕ) (rev : Review)
      → IsRated s
      → row (delete_review repo id s).1 j ≡ some rev
      → is_valid_rating rev.rating ≡ true
  unfolding delete_review
  delete_review-rated id s j rev h there = h.rated j rev (laws.deleted id rev s j there)

  perform-IsRated : (c : Call) (s : S) → IsRated s → IsRated (perform c s)
  perform-IsRated (create cmd created_at now) s h = record {
    rated = λ j rev there. create_review-rated cmd created_at now s j rev h there;
  }
  perform-IsRated (update cmd) s h = record {
    rated = λ j rev there. update_review-rated cmd s j rev h there;
  }
  perform-IsRated (delete id) s h = record {
    rated = λ j rev there. delete_review-rated id s j rev h there;
  }

  -- If every stored rating lies from 1 to 5, that is still so after any calls that create, update
  -- or delete reviews, whatever their ratings and whether they succeed.
  pub perform_all-IsRated : (cs : List Call) (s : S) → IsRated s → IsRated (perform_all cs s)
  perform_all-IsRated [] s h = h
  perform_all-IsRated (c ∷ cs) s h = perform_all-IsRated cs (perform c s) (perform-IsRated c s h)
