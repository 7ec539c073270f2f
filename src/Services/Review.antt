-- ===== src/Services/Review.antt =====
-- internal/services/review_service.go and review_service_impl.go: ratings of datasets from 1 to 5.
pub mod Ratings
mod Tests
use dataset_service.Base.{
  ℕ, zero, suc, ◌+◌, ◌-◌, Bool, true, false, not, Option, none, some, List, [], ◌∷◌, ◌||◌, ltb,
  length, if◌then◌else◌,
}
use dataset_service.Base.Time.{ℤ, pos, negsuc}
use dataset_service.Text.{Text}
use dataset_service.Errors.{
  Error, service, entity, wrap, annotate, is_repo, RepoError, EntityError, ServiceError,
}
use dataset_service.Exec.{
  Result, ok, err, Exec, pure, raise, read, lift, map_error, on_error, ◌>>=◌, ◌>>◌,
}
use dataset_service.Entities.{Review, new_review}
use dataset_service.Repositories.{ReviewRepository}

-- `CreateReviewCmd`
pub record CreateReview : Type 0 where
  pub user_id : ℕ
  pub dataset_id : ℕ
  pub rating : ℤ
  pub text : Text

-- `UpdateReviewCmd`
pub record UpdateReview : Type 0 where
  pub review_id : ℕ
  pub rating : ℤ
  pub text : Text

-- `RatingSummary`, with the sum of the ratings in place of the average that is their quotient.
pub record RatingSummary : Type 0 where
  pub sum : ℤ
  pub count : ℕ

-- `errors.Is(err, entities.ErrInvalidRating)`
abbrev is_invalid_rating : Error → Bool
is_invalid_rating (entity EntityError.invalid_rating) = true
is_invalid_rating (wrap s e) = is_invalid_rating e
is_invalid_rating (annotate e d) = is_invalid_rating e
is_invalid_rating _ = false

abbrev invalid_review_error : Error → Error
invalid_review_error e =
    if is_invalid_rating e then service ServiceError.invalid_rating else wrap "invalid review: %w" e

-- `entities.Rating1 <= rating && rating <= entities.Rating5`, as the negation of the code's test
abbrev pub in_range : ℤ → Bool
in_range (pos r) = not (ltb r 1 || ltb 5 r)
in_range (negsuc r) = false

-- `a - b`
abbrev minus : ℕ → ℕ → ℤ
minus a b = if ltb a b then negsuc (b - a - 1) else pos (a - b)

-- `+` on numbers that are far from the ends of `int`
abbrev pub add : ℤ → ℤ → ℤ
add (pos a) (pos b) = pos (a + b)
add (pos a) (negsuc b) = minus a (suc b)
add (negsuc a) (pos b) = minus b (suc a)
add (negsuc a) (negsuc b) = negsuc (suc (a + b))

-- The loop of `GetRatingSummary` on the reviews that are left.
unfoldable pub add_ratings : ℤ → List Review → ℤ
add_ratings sum [] = sum
add_ratings sum (r ∷ reviews) = add_ratings (add sum r.rating) reviews

module _ {S : Type 0} (repo : ReviewRepository S) where
  -- `CreateReview`, with two readings of the clock
  unfoldable pub create_review : CreateReview → ℕ → ℕ → Exec S ℕ
  create_review cmd created_at now = do
    rev ← lift (
        map_error invalid_review_error
          (new_review cmd.user_id cmd.dataset_id cmd.rating created_at cmd.text now))
    created ← on_error (wrap "create review: %w") (repo.create rev)
    pure created.id

  abbrev not_found_or : (Error → Error) → Error → Error
  not_found_or wrapped e =
      if is_repo RepoError.review_not_found e
      then service ServiceError.review_not_found
      else wrapped e

  abbrev present : Option Review → Result Review
  present none = err (service ServiceError.review_not_found)
  present (some rev) = ok rev

  abbrev store_review : UpdateReview → Review → Exec S Unit
  store_review cmd rev s =
      if in_range cmd.rating
      then on_error (not_found_or (wrap "update review: %w"))
          (repo.update (record rev { rating = cmd.rating; text = cmd.text })) s
      else raise (service ServiceError.invalid_rating) s

  -- `UpdateReview`
  unfoldable pub update_review : UpdateReview → Exec S Unit
  update_review cmd = do
    found ← on_error (not_found_or (wrap "fetch review: %w")) (read (repo.find_by_id cmd.review_id))
    rev ← lift (present found)
    store_review cmd rev

  -- `DeleteReview`
  unfoldable pub delete_review : ℕ → Exec S Unit
  delete_review id = on_error (not_found_or (wrap "delete review: %w")) (repo.delete id)

  -- `GetReviewByID`
  unfoldable pub get_review_by_id : ℕ → Exec S Review
  get_review_by_id id = do
    found ← on_error (not_found_or (wrap "get review: %w")) (read (repo.find_by_id id))
    lift (present found)

  -- `ListByDataset`
  unfoldable pub list_by_dataset : ℕ → S → Result (List Review)
  list_by_dataset dataset_id s =
      map_error (wrap "list reviews by dataset: %w") (repo.find_by_dataset_id dataset_id s)

  -- `ListByUser`
  unfoldable pub list_by_user : ℕ → S → Result (List Review)
  list_by_user user_id s =
      map_error (wrap "list reviews by user: %w") (repo.find_by_user_id user_id s)

  abbrev summarize : Result (List Review) → Result RatingSummary
  summarize (err e) = err (wrap "fetch reviews for summary: %w" e)
  summarize (ok reviews) = ok (record { sum = add_ratings (pos 0) reviews; count = length reviews })

  -- `GetRatingSummary`; without reviews both numbers are zero.
  unfoldable pub get_rating_summary : ℕ → S → Result RatingSummary
  unfolding add_ratings
  get_rating_summary dataset_id s = summarize (repo.find_by_dataset_id dataset_id s)
