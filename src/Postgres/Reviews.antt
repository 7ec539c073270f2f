-- ===== src/Postgres/Reviews.antt =====
-- postqbuild/review_repo.go: the reviews.
use dataset_service.Base.{
  ℕ, String, Option, none, some, List, [], ◌∷◌, ltb, ◌-◌, ◌%◌, if◌then◌else◌,
}
use dataset_service.Base.Time.{ℤ, pos, negsuc}
use dataset_service.Errors.{repo, wrap, review_not_found}
use dataset_service.Exec.{Result, err, Exec}
use dataset_service.Entities.{Review}
use dataset_service.Postgres.Statements.{
  Value, uint, int, text, instant, cause, Pool, Statement, Insert, select_from, insert_returning_id,
  update_where, delete_where, eq,
}
use dataset_service.Postgres.Methods.{
  pointer, scan_error, find_one, find_many, change_rows, insert_row,
}
use dataset_service.Repositories.{ReviewRepository}

-- `entities.Rating(row.Rating)`, which keeps the low eight bits as a signed number.
abbrev to_int8 : ℤ → ℤ
to_int8 (pos n) = if ltb (n % 256) 128 then pos (n % 256) else negsuc (255 - n % 256)
to_int8 (negsuc n) = if ltb (n % 256) 128 then negsuc (n % 256) else pos (255 - n % 256)

-- `row.toEntity()` after the `Scan` of a row.
abbrev pub scan_review : List Value → Option Review
scan_review
      (uint id
        ∷ uint user_id
        ∷ uint dataset_id
        ∷ int rating
        ∷ instant created_at
        ∷ text body
        ∷ []) =
    some (record {
      id = id;
      user_id = user_id;
      dataset_id = dataset_id;
      rating = to_int8 rating;
      created_at = created_at;
      text = body;
    })
scan_review _ = none

abbrev pub review_columns : List String
review_columns = "id" ∷ "user_id" ∷ "dataset_id" ∷ "rating" ∷ "created_at" ∷ "text" ∷ []

abbrev pub insert_review : Review → Insert
insert_review e =
    insert_returning_id "reviews" ("user_id" ∷ "dataset_id" ∷ "rating" ∷ "created_at" ∷ "text" ∷ [])
      (uint e.user_id
        ∷ uint e.dataset_id
        ∷ int e.rating
        ∷ instant e.created_at
        ∷ Value.text e.text
        ∷ [])

module _ {S : Type 0} (pool : Pool S) where
  unfoldable pub create : Review → Exec S Review
  create e s =
      insert_row pool (insert_review e) (wrap "build insert review sql: %w" (cause scan_error))
        (λ e. wrap "create review: %w" (cause e)) (λ id. record e { id = id }) s

  unfoldable pub update : Review → Exec S Unit
  update e s =
      change_rows pool
        (Statement.update (
          update_where "reviews" (("rating", int e.rating) ∷ ("text", Value.text e.text) ∷ [])
            (eq "id" (uint e.id))))
        (wrap "build update review sql: %w" (cause scan_error))
        (λ e. wrap "update review: %w" (cause e)) (repo review_not_found) s

  unfoldable pub delete : ℕ → Exec S Unit
  delete id s =
      change_rows pool (Statement.delete (delete_where "reviews" (eq "id" (uint id))))
        (wrap "build delete review sql: %w" (cause scan_error))
        (λ e. wrap "delete review: %w" (cause e)) (repo review_not_found) s

  unfoldable pub find_by_id : ℕ → S → Result (Option Review)
  find_by_id id s =
      find_one (λ vs. pointer (scan_review vs)) pool
        (select_from review_columns "reviews" (eq "id" (uint id)))
        (wrap "build find review by id sql: %w" (cause scan_error)) (err (repo review_not_found))
        (λ e. wrap "find review by id: %w" (cause e)) s

  unfoldable pub find_by_dataset_id : ℕ → S → Result (List Review)
  find_by_dataset_id dataset_id s =
      find_many scan_review pool
        (record (select_from review_columns "reviews" (eq "dataset_id" (uint dataset_id))) {
          order_by = some "created_at DESC";
        })
        (wrap "build find reviews by dataset sql: %w" (cause scan_error))
        (λ e. wrap "query reviews by dataset: %w" (cause e))
        (λ e. wrap "scan review row: %w" (cause e)) (λ e. wrap "iterate review rows: %w" (cause e))
        s

  unfoldable pub find_by_user_id : ℕ → S → Result (List Review)
  find_by_user_id user_id s =
      find_many scan_review pool
        (record (select_from review_columns "reviews" (eq "user_id" (uint user_id))) {
          order_by = some "created_at DESC";
        })
        (wrap "build find reviews by user sql: %w" (cause scan_error))
        (λ e. wrap "query reviews by user: %w" (cause e))
        (λ e. wrap "scan review row: %w" (cause e)) (λ e. wrap "iterate review rows: %w" (cause e))
        s

  -- `ReviewRepo` as a `ReviewRepository`.
  abbrev pub review_repo : ReviewRepository S
  review_repo = record {
    create = create;
    update = update;
    delete = delete;
    find_by_id = find_by_id;
    find_by_dataset_id = find_by_dataset_id;
    find_by_user_id = find_by_user_id;
  }
