-- ===== src/Services/Dataset/Naming/Keys.antt =====
-- `datasetObjectKey` puts every file of a version into the folder of that version.
use dataset_service.Base.{
  ℕ, not, Bool, ◌≡◌, refl, inl, inr, ◌⊎◌, true, false, List, [], ◌∷◌, ◌++◌, ◌==◌, arith, ◌&&◌, All,
  if◌then◌else◌, Bool-cases, ◌||◌, ap, ◌∙◌,
}
use dataset_service.Text.{Text, codes, is_empty, text_eq, text_eq_iff, trim_space}
use dataset_service.Text.Digits.{digits-Lacks}
use dataset_service.Text.Split.{Lacks, split, push_head, split-Lacks, split-append}
use dataset_service.Text.Decimal.{format_uint, format_uint-IsNumber}
use dataset_service.Services.Dataset.Naming.{
  slash, strip_slashes, base, last_part, object_name, dataset_object_key,
}

abbrev AllLack : List Text → Type 0
AllLack ps = All (Lacks slash) ps

push_head-AllLack :
    (c : ℕ) (ps : List Text) → (c == slash) ≡ false → AllLack ps → AllLack (push_head c ps)
push_head-AllLack c [] other h = ((other, tt), tt)
push_head-AllLack c (p ∷ ps) other h = ((other, h.0), h.1)

push-AllLack :
    (c : ℕ) (ps : List Text) → AllLack ps → AllLack (if c == slash then [] ∷ ps else push_head c ps)
push-AllLack c ps h = elim (Bool-cases (c == slash)) [
  | inl same ↦ rw same (tt, h)
  | inr other ↦ rw other (push_head-AllLack c ps other h)
]

split-AllLack : (s : Text) → AllLack (split slash s)
unfolding split
split-AllLack [] = (tt, tt)
split-AllLack (c ∷ s) = push-AllLack c (split slash s) (split-AllLack s)

last_part-Lacks :
    (p : Text) (ps : List Text) → Lacks slash p → AllLack ps → Lacks slash (last_part p ps)
last_part-Lacks p [] h hs = h
last_part-Lacks p (q ∷ qs) h hs = last_part-Lacks q qs hs.0 hs.1

last_part-cons :
    (c : ℕ) (p : Text) (ps : List Text)
    → is_empty (last_part p ps) ≡ false
    → is_empty (last_part (c ∷ p) ps) ≡ false
last_part-cons c p [] h = refl
last_part-cons c p (q ∷ qs) h = h

last_part-push_head :
    (c : ℕ) (ps : List Text)
    → is_empty (last_part [] ps) ≡ false
    → is_empty (last_part [] (push_head c ps)) ≡ false
last_part-push_head c [] h = refl
last_part-push_head c (p ∷ ps) h = last_part-cons c p ps h

-- The part after the last slash, of a text that does not end in one, is not empty.
last_part-strip_slashes :
    (s : Text)
    → is_empty (strip_slashes s) ≡ false
    → is_empty (last_part [] (split slash (strip_slashes s))) ≡ false
unfolding strip_slashes split
last_part-strip_slashes [] h = h
last_part-strip_slashes (c ∷ s) h =
    ground (arith, last_part-strip_slashes s, last_part-push_head c (split slash (strip_slashes s)))

-- `filepath.Base` returns a single slash, or a name without any slash that is not empty.
base-Lacks :
    (path : Text)
    → (base path ≡ codes "/") ⊎ (Lacks slash (base path) × (is_empty (base path) ≡ false))
unfolding base
base-Lacks [] = inr ((refl, tt), refl)
base-Lacks (c ∷ path) = elim (Bool-cases (is_empty (strip_slashes (c ∷ path)))) [
  | inl only_slashes ↦ inl (rw only_slashes)
  | inr more ↦ inr (
    rw more (last_part-Lacks [] _ tt (split-AllLack (strip_slashes (c ∷ path)))),
    rw more (last_part-strip_slashes (c ∷ path) more),
  )
]

Lacks-append : (s t : Text) → Lacks slash s → Lacks slash t → Lacks slash (s ++ t)
Lacks-append [] t hs ht = ht
Lacks-append (c ∷ s) t hs ht = (hs.0, Lacks-append s t hs.1 ht)

abbrev has_no_slash : Text → Bool
has_no_slash [] = true
has_no_slash (c ∷ s) = not (c == slash) && has_no_slash s

check-Lacks : (s : Text) → has_no_slash s ≡ true → Lacks slash s
check-Lacks [] h = tt
check-Lacks (c ∷ s) h = (ground (arith, h), check-Lacks s (ground (arith, h)))

format_uint-Lacks : (n : ℕ) → Lacks slash (format_uint n)
format_uint-Lacks n = digits-Lacks slash refl (format_uint n) (format_uint-IsNumber n).1

-- A name that can stand in a folder: no slash, not empty, not the folder itself.
abbrev pub IsName : Text → Type 0
IsName name = Lacks slash name × (is_empty name ≡ false) × (text_eq name (codes ".") ≡ false)

fallback-IsName : (n : ℕ) → IsName (codes "dataset-" ++ format_uint n ++ codes ".bin")
unfolding text_eq
fallback-IsName n = (
  Lacks-append (codes "dataset-") (format_uint n ++ codes ".bin")
      (check-Lacks (codes "dataset-") refl)
      (Lacks-append (format_uint n) (codes ".bin") (format_uint-Lacks n)
        (check-Lacks (codes ".bin") refl)),
  refl,
  refl,
)

named-IsName :
    (n : ℕ) (name : Text)
    → (name ≡ codes "/") ⊎ (Lacks slash name × (is_empty name ≡ false))
    → IsName (
        if text_eq name (codes ".") || text_eq name (codes "/")
        then codes "dataset-" ++ format_uint n ++ codes ".bin"
        else name)
named-IsName n name h = elim (Bool-cases (text_eq name (codes "."))) [
  | inl dot ↦ rw dot (fallback-IsName n)
  | inr no_dot ↦ elim (Bool-cases (text_eq name (codes "/"))) [
    | inl same ↦ rw (no_dot, same) (fallback-IsName n)
    | inr other ↦
        rw (no_dot, other)
          (elim h [
            | inl is_slash ↦ ground (arith, (text_eq_iff name (codes "/")).1 is_slash)
            | inr named ↦ (named.0, named.1, no_dot)
          ])
  ]
]

object_name-IsName : (dataset_id : ℕ) (file_name : Text) → IsName (object_name dataset_id file_name)
object_name-IsName dataset_id file_name =
    let given = trim_space file_name in
    let name =
      base (if is_empty given then codes "dataset-" ++ format_uint dataset_id else given) in
    named-IsName dataset_id name (base-Lacks _)

-- The key of an uploaded file has four parts between slashes: the word `datasets`, the number of
-- the dataset, the version, and a name that is not empty and not a single dot. The file name that
-- the user gave cannot add a part. The version is one without a slash.
pub split-dataset_object_key :
    (dataset_id : ℕ) (version file_name : Text)
    → Lacks slash version
    → (split slash (dataset_object_key dataset_id version file_name)
        ≡ codes "datasets"
          ∷ format_uint dataset_id
          ∷ version
          ∷ object_name dataset_id file_name
          ∷ [])
      × IsName (object_name dataset_id file_name)
unfolding dataset_object_key
split-dataset_object_key dataset_id version file_name h =
    let name = object_name dataset_id file_name in
    let is_name = object_name-IsName dataset_id file_name in
    (
      split-append slash (codes "datasets") _ (check-Lacks (codes "datasets") refl)
          ∙ ap (λ rest. codes "datasets" ∷ rest)
              (split-append slash (format_uint dataset_id) _ (format_uint-Lacks dataset_id)
                ∙ ap (λ rest. format_uint dataset_id ∷ rest)
                    (split-append slash version name h
                      ∙ ap (λ rest. version ∷ rest) (split-Lacks slash name is_name.0))),
      is_name,
    )
