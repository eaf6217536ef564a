-- ===== src/Persistence/References.antt =====
-- Tables whose rows refer to those of another table.
use easy_job.Prelude.{
  ℕ, ◌≡◌, ◌∙◌, ◌==◌, ◌||◌, not, not-true, true, false, refl, ap, List, [], ◌∷◌, ◌++◌, map,
  keep_if_passes, All, All-map, All-append, All-keep_if, All-zip, arith,
}
use easy_job.Persistence.Codec.{Codec}
use easy_job.Persistence.Tables.{TaskRow, has_key, delete_rows}
use easy_job.Persistence.Tasks.{update_row, upsert_task}

module _ {A : Type 0} (key : A → ℕ) where
  pub has_key-append_left :
      (k : ℕ) (xs ys : List A) → has_key key k xs ≡ true → has_key key k (xs ++ ys) ≡ true
  has_key-append_left k [] ys h = cc
  has_key-append_left k (x ∷ xs) ys h = ground (arith, has_key-append_left k xs ys)

  pub has_key-delete_rows :
      (j k : ℕ) (xs : List A)
      → (j == k) ≡ false
      → has_key key j xs ≡ true
      → has_key key j (delete_rows key k xs) ≡ true
  unfolding delete_rows
  has_key-delete_rows j k [] n h = cc
  has_key-delete_rows j k (x ∷ xs) n h = ground (arith, has_key-delete_rows j k xs n)

  pub has_key-map :
      (f : A → A) (k : ℕ) (xs : List A)
      → ((a : A) → key (f a) ≡ key a)
      → has_key key k (map f xs) ≡ has_key key k xs
  has_key-map f k [] h = refl
  has_key-map f k (x ∷ xs) h = simp (h x, has_key-map f k xs h)

module _ {Json : Type 0} (c : Codec Json) where
  pub has_key-upsert_task :
      (new : TaskRow Json) (k : ℕ) (rows : List (TaskRow Json))
      → has_key (λ t. t.id) k (upsert_task c new rows) ≡ (k == new.id || has_key (λ t. t.id) k rows)
  unfolding upsert_task update_row
  has_key-upsert_task new k [] = ground arith
  has_key-upsert_task new k (row ∷ rows) = ground (arith, has_key-upsert_task new k rows)

-- Each row of the table `rows` refers to a row of `parents`.
module _ {A B : Type 0} (foreign : A → ℕ) (key : B → ℕ) where
  abbrev pub Refers : List A → List B → Type 0
  Refers rows parents = All (λ a. has_key key (foreign a) parents ≡ true) rows

  pub Refers-more :
      (rows : List A) (parents more : List B)
      → ((k : ℕ) → has_key key k parents ≡ true → has_key key k more ≡ true)
      → Refers rows parents
      → Refers rows more
  Refers-more rows parents more f h =
      All-map (λ a. has_key key (foreign a) parents ≡ true)
        (λ a. has_key key (foreign a) more ≡ true) rows (λ a. f (foreign a)) h

  pub Refers-delete :
      (k : ℕ) (rows : List A) (parents : List B)
      → Refers rows parents
      → Refers (delete_rows foreign k rows) (delete_rows key k parents)
  unfolding delete_rows
  Refers-delete k rows parents h =
      All-map (λ a. (not (foreign a == k) ≡ true) × (has_key key (foreign a) parents ≡ true))
        (λ a. has_key key (foreign a) (delete_rows key k parents) ≡ true) _
        (λ a both. has_key-delete_rows key (foreign a) k parents (not-true _ both.0) both.1)
        (All-zip (λ a. not (foreign a == k) ≡ true) (λ a. has_key key (foreign a) parents ≡ true) _
          (keep_if_passes (λ a. not (foreign a == k)) rows)
          (All-keep_if (λ a. has_key key (foreign a) parents ≡ true) _ rows h))

  -- The rows of one parent are replaced by others of it.
  pub Refers-replace :
      {C : Type 0} (f : C → A) (k : ℕ) (rows : List A) (xs : List C) (parents : List B)
      → ((x : C) → foreign (f x) ≡ k)
      → has_key key k parents ≡ true
      → Refers rows parents
      → Refers (delete_rows foreign k rows ++ map f xs) parents
  unfolding delete_rows
  Refers-replace f k rows xs parents of_k known h =
      All-append (λ a. has_key key (foreign a) parents ≡ true) _ _
        (All-keep_if (λ a. has_key key (foreign a) parents ≡ true) _ rows h) (of_map xs)
    where
      of_map : (ys : List _) → All (λ a. has_key key (foreign a) parents ≡ true) (map f ys)
      of_map [] = tt
      of_map (y ∷ ys) = (ap (λ j. has_key key j parents) (of_k y) ∙ known, of_map ys)

  pub Refers-map :
      (f : A → A) (rows : List A) (parents : List B)
      → ((a : A) → foreign (f a) ≡ foreign a)
      → Refers rows parents
      → Refers (map f rows) parents
  Refers-map f [] parents e h = tt
  Refers-map f (a ∷ rows) parents e h =
      (ap (λ j. has_key key j parents) (e a) ∙ h.0, Refers-map f rows parents e h.1)
