-- ===== src/Platform/Laws.antt =====
-- What the code relies on in the packages of Platform/Drivers.antt: hypotheses of the theorems.
use task_scheduling_platform.Base.{
  ℕ, ◌≡◌, ◌≢◌, ◌⊎◌, Bool, true, false, none, some, List, Elem, ◌++◌,
}
use task_scheduling_platform.Platform.Entities.{Task}
use task_scheduling_platform.Platform.Io.{Result, ok, Key, Cached, Store, cached}
use task_scheduling_platform.Platform.Drivers.{Repository, Redis}

-- Finding: an answer is a stored row that meets the condition, and no answer means no such row.
pub record Finds {Row : Type 0} (repo : Repository Row) : Type 0 where
  pub found_holds :
      (p : Row → Bool) (t : List Row) (r : Row) → repo.find_one p t ≡ ok (some r) → p r ≡ true
  pub found_elem :
      (p : Row → Bool) (t : List Row) (r : Row) → repo.find_one p t ≡ ok (some r) → Elem r t
  pub none_found :
      (p : Row → Bool) (t : List Row) (x : Row)
      → repo.find_one p t ≡ ok none
      → Elem x t
      → p x ≡ false
  pub all_found :
      (p : Row → Bool) (t xs : List Row)
      → repo.find p t ≡ ok xs
      → (x : Row) → Elem x xs
      → Elem x t × (p x ≡ true)
  pub found_all :
      (p : Row → Bool) (t xs : List Row)
      → repo.find p t ≡ ok xs
      → (x : Row) → Elem x t
      → p x ≡ true
      → Elem x xs
  pub all_sorted :
      (p : Row → Bool) (column : Row → ℕ) (desc : Bool) (t xs : List Row)
      → repo.find_sorted p column desc t ≡ ok xs
      → (x : Row) → Elem x xs
      → Elem x t × (p x ≡ true)
  pub count_some :
      (p : Row → Bool) (t : List Row) (n : ℕ)
      → repo.count p t ≡ ok n
      → n ≢ 0
      → (x : Row) × Elem x t × (p x ≡ true)
  pub count_zero :
      (p : Row → Bool) (t : List Row) → repo.count p t ≡ ok 0 → (x : Row) → Elem x t → p x ≡ false

-- Saving an entity under the key `key_of`: the row that comes back is stored in place of any row
-- with its key, the columns that the code sets are kept (`Stored`), and the other rows stay.
pub record Saves {Row K : Type 0} (key_of : Row → K) (Stored : Row → Row → Type 0)
    (repo : Repository Row) : Type 0 where
  pub saved_elem : (e r : Row) (t t' : List Row) → repo.save e t ≡ ok (r, t') → Elem r t'
  pub saved_columns : (e r : Row) (t t' : List Row) → repo.save e t ≡ ok (r, t') → Stored e r
  pub saved_only :
      (e r : Row) (t t' : List Row)
      → repo.save e t ≡ ok (r, t')
      → (x : Row) → Elem x t'
      → (x ≡ r) ⊎ (Elem x t × (key_of x ≢ key_of r))
  pub saved_others :
      (e r : Row) (t t' : List Row)
      → repo.save e t ≡ ok (r, t')
      → (x : Row) → Elem x t
      → key_of x ≢ key_of r
      → Elem x t'

-- The id of a saved row: its own if it had one, and a fresh one otherwise.
pub record Identifies {Row : Type 0} (id_of : Row → ℕ) (repo : Repository Row) : Type 0 where
  pub kept_id :
      (e r : Row) (t t' : List Row) → repo.save e t ≡ ok (r, t') → id_of e ≢ 0 → id_of r ≡ id_of e
  pub fresh_id :
      (e r : Row) (t t' : List Row)
      → repo.save e t ≡ ok (r, t')
      → id_of e ≡ 0
      → (id_of r ≢ 0) × ((x : Row) → Elem x t → id_of x ≢ id_of r)

-- A bulk update patches the rows that meet the condition and no others.
pub record Updates {Row : Type 0} (repo : Repository Row) : Type 0 where
  pub patched :
      (p : Row → Bool) (f : Row → Row) (t t' : List Row)
      → repo.update p f t ≡ ok t'
      → (x : Row) → Elem x t
      → p x ≡ true
      → Elem (f x) t'
  pub untouched :
      (p : Row → Bool) (f : Row → Row) (t t' : List Row)
      → repo.update p f t ≡ ok t'
      → (x : Row) → Elem x t
      → p x ≡ false
      → Elem x t'
  pub updated_only :
      (p : Row → Bool) (f : Row → Row) (t t' : List Row)
      → repo.update p f t ≡ ok t'
      → (y : Row) → Elem y t'
      → (x : Row) × Elem x t × (((p x ≡ true) × (y ≡ f x)) ⊎ ((p x ≡ false) × (y ≡ x)))

-- A removed row is gone, and the rows with other keys stay.
pub record Removes {Row K : Type 0} (key_of : Row → K) (repo : Repository Row) : Type 0 where
  pub removed :
      (e r : Row) (t t' : List Row)
      → repo.remove e t ≡ ok (r, t')
      → (x : Row) → Elem x t'
      → Elem x t × (key_of x ≢ key_of e)
  pub not_removed :
      (e r : Row) (t t' : List Row)
      → repo.remove e t ≡ ok (r, t')
      → (x : Row) → Elem x t
      → key_of x ≢ key_of e
      → Elem x t'

-- A soft removal marks the row as deleted, and the rows with other ids stay.
pub record SoftRemoves (soft_remove : Task → ℕ → List Task → Result (Task × List Task))
    : Type 0 where
  pub marked :
      (e r : Task) (now : ℕ) (t t' : List Task)
      → soft_remove e now t ≡ ok (r, t')
      → (x : Task) → Elem x t'
      → x.id ≡ e.id
      → x.deleted_at ≢ none
  pub unmarked_stay :
      (e r : Task) (now : ℕ) (t t' : List Task)
      → soft_remove e now t ≡ ok (r, t')
      → (x : Task) → Elem x t
      → x.id ≢ e.id
      → Elem x t'
  pub unmarked_only :
      (e r : Task) (now : ℕ) (t t' : List Task)
      → soft_remove e now t ≡ ok (r, t')
      → (x : Task) → Elem x t'
      → x.id ≢ e.id
      → Elem x t

-- A key matches the pattern of a prefix and `*`.
abbrev pub Matches : Key → Key → Type 0
Matches prefix key = (rest : Key) × (key ≡ prefix ++ rest)

-- Redis answers only with what is kept, entries may expire, a deletion deletes, and a scan finds
-- every key that matches.
pub record IsRedis (redis : Redis) : Type 0 where
  pub get_kept :
      (k : Key) (c : Store) (v : Cached) → redis.get k c ≡ ok (some v) → cached c k ≡ some v
  pub set_only :
      (k : Key) (ttl : ℕ) (v : Cached) (c c' : Store)
      → redis.setex k ttl v c ≡ ok c'
      → (j : Key) (u : Cached) → cached c' j ≡ some u
      → ((j ≡ k) × (u ≡ v)) ⊎ (cached c j ≡ some u)
  pub del_gone :
      (ks : List Key) (c c' : Store)
      → redis.del ks c ≡ ok c'
      → (j : Key) → Elem j ks
      → cached c' j ≡ none
  pub del_only :
      (ks : List Key) (c c' : Store)
      → redis.del ks c ≡ ok c'
      → (j : Key) (u : Cached) → cached c' j ≡ some u
      → cached c j ≡ some u
  pub scan_all :
      (prefix : Key) (c : Store) (batches : List (List Key))
      → redis.scan prefix c ≡ ok batches
      → (j : Key) (u : Cached) → Matches prefix j
      → cached c j ≡ some u
      → (ks : List Key) × Elem ks batches × Elem j ks

-- No deletion or scan is lost: the connection is up. The code swallows their errors.
pub record IsUp (redis : Redis) : Type 0 where
  pub del_runs : (ks : List Key) (c : Store) → (c' : Store) × (redis.del ks c ≡ ok c')
  pub scan_runs :
      (prefix : Key) (c : Store) → (batches : List (List Key)) × (redis.scan prefix c ≡ ok batches)
