-- ===== src/Sample/Store.antt =====
-- Redis in memory, which keeps its entries in a list, and soft removal in a list of tasks.
use task_scheduling_platform.Base.{
  ℕ, ◌≡◌, ◌≢◌, ◌⊎◌, inl, inr, refl, sym, subst, ap, Bool, true, false, none, some, List, [], ◌∷◌,
  ◌++◌, arith, ◌==◌, ◌&&◌, if◌then◌else◌, any, eq_iff, Elem, Bool-cases,
}
use task_scheduling_platform.Platform.Entities.{Task}
use task_scheduling_platform.Platform.Io.{
  Result, ok, Key, Part, word, number, Cached, Store, key_eq, cached, part_eq,
}
use task_scheduling_platform.Platform.Drivers.{Redis}
use task_scheduling_platform.Platform.Laws.{IsRedis, IsUp, SoftRemoves}

ok_eq : {A : Type 0} {a b : A} → ok a ≡ ok b → a ≡ b
ok_eq e = cc

part_eq_sound : (a b : Part) → part_eq a b ≡ true → a ≡ b
part_eq_sound (word s) (word t) h = ap word ((eq_iff s t).0 h)
part_eq_sound (number m) (number n) h = ground arith
part_eq_sound (word s) (number n) h = cc
part_eq_sound (number n) (word s) h = cc

part_eq_refl : (a : Part) → part_eq a a ≡ true
part_eq_refl (word s) = (eq_iff s s).1 refl
part_eq_refl (number n) = ground arith

key_eq_sound : (k l : Key) → key_eq k l ≡ true → k ≡ l
unfolding key_eq
key_eq_sound [] [] h = refl
key_eq_sound (a ∷ k) (b ∷ l) h = ground (arith, part_eq_sound a b, key_eq_sound k l)
key_eq_sound [] (b ∷ l) h = cc
key_eq_sound (a ∷ k) [] h = cc

key_eq_refl : (k : Key) → key_eq k k ≡ true
unfolding key_eq
key_eq_refl [] = refl
key_eq_refl (a ∷ k) = ground (arith, part_eq_refl a, key_eq_refl k)

-- Whether the key begins with the parts.
abbrev pub has_prefix : Key → Key → Bool
has_prefix [] k = true
has_prefix (a ∷ p) [] = false
has_prefix (a ∷ p) (b ∷ k) = part_eq a b && has_prefix p k

has_prefix_append : (p k : Key) → has_prefix p (p ++ k) ≡ true
has_prefix_append [] k = refl
has_prefix_append (a ∷ p) k = ground (arith, part_eq_refl a, has_prefix_append p k)

abbrev pub keys_with : Key → Store → List Key
keys_with p [] = []
keys_with p ((k, v) ∷ c) = if has_prefix p k then k ∷ keys_with p c else keys_with p c

abbrev pub drop_keys : List Key → Store → Store
drop_keys ks [] = []
drop_keys ks ((k, v) ∷ c) = if any (key_eq k) ks then drop_keys ks c else (k, v) ∷ drop_keys ks c

any-Elem : (j : Key) (ks : List Key) → Elem j ks → any (key_eq j) ks ≡ true
any-Elem j [] h = absurd h
any-Elem j (k ∷ ks) (inl e) = ground (arith, key_eq_refl j)
any-Elem j (k ∷ ks) (inr h) = ground (arith, any-Elem j ks h)

cached_drop :
    (ks : List Key) (c : Store) (j : Key)
    → any (key_eq j) ks ≡ true
    → cached (drop_keys ks c) j ≡ none
unfolding cached
cached_drop ks [] j h = refl
cached_drop ks ((k, v) ∷ c) j h = ground (arith, cached_drop ks c j h, key_eq_sound k j)

cached_drop_only :
    (ks : List Key) (c : Store) (j : Key) (u : Cached)
    → cached (drop_keys ks c) j ≡ some u
    → cached c j ≡ some u
unfolding cached
cached_drop_only ks [] j u h = h
cached_drop_only ks ((k, v) ∷ c) j u h =
    ground (arith, cached_drop_only ks c j u, cached_drop ks c j, key_eq_sound k j)

cached_keys :
    (p : Key) (c : Store) (j : Key) (u : Cached)
    → has_prefix p j ≡ true
    → cached c j ≡ some u
    → Elem j (keys_with p c)
unfolding cached
cached_keys p [] j u m h = absurd (ground arith)
cached_keys p ((k, v) ∷ c) j u m h = ground (arith, cached_keys p c j u m, key_eq_sound k j)

abbrev pub store_redis : Redis
store_redis = record {
  get = λ k c. ok (cached c k);
  setex = λ k _ v c. ok ((k, v) ∷ c);
  del = λ ks c. ok (drop_keys ks c);
  scan = λ p c. ok (keys_with p c ∷ []);
}

set_entry :
    (k j : Key) (v u : Cached) (c : Store)
    → cached ((k, v) ∷ c) j ≡ some u
    → ((j ≡ k) × (u ≡ v)) ⊎ (cached c j ≡ some u)
unfolding cached
set_entry k j v u c f = elim (Bool-cases (key_eq k j)) [
  | inl same ↦ inl (sym (key_eq_sound k j same), ground arith)
  | inr other ↦ inr (ground arith)
]

pub store_redis-IsRedis : IsRedis store_redis
unfolding cached
store_redis-IsRedis = record {
  get_kept = λ k c v e. cc;
  set_only = λ k ttl v c c' e j u f.
      set_entry k j v u c (subst (λ s. cached s j ≡ some u) (sym (ok_eq e)) f);
  del_gone = λ ks c c' e j h.
      subst (λ s. cached s j ≡ none) (ok_eq e) (cached_drop ks c j (any-Elem j ks h));
  del_only = λ ks c c' e j u h.
      cached_drop_only ks c j u (subst (λ s. cached s j ≡ some u) (sym (ok_eq e)) h);
  scan_all = λ p c batches e j u m h. (
    keys_with p c,
    subst (Elem (keys_with p c)) (ok_eq e) (inl refl),
    cached_keys p c j u (rw m.1 (has_prefix_append p m.0)) h,
  );
}

pub store_redis-IsUp : IsUp store_redis
store_redis-IsUp = record {
  del_runs = λ ks c. (drop_keys ks c, refl);
  scan_runs = λ p c. (keys_with p c ∷ [], refl);
}

abbrev pub mark : Task → ℕ → List Task → List Task
mark e now [] = []
mark e now (x ∷ xs) =
    (if x.id == e.id then record x { deleted_at = some now } else x) ∷ mark e now xs

abbrev pub soft : Task → ℕ → List Task → Result (Task × List Task)
soft e now t = ok (e, mark e now t)

mark_marked :
    (e : Task) (now : ℕ) (t : List Task) (x : Task)
    → Elem x (mark e now t)
    → x.id ≡ e.id
    → x.deleted_at ≢ none
mark_marked e now [] x h f = absurd h
mark_marked e now (y ∷ t) x (inl g) f = ground arith
mark_marked e now (y ∷ t) x (inr h) f = mark_marked e now t x h f

mark_stays :
    (e : Task) (now : ℕ) (t : List Task) (x : Task) → Elem x t → x.id ≢ e.id → Elem x (mark e now t)
mark_stays e now [] x h ne = absurd h
mark_stays e now (y ∷ t) x (inl g) ne =
    let same : x.id ≡ y.id = ap (λ (z : Task). z.id) g in inl (ground arith)
mark_stays e now (y ∷ t) x (inr h) ne = inr (mark_stays e now t x h ne)

mark_only :
    (e : Task) (now : ℕ) (t : List Task) (x : Task) → Elem x (mark e now t) → x.id ≢ e.id → Elem x t
mark_only e now [] x h ne = absurd h
mark_only e now (y ∷ t) x (inl g) ne = inl (ground arith)
mark_only e now (y ∷ t) x (inr h) ne = inr (mark_only e now t x h ne)

pub soft-SoftRemoves : SoftRemoves soft
soft-SoftRemoves = record {
  marked = λ e r now t t' h x k f.
      mark_marked e now t x (subst (Elem x) (sym (ap (λ z. z.1) (ok_eq h))) k) f;
  unmarked_stay =
      λ e r now t t' h x k ne. subst (Elem x) (ap (λ z. z.1) (ok_eq h)) (mark_stays e now t x k ne);
  unmarked_only = λ e r now t t' h x k ne.
      mark_only e now t x (subst (Elem x) (sym (ap (λ z. z.1) (ok_eq h))) k) ne;
}
