-- ===== src/Cache/Laws.antt =====
-- What the cache service does to the state: it never throws and it touches nothing but the cache,
-- whether Redis answers or fails. A deletion deletes while Redis is up.
use task_scheduling_platform.Base.{
  Option-cases, ◌≡◌, refl, ◌⊎◌, inl, inr, ℕ, Option, none, some, arith, List, Elem, [], ◌∷◌, subst,
}
use task_scheduling_platform.Platform.Io.{
  World, Io, ◌>>◌, Error, err, Result-cases, ok, Key, Cached, Store, cached,
}
use task_scheduling_platform.Platform.Drivers.{Platform}
use task_scheduling_platform.Platform.Laws.{IsRedis, IsUp, Matches}
use task_scheduling_platform.Cache.{put_cache, get, set, del, del_pattern, del_batches}

-- The second cache holds nothing that the first does not.
abbrev pub Shrinks : Store → Store → Type 0
Shrinks c c' = (j : Key) (u : Cached) → cached c' j ≡ some u → cached c j ≡ some u

none_of_Shrinks : (c c' : Store) → Shrinks c c' → (j : Key) → cached c j ≡ none → cached c' j ≡ none
none_of_Shrinks c c' shrinks j e = elim (Option-cases (cached c' j)) [
  | inl gone ↦ gone
  | inr (u, f) ↦ cc (shrinks j u f)
]

module _ (p : Platform) (laws : IsRedis p.redis) where
  pub get_sound :
      (key : Key) (w : World)
      → (o : Option Cached) × (get p key w ≡ (ok o, w))
        × ((v : Cached) → o ≡ some v → cached w.cache key ≡ some v)
  unfolding get
  get_sound key w = elim (Result-cases (p.redis.get key w.cache)) [
    | inl (o, e) ↦ (o, rw e, λ v f. laws.get_kept key w.cache v (rw f at e))
    | inr (x, e) ↦ (none, rw e, λ v f. cc)
  ]

  pub set_sound :
      (key : Key) (v : Cached) (ttl : ℕ) (w : World)
      → (c : Store) × (set p key v ttl w ≡ (ok tt, put_cache c w))
        × ((j : Key) (u : Cached)
            → cached c j ≡ some u
            → ((j ≡ key) × (u ≡ v)) ⊎ (cached w.cache j ≡ some u))
  unfolding set
  set_sound key v ttl w = elim (Result-cases (p.redis.setex key ttl v w.cache)) [
    | inl (c, e) ↦ (c, ground arith, laws.set_only key ttl v w.cache c e)
    | inr (x, e) ↦ (w.cache, ground arith, λ j u f. inr f)
  ]

  pub del_sound :
      (key : Key) (w : World)
      → (c : Store) × (del p key w ≡ (ok tt, put_cache c w))
        × Shrinks w.cache c
        × (IsUp p.redis → cached c key ≡ none)
  unfolding del
  del_sound key w = elim (Result-cases (p.redis.del (key ∷ []) w.cache)) [
    | inl (c, e) ↦ (
      c,
      ground arith,
      laws.del_only (key ∷ []) w.cache c e,
      λ up. laws.del_gone (key ∷ []) w.cache c e key (inl refl),
    )
    | inr (x, e) ↦
        (w.cache, ground arith, λ j u f. f, λ up. let (c, f) = up.del_runs (key ∷ []) w.cache in cc)
  ]

  del_batches_step :
      (k : Key) (ks : List Key) (batches : List (List Key)) (w : World) (c : Store)
      → p.redis.del (k ∷ ks) w.cache ≡ ok c
      → del_batches p ((k ∷ ks) ∷ batches) w ≡ del_batches p batches (put_cache c w)
  unfolding del_batches
  del_batches_step k ks batches w c e = ground arith

  del_batches_sound :
      (batches : List (List Key)) (w : World)
      → (c : Store) × ((del_batches p batches w ≡ (ok tt, put_cache c w))
          ⊎ ((e : Error) × (del_batches p batches w ≡ (err e, put_cache c w))))
        × Shrinks w.cache c
        × (IsUp p.redis
            → (del_batches p batches w ≡ (ok tt, put_cache c w))
              × ((ks : List Key) (j : Key) → Elem ks batches → Elem j ks → cached c j ≡ none))
  unfolding del_batches
  del_batches_sound [] w = (w.cache, inl refl, λ j u f. f, λ up. (refl, λ ks j h k. absurd h))
  del_batches_sound ([] ∷ batches) w =
      let (c, e, shrinks, gone) = del_batches_sound batches w in
      (
        c,
        e,
        shrinks,
        λ up. (
          (gone up).0,
          λ ks j h k. elim h [
            | inl f ↦ absurd (subst (Elem j) f k)
            | inr h' ↦ (gone up).1 ks j h' k
          ],
        ),
      )
  del_batches_sound ((k ∷ ks) ∷ batches) w = elim (Result-cases (p.redis.del (k ∷ ks) w.cache)) [
    | inl (c, e) ↦
        let (c', f, shrinks, gone) = del_batches_sound batches (put_cache c w) in
        let step = del_batches_step k ks batches w c e in
        let keeps = laws.del_only (k ∷ ks) w.cache c e in
        (
          c',
          rw step f,
          λ j u g. keeps j u (shrinks j u g),
          λ up. (
            rw step (gone up).0,
            λ ls j h i. elim h [
              | inl g ↦
                  none_of_Shrinks c c' shrinks j
                    (laws.del_gone (k ∷ ks) w.cache c e j (subst (Elem j) g i))
              | inr h' ↦ (gone up).1 ls j h' i
            ],
          ),
        )
    | inr (x, e) ↦ (
      w.cache,
      inr (x, ground arith),
      λ j u f. f,
      λ up. let (c, f) = up.del_runs (k ∷ ks) w.cache in cc,
    )
  ]

  -- Deleting a pattern: the call returns, only entries disappear, and while Redis is up every entry
  -- that matches the pattern is gone.
  pub del_pattern_sound :
      (pattern : Key) (w : World)
      → (c : Store) × (del_pattern p pattern w ≡ (ok tt, put_cache c w))
        × Shrinks w.cache c
        × (IsUp p.redis → (j : Key) → Matches pattern j → cached c j ≡ none)
  unfolding del_pattern
  del_pattern_sound pattern w = elim (Result-cases (p.redis.scan pattern w.cache)) [
    | inl (batches, e) ↦
        let (c, f, shrinks, gone) = del_batches_sound batches w in
        (
          c,
          elim f [ inl g ↦ ground arith | inr (x, g) ↦ ground arith ],
          shrinks,
          λ up j m. elim (Option-cases (cached w.cache j)) [
            | inl never ↦ none_of_Shrinks w.cache c shrinks j never
            | inr (u, kept) ↦
                let (ks, listed, stands) = laws.scan_all pattern w.cache batches e j u m kept in
                (gone up).1 ks j listed stands
          ],
        )
    | inr (x, e) ↦
        (w.cache, ground arith, λ j u f. f, λ up. let (bs, f) = up.scan_runs pattern w.cache in cc)
  ]

  -- The eviction that closes every write: one key, a pattern, and then the rest of the method.
  pub evict_sound :
      {A : Type 0} (key pattern : Key) (rest : Io A) (w : World)
      → (c : Store) × ((del p key >> (del_pattern p pattern >> rest)) w ≡ rest (put_cache c w))
        × Shrinks w.cache c
        × (IsUp p.redis
            → (cached c key ≡ none) × ((j : Key) → Matches pattern j → cached c j ≡ none))
  evict_sound key pattern rest w =
      let (c, e, shrinks, gone) = del_sound key w in
      let (c', e', shrinks', gone') = del_pattern_sound pattern (put_cache c w) in
      (
        c',
        ground arith,
        λ j u f. shrinks j u (shrinks' j u f),
        λ up. (none_of_Shrinks c c' shrinks' key (gone up), gone' up),
      )
