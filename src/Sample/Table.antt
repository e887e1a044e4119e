-- ===== src/Sample/Table.antt =====
-- A table in memory: a repository over a list of rows whose ids it counts up.
use task_scheduling_platform.Base.{
  ℕ, ◌+◌, ◌<◌, ◌≡◌, ◌≢◌, ◌⊎◌, inl, inr, refl, sym, subst, ap, ◌∙◌, Bool, true, false, not, Option,
  none, some, List, [], ◌∷◌, ◌++◌, length, arith, ◌==◌, ltb, if◌then◌else◌, select, Elem,
  Elem-append, Elem-append_left, Elem-append_right, Elem-select, Elem-select_intro, Bool-cases,
}
use task_scheduling_platform.Platform.Io.{ok}
use task_scheduling_platform.Platform.Drivers.{Repository}
use task_scheduling_platform.Platform.Laws.{Finds, Saves, Identifies, Updates, Removes}

ok-injective : {A : Type 0} {a b : A} → ok a ≡ ok b → a ≡ b
ok-injective e = cc

module _ {Row : Type 0} where
  abbrev pub first : (Row → Bool) → List Row → Option Row
  first p [] = none
  first p (x ∷ xs) = let rest = first p xs in if p x then some x else rest

  abbrev pub patch : (Row → Bool) → (Row → Row) → List Row → List Row
  patch p f [] = []
  patch p f (x ∷ xs) = (if p x then f x else x) ∷ patch p f xs

  first_holds :
      (p : Row → Bool) (t : List Row) (r : Row) → first p t ≡ some r → (p r ≡ true) × Elem r t
  first_holds p [] r h = absurd (ground arith)
  first_holds p (x ∷ xs) r h = ground (arith, first_holds p xs r)

  first-none : (p : Row → Bool) (t : List Row) (x : Row) → first p t ≡ none → Elem x t → p x ≡ false
  first-none p [] x h k = absurd k
  first-none p (y ∷ xs) x h k = ground (arith, first-none p xs x)

  select_none :
      (p : Row → Bool) (t : List Row) (x : Row) → length (select p t) ≡ 0 → Elem x t → p x ≡ false
  select_none p [] x h k = absurd k
  select_none p (y ∷ xs) x h k = ground (arith, select_none p xs x)

  select_some :
      (p : Row → Bool) (t : List Row)
      → length (select p t) ≢ 0
      → (x : Row) × Elem x t × (p x ≡ true)
  select_some p [] nz = absurd (nz refl)
  select_some p (y ∷ xs) nz = elim (Bool-cases (p y)) [
    | inl hit ↦ (y, inl refl, hit)
    | inr miss ↦
        let (x, listed, hit) = select_some p xs (λ z. nz (ground arith)) in (x, inr listed, hit)
  ]

  patch_only :
      (p : Row → Bool) (f : Row → Row) (t : List Row) (y : Row)
      → Elem y (patch p f t)
      → (x : Row) × Elem x t × (((p x ≡ true) × (y ≡ f x)) ⊎ ((p x ≡ false) × (y ≡ x)))
  patch_only p f [] y h = absurd h
  patch_only p f (x ∷ xs) y (inl e) = elim (Bool-cases (p x)) [
    | inl c ↦ (x, inl refl, inl (c, ground arith))
    | inr c ↦ (x, inl refl, inr (c, ground arith))
  ]
  patch_only p f (x ∷ xs) y (inr h) =
      let (z, listed, which) = patch_only p f xs y h in (z, inr listed, which)

  patch_hit :
      (p : Row → Bool) (f : Row → Row) (t : List Row) (x : Row)
      → Elem x t
      → p x ≡ true
      → Elem (f x) (patch p f t)
  patch_hit p f [] x h c = absurd h
  patch_hit p f (y ∷ xs) x (inl e) c = inl (ground arith)
  patch_hit p f (y ∷ xs) x (inr h) c = inr (patch_hit p f xs x h c)

  patch_miss :
      (p : Row → Bool) (f : Row → Row) (t : List Row) (x : Row)
      → Elem x t
      → p x ≡ false
      → Elem x (patch p f t)
  patch_miss p f [] x h c = absurd h
  patch_miss p f (y ∷ xs) x (inl e) c = inl (ground arith)
  patch_miss p f (y ∷ xs) x (inr h) c = inr (patch_miss p f xs x h c)

module _ {Row : Type 0} (id_of : Row → ℕ) (with_id : ℕ → Row → Row) where
  abbrev pub fresh : List Row → ℕ
  fresh [] = 1
  fresh (x ∷ xs) = let n = fresh xs in if ltb (id_of x) n then n else id_of x + 1

  fresh_above : (t : List Row) (x : Row) → Elem x t → id_of x < fresh t
  fresh_above [] x h = absurd h
  fresh_above (y ∷ xs) x (inl e) = let f : id_of x ≡ id_of y = ap id_of e in ground arith
  fresh_above (y ∷ xs) x (inr h) = ground (arith, fresh_above xs x h)

  fresh_pos : (t : List Row) → 0 < fresh t
  fresh_pos [] = omega arith
  fresh_pos (x ∷ xs) = ground (arith, fresh_pos xs)

  abbrev pub without : ℕ → List Row → List Row
  without n = select (λ r. not (id_of r == n))

  abbrev pub named : Row → List Row → Row
  named e t = if id_of e == 0 then with_id (fresh t) e else e

  abbrev pub store : Row → List Row → Row × List Row
  store e t = (named e t, without (id_of (named e t)) t ++ named e t ∷ [])

  abbrev pub table : Repository Row
  table = record {
    find_one = λ p t. ok (first p t);
    find = λ p t. ok (select p t);
    find_sorted = λ p _ _ t. ok (select p t);
    count = λ p t. ok (length (select p t));
    save = λ e t. ok (store e t);
    update = λ p f t. ok (patch p f t);
    remove = λ e t. ok (e, without (id_of e) t);
  }

  pub table-Finds : Finds table
  table-Finds = record {
    found_holds = λ p t r e. (first_holds p t r (ok-injective e)).0;
    found_elem = λ p t r e. (first_holds p t r (ok-injective e)).1;
    none_found = λ p t x e k. first-none p t x (ok-injective e) k;
    all_found = λ p t xs e x k. Elem-select p x t (subst (Elem x) (sym (ok-injective e)) k);
    found_all = λ p t xs e x k h. subst (Elem x) (ok-injective e) (Elem-select_intro p x t k h);
    all_sorted = λ p _ _ t xs e x k. Elem-select p x t (subst (Elem x) (sym (ok-injective e)) k);
    count_some = λ p t n e nz. select_some p t (λ z. nz (sym (ok-injective e) ∙ z));
    count_zero = λ p t e x k. select_none p t x (ok-injective e) k;
  }

  pub table-Updates : Updates table
  table-Updates = record {
    patched = λ p f t t' e x k h. subst (Elem (f x)) (ok-injective e) (patch_hit p f t x k h);
    untouched = λ p f t t' e x k h. subst (Elem x) (ok-injective e) (patch_miss p f t x k h);
    updated_only = λ p f t t' e y k. patch_only p f t y (subst (Elem y) (sym (ok-injective e)) k);
  }

  without-Elem : (n : ℕ) (t : List Row) (x : Row) → Elem x (without n t) → Elem x t × (id_of x ≢ n)
  without-Elem n t x h =
      let (k, e) = Elem-select (λ r. not (id_of r == n)) x t h in (k, λ f. ground arith)

  without_intro : (n : ℕ) (t : List Row) (x : Row) → Elem x t → id_of x ≢ n → Elem x (without n t)
  without_intro n t x k ne = Elem-select_intro (λ r. not (id_of r == n)) x t k (ground arith)

  pub table-Removes : Removes id_of table
  table-Removes = record {
    removed = λ e r t t' h x k.
        without-Elem (id_of e) t x (subst (Elem x) (sym (ap (λ z. z.1) (ok-injective h))) k);
    not_removed = λ e r t t' h x k ne.
        subst (Elem x) (ap (λ z. z.1) (ok-injective h)) (without_intro (id_of e) t x k ne);
  }

  saved_row : (e r : Row) (t t' : List Row) → table.save e t ≡ ok (r, t') → named e t ≡ r
  saved_row e r t t' h = ap (λ z. z.0) (ok-injective h)

  saved_table :
      (e r : Row) (t t' : List Row)
      → table.save e t ≡ ok (r, t')
      → without (id_of r) t ++ r ∷ [] ≡ t'
  saved_table e r t t' h =
      let f : named e t ≡ r = saved_row e r t t' h in
      let g : without (id_of (named e t)) t ++ named e t ∷ [] ≡ t' =
        ap (λ z. z.1) (ok-injective h) in
      rw (← f) g

  named_old : (e : Row) (t : List Row) → id_of e ≢ 0 → named e t ≡ e
  named_old e t nz = ground arith

  named_new : (e : Row) (t : List Row) → id_of e ≡ 0 → named e t ≡ with_id (fresh t) e
  named_new e t z = ground arith

  -- A key that is made of other columns needs no fresh one.
  module _ (Stored : Row → Row → Type 0) (self : (e : Row) → Stored e e)
      (with_stored : (n : ℕ) (e : Row) → Stored e (with_id n e)) where
    stored_named : (e : Row) (t : List Row) → Stored e (named e t)
    stored_named e t = elim (Bool-cases (id_of e == 0)) [
      | inl new ↦ rw new (with_stored (fresh t) e)
      | inr old ↦ rw old (self e)
    ]

    pub table-Saves_keyed : Saves id_of Stored table
    table-Saves_keyed = record {
      saved_elem = λ e r t t' h.
          subst (Elem r) (saved_table e r t t' h)
            (Elem-append_right r (without (id_of r) t) (r ∷ []) (inl refl));
      saved_columns = λ e r t t' h. subst (Stored e) (saved_row e r t t' h) (stored_named e t);
      saved_only = λ e r t t' h x k.
          elim (Elem-append x (without (id_of r) t) (r ∷ [])
            (subst (Elem x) (sym (saved_table e r t t' h)) k)) [
              | inl old ↦ inr (without-Elem (id_of r) t x old)
              | inr new ↦ elim new [ inl f ↦ inl f | inr none_left ↦ absurd none_left ]
            ];
      saved_others = λ e r t t' h x k ne.
          subst (Elem x) (saved_table e r t t' h)
            (Elem-append_left x (without (id_of r) t) (r ∷ []) (without_intro (id_of r) t x k ne));
    }

  module _ (id_of_with : (n : ℕ) (r : Row) → id_of (with_id n r) ≡ n) where
    fresh_row :
        (e r : Row) (t t' : List Row)
        → table.save e t ≡ ok (r, t')
        → id_of e ≡ 0
        → id_of r ≡ fresh t
    fresh_row e r t t' h z =
        ap id_of (sym (saved_row e r t t' h) ∙ named_new e t z) ∙ id_of_with (fresh t) e

    pub table-Identifies : Identifies id_of table
    table-Identifies = record {
      kept_id = λ e r t t' h nz. ap id_of (sym (saved_row e r t t' h) ∙ named_old e t nz);
      fresh_id = λ e r t t' h z. (
        λ k. omega (arith, fresh_row e r t t' h z, fresh_pos t),
        λ x k f. omega (arith, fresh_row e r t t' h z, fresh_above t x k),
      );
    }

    pub table-Saves :
        (Stored : Row → Row → Type 0) (self : (e : Row) → Stored e e)
        (with_stored : (n : ℕ) (e : Row) → Stored e (with_id n e))
        → Saves id_of Stored table
    table-Saves Stored self with_stored = table-Saves_keyed Stored self with_stored
