-- ===== src/Platform/Loops.antt =====
-- `for (const x of xs) await f(x)`: the loop stops at the first throw.
use task_scheduling_platform.Base.{List, [], ◌∷◌, ◌≡◌, refl, inl, inr, arith, Elem, subst, sym, ap}
use task_scheduling_platform.Platform.Io.{World, Io, ok, pure, ◌>>◌, Result-cases, pair_eq}

module _ {A : Type 0} where
  unfoldable pub for_each : List A → (A → Io (Unit {0})) → Io (Unit {0})
  for_each [] f = pure tt
  for_each (x ∷ xs) f = f x >> for_each xs f

  -- What every round keeps, the loop keeps.
  pub for_each-keeps :
      (P : World → Type 0) (f : A → Io (Unit {0})) (xs : List A) (w : World)
      → ((x : A) → Elem x xs → (v : World) → P v → P (f x v).1)
      → P w
      → P (for_each xs f w).1
  unfolding for_each
  for_each-keeps P f [] w step h = h
  for_each-keeps P f (x ∷ xs) w step h = elim (Result-cases (f x w).0) [
    | inl (_, e) ↦
        let after : (for_each xs f (f x w).1).1 ≡ (for_each (x ∷ xs) f w).1 = ground arith in
        subst P after
          (for_each-keeps P f xs (f x w).1 (λ y k. step y (inr k)) (step x (inl refl) w h))
    | inr (x', e) ↦
        let after : (f x w).1 ≡ (for_each (x ∷ xs) f w).1 = ground arith in
        subst P after (step x (inl refl) w h)
  ]

  -- In a loop that returns, every round has returned.
  pub for_each-ok :
      (R : World → World → Type 0) (f : A → Io (Unit {0})) (xs : List A) (w w' : World)
      → ((v : World) → R v v)
      → ((u v z : World) → R u v → R v z → R u z)
      → ((x : A) (v : World) → R v (f x v).1)
      → for_each xs f w ≡ (ok tt, w')
      → (x : A) → Elem x xs
      → (u v : World) × R w u × (f x u ≡ (ok tt, v)) × R v w'
  unfolding for_each
  for_each-ok R f [] w w' r t s h x k = absurd k
  for_each-ok R f (y ∷ ys) w w' r t s h x k = elim (Result-cases (f y w).0) [
    | inl (_, e) ↦
        let rest : for_each ys f (f y w).1 ≡ (ok tt, w') = ground arith in
        elim k [
          | inl same ↦
              let last : R (f y w).1 (for_each ys f (f y w).1).1 =
                for_each-keeps (R (f y w).1) f ys (f y w).1 (λ z _ v g. t _ v _ g (s z v))
                  (r (f y w).1) in
              (
                w,
                (f y w).1,
                r w,
                subst (λ z. f z w ≡ (ok tt, (f y w).1)) (sym same) (pair_eq _ e),
                subst (R (f y w).1) (ap (λ z. z.1) rest) last,
              )
          | inr later ↦
              let (u, v, before, run, beyond) =
                for_each-ok R f ys (f y w).1 w' r t s rest x later in
              (u, v, t w (f y w).1 u (s y w) before, run, beyond)
        ]
    | inr (x', e) ↦ absurd (ground arith)
  ]

  -- What every round that returns does, a loop that returns does.
  pub for_each-relates :
      (R : World → World → Type 0) (f : A → Io (Unit {0})) (xs : List A) (w w' : World)
      → ((v : World) → R v v)
      → ((u v z : World) → R u v → R v z → R u z)
      → ((x : A) → Elem x xs → (u v : World) → R w u → f x u ≡ (ok tt, v) → R u v)
      → for_each xs f w ≡ (ok tt, w')
      → R w w'
  unfolding for_each
  for_each-relates R f [] w w' r t s h = subst (R w) (ap (λ z. z.1) h) (r w)
  for_each-relates R f (y ∷ ys) w w' r t s h = elim (Result-cases (f y w).0) [
    | inl (_, e) ↦
        let rest : for_each ys f (f y w).1 ≡ (ok tt, w') = ground arith in
        let first = s y (inl refl) w (f y w).1 (r w) (pair_eq _ e) in
        t w (f y w).1 w' first (
          for_each-relates R f ys (f y w).1 w' r t
            (λ x k u v g. s x (inr k) u v (t w (f y w).1 u first g)) rest)
    | inr (x', e) ↦ absurd (ground arith)
  ]
