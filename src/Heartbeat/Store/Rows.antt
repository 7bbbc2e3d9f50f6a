-- ===== src/Heartbeat/Store/Rows.antt =====
-- Laws of the reads and updates of a table.
use gddp_runtime.Prelude.{
  none, or_else, Bool, true, false, if◌then◌else◌, some, List, [], ◌∷◌, any, keep, All, Among, ◌≡◌,
  inl, inr, refl, ap, subst, arith, Bool-cases, ◌+◌, ◌++◌,
}
use gddp_runtime.Heartbeat.Store.{count, update, set_if, find, place, order_by}

pub find-some : {A : Type 0} (p : A → Bool) (xs : List A) (x : A) → find p xs ≡ some x → p x ≡ true
unfolding find
find-some p [] x h = absurd (cc)
find-some p (y ∷ ys) x h = elim (Bool-cases (p y)) [
  | inl e ↦ let same : some y ≡ some x = rw e at h in let q : y ≡ x = cc in rw (← q) e
  | inr e ↦ find-some p ys x (rw e at h)
]

pub find-Among : {A : Type 0} (p : A → Bool) (xs : List A) (x : A) → find p xs ≡ some x → Among x xs
unfolding find
find-Among p [] x h = absurd (cc)
find-Among p (y ∷ ys) x h = go (p y) (λ k. find-Among p ys x k) h
  where
    go :
        (b : Bool)
        → (find p ys ≡ some x → Among x ys)
        → or_else (if b then some y else none) (find p ys) ≡ some x
        → Among x (y ∷ ys)
    go true k e = let q : some y ≡ some x = e in let same : x ≡ y = cc in inl same
    go false k e = inr (k e)

pub find-All :
    {A : Type 0} (P : A → Type 0) (p : A → Bool) (rows : List A) (x : A)
    → All P rows
    → find p rows ≡ some x
    → P x
unfolding find
find-All P p [] x h e = absurd (cc)
find-All P p (y ∷ ys) x h e = elim (Bool-cases (p y)) [
  | inl t ↦ let same : some y ≡ some x = rw t at e in let q : y ≡ x = cc in subst P q h.0
  | inr t ↦ find-All P p ys x h.1 (rw t at e)
]

-- An update by a function that leaves what is looked for.
pub set_if_keeps :
    {A : Type 0} (p q : A → Bool) (f : A → A) (rows : List A)
    → ((a : A) → p (f a) ≡ p a)
    → All (λ a. p (set_if q f a) ≡ p a) rows
unfolding set_if
set_if_keeps p q f [] keeps = tt
set_if_keeps p q f (a ∷ rows) keeps = (ground (arith, keeps a), set_if_keeps p q f rows keeps)

-- An update that leaves what is looked for finds the same row, updated.
pub find-update :
    {A : Type 0} (p q : A → Bool) (f : A → A) (rows : List A) (x : A)
    → All (λ a. p (set_if q f a) ≡ p a) rows
    → find p rows ≡ some x
    → find p (update q f rows) ≡ some (set_if q f x)
unfolding find
find-update p q f [] x keeps e = absurd (cc)
find-update p q f (y ∷ ys) x keeps e = elim (Bool-cases (p y)) [
  | inl t ↦
      let same : some y ≡ some x = rw t at e in
      let s : y ≡ x = cc in rw (keeps.0, t) (ap (λ z. some (set_if q f z)) s)
  | inr t ↦ rw (keeps.0, t) (find-update p q f ys x keeps.1 (rw t at e))
]

module _ {A : Type 0} where
  pub update_none :
      (p : A → Bool) (f : A → A) (rows : List A) → any p rows ≡ false → update p f rows ≡ rows
  unfolding set_if
  update_none p f [] h = refl
  update_none p f (a ∷ rows) h =
      let first : p a ≡ false = ground arith in rw (first, update_none p f rows (ground arith)) refl

  pub keep_none : (p : A → Bool) (rows : List A) → any p rows ≡ false → keep p rows ≡ []
  keep_none p [] h = refl
  keep_none p (a ∷ rows) h =
      let first : p a ≡ false = ground arith in rw (first, keep) (keep_none p rows (ground arith))

module _ {A : Type 0} (before : A → A → Bool) where
  place-Among : (s x : A) (xs : List A) → Among x (place before s xs) → Among x (s ∷ xs)
  unfolding place
  place-Among s x [] h = h
  place-Among s x (y ∷ ys) h = elim (Bool-cases (before y s)) [
    | inl e ↦ swap (place-Among s x ys) (rw e at h)
    | inr e ↦ rw e at h
  ]
    where
      swap :
          (Among x (place before s ys) → Among x (s ∷ ys))
          → Among x (y ∷ place before s ys)
          → Among x (s ∷ y ∷ ys)
      swap f (inl q) = inr (inl q)
      swap f (inr m) = elim (f m) [ inl q ↦ inl q | inr n ↦ inr (inr n) ]

  -- Sorting adds no row.
  pub order_by-Among : (xs : List A) (x : A) → Among x (order_by before xs) → Among x xs
  unfolding order_by
  order_by-Among [] x h = h
  order_by-Among (s ∷ xs) x h = elim (place-Among s x (order_by before xs) h) [
    | inl q ↦ inl q
    | inr m ↦ inr (order_by-Among xs x m)
  ]

  Among-place : (s x : A) (xs : List A) → Among x (s ∷ xs) → Among x (place before s xs)
  unfolding place
  Among-place s x [] h = h
  Among-place s x (y ∷ ys) h = go (before y s) (λ m. Among-place s x ys m) h
    where
      go :
          (b : Bool)
          → (Among x (s ∷ ys) → Among x (place before s ys))
          → Among x (s ∷ y ∷ ys)
          → Among x (if b then y ∷ place before s ys else s ∷ y ∷ ys)
      go false f m = m
      go true f (inl q) = inr (f (inl q))
      go true f (inr (inl q)) = inl q
      go true f (inr (inr m)) = inr (f (inr m))

  -- Sorting loses no row.
  pub Among-order_by : (xs : List A) (x : A) → Among x xs → Among x (order_by before xs)
  unfolding order_by
  Among-order_by [] x h = h
  Among-order_by (s ∷ xs) x (inl q) = Among-place s x (order_by before xs) (inl q)
  Among-order_by (s ∷ xs) x (inr m) =
      Among-place s x (order_by before xs) (inr (Among-order_by xs x m))

module _ {A : Type 0} where
  pub count-snoc :
      (p : A → Bool) (rows : List A) (a : A)
      → count p (rows ++ a ∷ []) ≡ count p rows + (if p a then 1 else 0)
  count-snoc p [] a = ground arith
  count-snoc p (x ∷ rows) a = ground (arith, count-snoc p rows a)

  pub count-append : (p : A → Bool) (xs ys : List A) → count p (xs ++ ys) ≡ count p xs + count p ys
  count-append p [] ys = omega arith
  count-append p (x ∷ xs) ys = ground (arith, count-append p xs ys)

  pub count_cons :
      (p : A → Bool) (x : A) (xs : List A) → count p (x ∷ xs) ≡ (if p x then 1 else 0) + count p xs
  count_cons p x xs = ground arith

  -- A row that an update does not change is there after it.
  pub Among-update :
      (p : A → Bool) (f : A → A) (rows : List A) (x : A)
      → p x ≡ false
      → Among x rows
      → Among x (update p f rows)
  unfolding set_if
  Among-update p f [] x h m = absurd m
  Among-update p f (y ∷ rows) x h (inr m) = inr (Among-update p f rows x h m)
  Among-update p f (y ∷ rows) x h (inl q) = inl (go (p y) refl)
    where
      go : (b : Bool) → p y ≡ b → x ≡ (if b then f y else y)
      go true e = absurd (cc (e, h, ap p q))
      go false e = q
