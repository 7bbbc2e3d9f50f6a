-- ===== src/Prelude/Lists.antt =====
-- Python's `any`, `all`, `in` and `len` over lists, with their laws.
use Prim.Native.Nat.{ℕ, suc}
use Prim.Native.String.{String}
use mathlib.Core.Path.{◌≡◌, refl, sym, ap, subst, ◌∙◌}
use mathlib.Core.Logic.{◌⊎◌, inl, inr}
use mathlib.Core.Bool.{Bool, true, false, ◌&&◌, ◌||◌, not}
use mathlib.Core.List.{List, [], ◌∷◌, ◌++◌, map}
use native.Mathlib.Omega.{arith}
use text.Mathlib.Text.{◌==◌}

module _ {ℓ} {A : Type ℓ} where
  abbrev pub any : (A → Bool) → List A → Bool
  any p [] = false
  any p (x ∷ xs) = p x || any p xs

  abbrev pub all : (A → Bool) → List A → Bool
  all p [] = true
  all p (x ∷ xs) = p x && all p xs

  abbrev pub keep : (A → Bool) → List A → List A
  keep p [] = []
  keep p (x ∷ xs) = let rest = keep p xs in elim (p x) [ true ↦ x ∷ rest | false ↦ rest ]

  abbrev pub length : List A → ℕ
  length [] = 0
  length (x ∷ xs) = suc (length xs)

  -- `bool(xs)`
  abbrev pub nonempty : List A → Bool
  nonempty [] = false
  nonempty (x ∷ xs) = true

  -- A predicate on every element, as a tuple.
  abbrev pub All {κ} : (A → Type κ) → List A → Type κ
  All P [] = Unit
  All P (x ∷ xs) = P x × All P xs

  All-cons_if {κ} :
      (P : A → Type κ) (b : Bool) (x : A) (rest : List A)
      → P x
      → All P rest
      → All P (elim b [ true ↦ x ∷ rest | false ↦ rest ])
  All-cons_if P true x rest hx h = (hx, h)
  All-cons_if P false x rest hx h = h

  -- What holds of every element holds of those that a test keeps.
  pub All-keep {κ} : (P : A → Type κ) (p : A → Bool) (xs : List A) → All P xs → All P (keep p xs)
  All-keep P p [] h = tt
  All-keep P p (x ∷ xs) h = All-cons_if P (p x) x (keep p xs) h.0 (All-keep P p xs h.1)

  pub not-any : (p : A → Bool) (xs : List A) → not (any p xs) ≡ all (λ x. not (p x)) xs
  not-any p [] = refl
  not-any p (x ∷ xs) = ground (arith, not-any p xs)

  pub not-all : (p : A → Bool) (xs : List A) → not (all p xs) ≡ any (λ x. not (p x)) xs
  not-all p [] = refl
  not-all p (x ∷ xs) = ground (arith, not-all p xs)

  pub any-append : (p : A → Bool) (xs ys : List A) → any p (xs ++ ys) ≡ (any p xs || any p ys)
  any-append p [] ys = refl
  any-append p (x ∷ xs) ys = ground (arith, any-append p xs ys)

-- `s in names`
abbrev pub mem : String → List String → Bool
mem s names = any (λ n. s == n) names

module _ {ℓ} {A : Type ℓ} where
  pub any-false : (p : A → Bool) (xs : List A) → any p xs ≡ false → All (λ x. p x ≡ false) xs
  any-false p [] h = tt
  any-false p (x ∷ xs) h = (ground arith, any-false p xs (ground arith))

  pub all-true : (p : A → Bool) (xs : List A) → all p xs ≡ true → All (λ x. p x ≡ true) xs
  all-true p [] h = tt
  all-true p (x ∷ xs) h = (ground arith, all-true p xs (ground arith))

  pub any_of_All : (p : A → Bool) (xs : List A) → All (λ x. p x ≡ false) xs → any p xs ≡ false
  any_of_All p [] h = refl
  any_of_All p (x ∷ xs) h = ground (arith, any_of_All p xs h.1)

  pub all_of_All : (p : A → Bool) (xs : List A) → All (λ x. p x ≡ true) xs → all p xs ≡ true
  all_of_All p [] h = refl
  all_of_All p (x ∷ xs) h = ground (arith, all_of_All p xs h.1)

  pub All-imp {κ μ} :
      (P : A → Type κ) (Q : A → Type μ) (f : (x : A) → P x → Q x) (xs : List A)
      → All P xs
      → All Q xs
  All-imp P Q f [] h = tt
  All-imp P Q f (x ∷ xs) h = (f x h.0, All-imp P Q f xs h.1)

  pub All-map {κ μ} :
      {B : Type κ} (P : B → Type μ) (f : A → B) (xs : List A)
      → All (λ x. P (f x)) xs
      → All P (map f xs)
  All-map P f [] h = tt
  All-map P f (x ∷ xs) h = (h.0, All-map P f xs h.1)

module _ {A : Type 0} where
  -- `x in xs`, as a proposition.
  abbrev pub Among : A → List A → Type 0
  Among x [] = ⊥
  Among x (y ∷ ys) = (x ≡ y) ⊎ Among x ys

  keep-first :
      (p : A → Bool) (b : Bool) (x y : A) (kept rest : List A)
      → p y ≡ b
      → (Among x kept → Among x rest × (p x ≡ true))
      → Among x (elim b [ true ↦ y ∷ kept | false ↦ kept ])
      → Among x (y ∷ rest) × (p x ≡ true)
  keep-first p true x y kept rest e f (inl q) = (inl q, ap p q ∙ e)
  keep-first p true x y kept rest e f (inr m) = (inr (f m).0, (f m).1)
  keep-first p false x y kept rest e f m = (inr (f m).0, (f m).1)

  pub keep-Among :
      (p : A → Bool) (xs : List A) (x : A) → Among x (keep p xs) → Among x xs × (p x ≡ true)
  keep-Among p [] x h = absurd h
  keep-Among p (y ∷ ys) x h = keep-first p (p y) x y (keep p ys) ys refl (keep-Among p ys x) h

  kept_first :
      (b : Bool) (x y : A) (kept : List A)
      → (x ≡ y) × (b ≡ true) ⊎ Among x kept
      → Among x (elim b [ true ↦ y ∷ kept | false ↦ kept ])
  kept_first true x y kept (inl q) = inl q.0
  kept_first true x y kept (inr m) = inr m
  kept_first false x y kept (inl q) = absurd (cc (q.1))
  kept_first false x y kept (inr m) = m

  pub Among-keep :
      (p : A → Bool) (xs : List A) (x : A) → Among x xs → p x ≡ true → Among x (keep p xs)
  Among-keep p [] x m h = absurd m
  Among-keep p (y ∷ ys) x (inl q) h = kept_first (p y) x y (keep p ys) (inl (q, ap p (sym q) ∙ h))
  Among-keep p (y ∷ ys) x (inr m) h = kept_first (p y) x y (keep p ys) (inr (Among-keep p ys x m h))

  pub All-Among {κ} : (P : A → Type κ) (xs : List A) (x : A) → All P xs → Among x xs → P x
  All-Among P [] x h m = absurd m
  All-Among P (y ∷ ys) x h (inl q) = subst P (sym q) h.0
  All-Among P (y ∷ ys) x h (inr m) = All-Among P ys x h.1 m

  pub All_of_Among {κ} : (P : A → Type κ) (xs : List A) → ((x : A) → Among x xs → P x) → All P xs
  All_of_Among P [] f = tt
  All_of_Among P (x ∷ xs) f = (f x (inl refl), All_of_Among P xs (λ y m. f y (inr m)))

  pub any_of_Among :
      (p : A → Bool) (xs : List A) (x : A) → Among x xs → p x ≡ true → any p xs ≡ true
  any_of_Among p [] x m h = absurd m
  any_of_Among p (y ∷ ys) x (inl q) h =
      let first : p y ≡ true = ap p (sym q) ∙ h in ground (arith, first)
  any_of_Among p (y ∷ ys) x (inr m) h = ground (arith, any_of_Among p ys x m h)

  pub any-Among :
      (p : A → Bool) (xs : List A) → any p xs ≡ true → (x : A) × Among x xs × (p x ≡ true)
  any-Among p [] h = absurd (cc)
  any-Among p (y ∷ ys) h = go (p y) refl (λ k. any-Among p ys k) h
    where
      go :
          (b : Bool)
          → p y ≡ b
          → (any p ys ≡ true → (x : A) × Among x ys × (p x ≡ true))
          → b || any p ys ≡ true
          → (x : A) × Among x (y ∷ ys) × (p x ≡ true)
      go true e k h = (y, inl refl, e)
      go false e k h = let r = k h in (r.0, inr r.1, r.2)
