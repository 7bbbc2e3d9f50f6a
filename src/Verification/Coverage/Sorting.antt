-- ===== src/Verification/Coverage/Sorting.antt =====
-- What the sorting of paths keeps.
use Prim.Native.Nat.{Ordering}
use Prim.Native.String.{compare as compare_text}
use gddp_runtime.Prelude.{
  suc, String, List, [], ◌∷◌, length, Among, ◌≡◌, ◌↔◌, inl, inr, refl, ap, ◌∙◌,
}
use gddp_runtime.Verification.Coverage.{insert_path, sorted}

length-insert_path : (p : String) (ps : List String) → length (insert_path p ps) ≡ suc (length ps)
unfolding insert_path
length-insert_path p [] = refl
length-insert_path p (q ∷ qs) = go (compare_text p q) (length-insert_path p qs)
  where
    go :
        (o : Ordering)
        → length (insert_path p qs) ≡ suc (length qs)
        → length
            (elim o as (λ _. List String) [ Ordering.gt ↦ q ∷ insert_path p qs | _ ↦ p ∷ q ∷ qs ])
          ≡ suc (suc (length qs))
    go Ordering.lt h = refl
    go Ordering.eq h = refl
    go Ordering.gt h = ap suc h

pub length-sorted : (ps : List String) → length (sorted ps) ≡ length ps
unfolding sorted
length-sorted [] = refl
length-sorted (p ∷ ps) = length-insert_path p (sorted ps) ∙ ap suc (length-sorted ps)

insert_path-Among :
    (p x : String) (ps : List String)
    → (Among x (insert_path p ps) → Among x (p ∷ ps))
      × (Among x (p ∷ ps) → Among x (insert_path p ps))
unfolding insert_path
insert_path-Among p x [] = (λ h. h, λ h. h)
insert_path-Among p x (q ∷ qs) = go (compare_text p q) (insert_path-Among p x qs)
  where
    go :
        (o : Ordering)
        → (Among x (insert_path p qs) → Among x (p ∷ qs))
          × (Among x (p ∷ qs) → Among x (insert_path p qs))
        → (let placed : List String = elim o [
          | Ordering.gt ↦ q ∷ insert_path p qs
          | _ ↦ p ∷ q ∷ qs
        ] in
            (Among x placed → Among x (p ∷ q ∷ qs)) × (Among x (p ∷ q ∷ qs) → Among x placed))
    go Ordering.lt f = (λ h. h, λ h. h)
    go Ordering.eq f = (λ h. h, λ h. h)
    go Ordering.gt f = (
      λ h. elim h [
        | inl e ↦ inr (inl e)
        | inr m ↦ elim (f.0 m) [ inl e ↦ inl e | inr n ↦ inr (inr n) ]
      ],
      λ h. elim h [
        | inl e ↦ inr (f.1 (inl e))
        | inr m ↦ elim m [ inl e ↦ inl e | inr n ↦ inr (f.1 (inr n)) ]
      ],
    )

pub sorted-Among : (x : String) (ps : List String) → Among x (sorted ps) ↔ Among x ps
unfolding sorted
sorted-Among x [] = (λ h. h, λ h. h)
sorted-Among x (p ∷ ps) = (
  λ h. elim ((insert_path-Among p x (sorted ps)).0 h) [
    | inl e ↦ inl e
    | inr m ↦ inr ((sorted-Among x ps).0 m)
  ],
  λ h.
      (insert_path-Among p x (sorted ps)).1
        (elim h [ inl e ↦ inl e | inr m ↦ inr ((sorted-Among x ps).1 m) ]),
)
