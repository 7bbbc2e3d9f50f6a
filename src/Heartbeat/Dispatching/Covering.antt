-- ===== src/Heartbeat/Dispatching/Covering.antt =====
-- The groups of a dispatch phase leave none out.
use mathlib.Core.List.{append_assoc}
use gddp_runtime.Prelude.{
  ℕ, zero, suc, ◌+◌, ◌≤◌, String, Bool, List, [], ◌∷◌, ◌++◌, map, length, if◌then◌else◌, ◌≡◌, inl,
  inr, refl, sym, ap, ◌∙◌, arith, Bool-cases,
}
use gddp_runtime.Heartbeat.Dispatching.{
  Group, GroupKey, key_of, same_key, append_to, slices, engagement_of, singles, engagements, sliced,
}
use gddp_runtime.Heartbeat.Policy.{take, drop}
use gddp_runtime.Heartbeat.Policy.Sizing.{take-drop}
use gddp_runtime.Heartbeat.Store.{count}
use gddp_runtime.Heartbeat.Store.Rows.{count-snoc, count-append, count_cons}
use gddp_runtime.Heartbeat.Planning.{PlannedDispatch}

-- All members of the groups, in their order.
abbrev pub members_of : List Group → List PlannedDispatch
members_of [] = []
members_of (g ∷ rest) = g.members ++ members_of rest

abbrev pub listed : List (GroupKey × List PlannedDispatch) → List PlannedDispatch
listed [] = []
listed ((k, ps) ∷ rest) = ps ++ listed rest

pub members_of-append :
    (xs ys : List Group) → members_of (xs ++ ys) ≡ members_of xs ++ members_of ys
members_of-append [] ys = refl
members_of-append (g ∷ xs) ys =
    ap (λ r. g.members ++ r) (members_of-append xs ys) ∙ sym (append_assoc g.members _ _)

length-drop : (n : ℕ) (xs : List PlannedDispatch) → length (drop n xs) ≤ length xs
unfolding drop
length-drop zero xs = omega arith
length-drop (suc n) [] = omega arith
length-drop (suc n) (x ∷ xs) = omega (arith, length-drop n xs)

-- The slices of a list make up the list, and as much fuel as it is long is enough.
slices_all :
    (fuel limit : ℕ) (xs : List PlannedDispatch)
    → length xs ≤ fuel
    → members_of (map engagement_of (slices fuel (suc limit) xs)) ≡ xs
unfolding slices drop
slices_all zero limit [] h = refl
slices_all zero limit (x ∷ xs) h = absurd (omega arith)
slices_all (suc fuel) limit [] h = refl
slices_all (suc fuel) limit (x ∷ xs) h =
    ap (λ r. take (suc limit) (x ∷ xs) ++ r) (slices_all fuel limit _ (shorter h))
    ∙ take-drop (suc limit) (x ∷ xs)
  where
    shorter : suc (length xs) ≤ suc fuel → length (drop limit xs) ≤ fuel
    shorter h = omega (arith, length-drop limit xs)

module _ (supports : String → Bool) (q : PlannedDispatch → Bool) where
  count-append_to :
      (k : GroupKey) (p : PlannedDispatch) (gs : List (GroupKey × List PlannedDispatch))
      → count q (listed (append_to k p gs)) ≡ count q (listed gs) + (if q p then 1 else 0)
  unfolding append_to
  count-append_to k p [] = ground arith
  count-append_to k p ((k', ps) ∷ rest) = elim (Bool-cases (same_key k' k)) [
    | inl e ↦
        rw
          (
            e,
            count-append q (ps ++ p ∷ []) (listed rest),
            count-snoc q ps p,
            count-append q ps (listed rest),
          )
          (omega arith)
    | inr e ↦
        rw
          (
            e,
            count-append q ps (listed (append_to k p rest)),
            count-append q ps (listed rest),
            count-append_to k p rest,
          )
          (omega arith)
  ]

  pub count-engagements :
      (ps : List PlannedDispatch) (gs : List (GroupKey × List PlannedDispatch))
      → count q (members_of (singles supports ps)) + count q (listed (engagements supports ps gs))
        ≡ count q (listed gs) + count q ps
  unfolding singles engagements
  count-engagements [] gs = omega arith
  count-engagements (p ∷ ps) gs = elim (Bool-cases (supports p.job.executor)) [
    | inl t ↦
        rw (t, count_cons q p ps)
          (omega (
            arith,
            count-engagements ps (append_to (key_of p) p gs),
            count-append_to (key_of p) p gs,
          ))
    | inr t ↦
        rw (t, count_cons q p ps, count_cons q p (members_of (singles supports ps)))
          (omega (arith, count-engagements ps gs))
  ]

pub sliced_all :
    (limit : ℕ) (gs : List (GroupKey × List PlannedDispatch))
    → members_of (sliced (suc limit) gs) ≡ listed gs
unfolding sliced
sliced_all limit [] = refl
sliced_all limit ((k, ps) ∷ rest) =
    members_of-append (map engagement_of (slices (length ps) (suc limit) ps))
      (sliced (suc limit) rest)
    ∙ ap (λ r. r ++ members_of (sliced (suc limit) rest))
        (slices_all (length ps) limit ps (omega arith))
    ∙ ap (λ r. ps ++ r) (sliced_all limit rest)
