-- ===== src/Heartbeat/Dispatching/Groups.antt =====
-- How the dispatches are grouped.
use gddp_runtime.Prelude.{
  ok-injective, bind-ok, ℕ, zero, suc, ◌+◌, ◌≤◌, String, Bool, true, false, Option, none, some,
  List, [], ◌∷◌, ◌++◌, map, All, length, eq_iff, ok, ◌≡◌, ◌⊎◌, inl, inr, refl, sym, ap, ◌∙◌, arith,
  Bool-cases,
}
use gddp_runtime.Heartbeat.Dispatching.{
  same_base, Group, GroupKey, key_of, same_key, append_to, slices, engagement_of, singles,
  engagements, sliced, engagement_node_limit, group_dispatches,
}
use gddp_runtime.Heartbeat.Policy.{RawPolicy, MissionPolicy, parse_execution_policy, take, drop}
use gddp_runtime.Heartbeat.Policy.Sizing.{length-take-le, parse_execution_policy-pos}
use gddp_runtime.Heartbeat.Store.{count}
use gddp_runtime.Heartbeat.Store.Rows.{count-append}
use gddp_runtime.Heartbeat.Dispatching.Covering.{
  members_of, members_of-append, count-engagements, sliced_all,
}
use gddp_runtime.Heartbeat.Planning.{PlannedDispatch}

-- What a submitted group is: one dispatch whose executor takes no engagements, or an engagement of
-- at least one and at most `limit` dispatches, all of one executor that takes engagements and all on
-- one base.
abbrev pub IsGroup : (String → Bool) → ℕ → Group → Type 0
IsGroup supports limit g =
    ((g.engagement ≡ false)
      × ((p : PlannedDispatch) × (g.members ≡ p ∷ []) × (supports p.job.executor ≡ false)))
    ⊎ ((g.engagement ≡ true)
        × (1 ≤ length g.members)
        × (length g.members ≤ limit)
        × ((k : GroupKey) × All (λ p. (key_of p ≡ k) × (supports p.job.executor ≡ true)) g.members))

module _ (supports : String → Bool) where
  abbrev IsOf : GroupKey → PlannedDispatch → Type 0
  IsOf k p = (key_of p ≡ k) × (supports p.job.executor ≡ true)

  take-All :
      (k : GroupKey) (n : ℕ) (xs : List PlannedDispatch)
      → All (IsOf k) xs
      → All (IsOf k) (take n xs)
  unfolding take
  take-All k zero xs h = tt
  take-All k (suc n) [] h = tt
  take-All k (suc n) (x ∷ xs) h = (h.0, take-All k n xs h.1)

  drop-All :
      (k : GroupKey) (n : ℕ) (xs : List PlannedDispatch)
      → All (IsOf k) xs
      → All (IsOf k) (drop n xs)
  unfolding drop
  drop-All k zero xs h = h
  drop-All k (suc n) [] h = tt
  drop-All k (suc n) (x ∷ xs) h = drop-All k n xs h.1

  slices-IsGroup :
      (fuel limit : ℕ) (k : GroupKey) (xs : List PlannedDispatch)
      → All (IsOf k) xs
      → All (IsGroup supports (suc limit)) (map engagement_of (slices fuel (suc limit) xs))
  unfolding slices take
  slices-IsGroup zero limit k xs h = tt
  slices-IsGroup (suc fuel) limit k [] h = tt
  slices-IsGroup (suc fuel) limit k (x ∷ xs) h = (
    inr (
      refl,
      omega arith,
      omega (arith, length-take-le limit xs),
      (k, (h.0, take-All k limit xs h.1)),
    ),
    slices-IsGroup fuel limit k (drop (suc limit) (x ∷ xs)) (drop-All k (suc limit) (x ∷ xs) h),
  )

  All-append : (P : Group → Type 0) (xs ys : List Group) → All P xs → All P ys → All P (xs ++ ys)
  All-append P [] ys h g = g
  All-append P (x ∷ xs) ys h g = (h.0, All-append P xs ys h.1 g)

  sliced-IsGroup :
      (limit : ℕ) (gs : List (GroupKey × List PlannedDispatch))
      → All (λ e. All (IsOf e.0) e.1) gs
      → All (IsGroup supports (suc limit)) (sliced (suc limit) gs)
  unfolding sliced
  sliced-IsGroup limit [] h = tt
  sliced-IsGroup limit ((k, ps) ∷ rest) h =
      All-append (IsGroup supports (suc limit))
        (map engagement_of (slices (length ps) (suc limit) ps)) (sliced (suc limit) rest)
        (slices-IsGroup (length ps) limit k ps h.0) (sliced-IsGroup limit rest h.1)

  singles-IsGroup :
      (limit : ℕ) (ps : List PlannedDispatch) → All (IsGroup supports limit) (singles supports ps)
  unfolding singles
  singles-IsGroup limit [] = tt
  singles-IsGroup limit (p ∷ ps) = elim (Bool-cases (supports p.job.executor)) [
    | inl t ↦ rw t (singles-IsGroup limit ps)
    | inr t ↦ rw t (inl (refl, (p, refl, t)), singles-IsGroup limit ps)
  ]

  same_base-eq : (a b : Option String) → same_base a b ≡ true → a ≡ b
  unfolding same_base
  same_base-eq none none h = refl
  same_base-eq (some a) (some b) h = ap some ((eq_iff a b).0 h)
  same_base-eq none (some b) h = absurd (cc)
  same_base-eq (some a) none h = absurd (cc)

  same_key-eq : (a b : GroupKey) → same_key a b ≡ true → a ≡ b
  unfolding same_key
  same_key-eq a b h =
      let e : a.executor ≡ b.executor = (eq_iff a.executor b.executor).0 (ground arith) in
      let f : a.expected_base_commit_sha ≡ b.expected_base_commit_sha =
        same_base-eq _ _ (ground arith) in
      cc

  snoc-All :
      (k : GroupKey) (ps : List PlannedDispatch) (p : PlannedDispatch)
      → All (IsOf k) ps
      → IsOf k p
      → All (IsOf k) (ps ++ p ∷ [])
  snoc-All k [] p h g = (g, tt)
  snoc-All k (x ∷ ps) p h g = (h.0, snoc-All k ps p h.1 g)

  append_to-IsOf :
      (k : GroupKey) (p : PlannedDispatch) (gs : List (GroupKey × List PlannedDispatch))
      → IsOf k p
      → All (λ e. All (IsOf e.0) e.1) gs
      → All (λ e. All (IsOf e.0) e.1) (append_to k p gs)
  unfolding append_to
  append_to-IsOf k p [] g h = ((g, tt), tt)
  append_to-IsOf k p ((k', ps) ∷ rest) g h = elim (Bool-cases (same_key k' k)) [
    | inl e ↦ rw e (snoc-All k' ps p h.0 (g.0 ∙ sym (same_key-eq k' k e), g.1), h.1)
    | inr e ↦ rw e (h.0, append_to-IsOf k p rest g h.1)
  ]

  engagements-IsOf :
      (ps : List PlannedDispatch) (gs : List (GroupKey × List PlannedDispatch))
      → All (λ e. All (IsOf e.0) e.1) gs
      → All (λ e. All (IsOf e.0) e.1) (engagements supports ps gs)
  unfolding engagements
  engagements-IsOf [] gs h = h
  engagements-IsOf (p ∷ ps) gs h = elim (Bool-cases (supports p.job.executor)) [
    | inl t ↦ rw t (engagements-IsOf ps _ (append_to-IsOf (key_of p) p gs (refl, t) h))
    | inr t ↦ rw t (engagements-IsOf ps gs h)
  ]

grouped_lem :
    (supports : String → Bool) (limit : ℕ) (planned : List PlannedDispatch)
    (q : PlannedDispatch → Bool)
    → 1 ≤ limit
    → (count q
          (members_of (singles supports planned ++ sliced limit (engagements supports planned [])))
        ≡ count q planned)
      × All
          (IsGroup supports limit)
          (singles supports planned ++ sliced limit (engagements supports planned []))
grouped_lem supports zero planned q h = absurd (omega arith)
grouped_lem supports (suc limit) planned q h = (
  ap (count q) (members_of-append (singles supports planned) _)
      ∙ count-append q (members_of (singles supports planned)) _
      ∙ ap (λ l. count q (members_of (singles supports planned)) + count q l)
          (sliced_all limit (engagements supports planned []))
      ∙ count-engagements supports q planned []
      ∙ omega arith,
  All-append supports (IsGroup supports (suc limit)) _ _
      (singles-IsGroup supports (suc limit) planned)
      (sliced-IsGroup supports limit _ (engagements-IsOf supports planned [] tt)),
)

-- The groups of the dispatch phase, under a policy that parses, hold every planned dispatch exactly
-- as often as it was planned, whatever test picks it out, and each is one dispatch alone, or an
-- engagement of one executor on one base within the policy's limit, which is positive.
pub group_dispatches_lem :
    (supports : String → Bool) (policy : RawPolicy) (planned : List PlannedDispatch)
    (groups : List Group) (q : PlannedDispatch → Bool)
    → group_dispatches supports policy planned ≡ ok groups
    → (p : MissionPolicy) × (parse_execution_policy policy ≡ ok p)
      × (1 ≤ engagement_node_limit p)
      × (count q (members_of groups) ≡ count q planned)
      × All (IsGroup supports (engagement_node_limit p)) groups
unfolding group_dispatches
group_dispatches_lem supports policy planned groups q h =
    let b = bind-ok (parse_execution_policy policy) _ groups h in
    let made : singles supports planned
          ++ sliced (engagement_node_limit b.0) (engagements supports planned [])
        ≡ groups =
      ok-injective _ groups b.2 in
    let one = limit_pos b.0 (parse_execution_policy-pos policy b.0 b.1) in
    let g = grouped_lem supports (engagement_node_limit b.0) planned q one in
    (b.0, b.1, one, rw (← made) g.0, rw (← made) g.1)
  where
    limit_pos :
        (p : MissionPolicy)
        → (1 ≤ p.mission_engagement_size) × (1 ≤ p.mission_max_pairs)
        → 1 ≤ engagement_node_limit p
    limit_pos p h = omega arith
