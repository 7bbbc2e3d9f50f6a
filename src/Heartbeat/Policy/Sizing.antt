-- ===== src/Heartbeat/Policy/Sizing.antt =====
-- What a parsed policy promises, and what is selected under it.
use gddp_runtime.Prelude.{
  bind-ok, min, ap, ok, ◌++◌, ◌≡◌, ℕ, zero, suc, ◌≤◌, List, [], ◌∷◌, length, arith, nonempty, refl,
}
use gddp_runtime.Heartbeat.Policy.{
  pos, default_mission_max_pairs, integer, max_pairs_invalid, default_mission_engagement_size,
  engagement_size_invalid, fields_of, Configured, MissionPolicy, PolicyError, RawPolicy,
  parse_execution_policy, positive, select_ready_subgraph, take, drop,
}

pub length-take-le :
    {A : Type 0} (n : ℕ) (xs : List A) → (length (take n xs) ≤ n) × (length (take n xs) ≤ length xs)
unfolding take
length-take-le zero xs = (omega arith, omega arith)
length-take-le (suc n) [] = (omega arith, omega arith)
length-take-le (suc n) (x ∷ xs) = omega (arith, length-take-le n xs)

positive-pos :
    (e : PolicyError) (d : ℕ) (c : Configured) (n : ℕ) → 1 ≤ d → positive e d c ≡ ok n → 1 ≤ n
unfolding positive
positive-pos e d Configured.absent n p h = ground arith
positive-pos e d (integer (pos (suc k))) n p h = ground arith
positive-pos e d _ n p h = absurd (cc)

pub parse_execution_policy-pos :
    (raw : RawPolicy) (p : MissionPolicy)
    → parse_execution_policy raw ≡ ok p
    → (1 ≤ p.mission_engagement_size) × (1 ≤ p.mission_max_pairs)
unfolding parse_execution_policy
parse_execution_policy-pos raw p h =
    let f = bind-ok (fields_of raw) _ p h in
    let s =
      bind-ok (positive engagement_size_invalid default_mission_engagement_size f.0.0) _ p f.2 in
    let q = bind-ok (positive max_pairs_invalid default_mission_max_pairs f.0.1) _ p s.2 in
    (
      ground (arith, positive-pos engagement_size_invalid 1 f.0.0 s.0 (omega arith) s.1, q.2),
      ground (arith, positive-pos max_pairs_invalid 5 f.0.1 q.0 (omega arith) q.1, q.2),
    )

pub take-nonempty : {A : Type 0} (n : ℕ) (xs : List A) → 1 ≤ n → nonempty (take n xs) ≡ nonempty xs
unfolding take
take-nonempty zero xs p = absurd (omega arith)
take-nonempty (suc n) [] p = refl
take-nonempty (suc n) (x ∷ xs) p = refl

pub take-drop : {A : Type 0} (n : ℕ) (xs : List A) → take n xs ++ drop n xs ≡ xs
unfolding take drop
take-drop zero xs = refl
take-drop (suc n) [] = refl
take-drop (suc n) (x ∷ xs) = ap (λ r. x ∷ r) (take-drop n xs)

-- A selection under a policy that parses is a prefix of the eligible pairs, no longer than the
-- engagement size nor than the maximum of pairs, both of which are positive, and it is empty
-- exactly where nothing is eligible.
pub select_ready_subgraph_lem :
    {A : Type 0} (eligible chosen : List A) (raw : RawPolicy)
    → select_ready_subgraph eligible raw ≡ ok chosen
    → (p : MissionPolicy) × (parse_execution_policy raw ≡ ok p)
      × (length chosen ≤ p.mission_engagement_size)
      × (length chosen ≤ p.mission_max_pairs)
      × ((rest : List A) × (chosen ++ rest ≡ eligible))
      × (nonempty chosen ≡ nonempty eligible)
unfolding select_ready_subgraph
select_ready_subgraph_lem eligible chosen raw h =
    let p = bind-ok (parse_execution_policy raw) _ chosen h in
    let n = min p.0.mission_engagement_size p.0.mission_max_pairs in
    let e : take n eligible ≡ chosen = ground (arith, p.2) in
    let b = parse_execution_policy-pos raw p.0 p.1 in
    (
      p.0,
      p.1,
      rw (← e) (omega (arith, length-take-le n eligible)),
      rw (← e) (omega (arith, length-take-le n eligible)),
      (drop n eligible, rw (← e) (take-drop n eligible)),
      rw (← e) (take-nonempty n eligible (omega arith)),
    )
