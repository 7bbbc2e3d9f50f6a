-- ===== src/Heartbeat/Policy.antt =====
-- scripts/runtime/heartbeat/graph_reader.py: mission sizing of `execution_policy`.
pub mod Sizing
use gddp_runtime.Prelude.{
  ℕ, zero, suc, ◌+◌, ◌-◌, ◌≤◌, ◌<◌, String, Bool, true, false, ◌&&◌, ◌||◌, not, Option, none, some,
  List, [], ◌∷◌, ◌++◌, map, any, all, keep, All, nonempty, length, mem, if◌then◌else◌, ltb, leb,
  ◌==◌, str_eq, eq_iff, eq_refl, or_else, is_some, Result, ok, err, ◌>>=◌, ◌>>◌, guard, ◌≡◌, ◌≢◌,
  ◌↔◌, ◌⊎◌, inl, inr, refl, sym, ap, subst, ◌∙◌, arith, Bool-cases, Option-cases, min,
}
use gddp_runtime.Prelude.Int.{ℤ, pos, negsuc}

-- A configured value, as YAML gives it.
pub data Configured : Type 0 where
  absent other : Configured
  boolean : Bool → Configured
  integer : ℤ → Configured

-- `ValueError`s of `parse_execution_policy`.
pub data PolicyError : Type 0 where
  not_a_mapping engagement_size_invalid max_pairs_invalid : PolicyError

-- The two fields of a policy: no value, a mapping with them, or another value.
pub data RawPolicy : Type 0 where
  missing not_mapping : RawPolicy
  mapping : (engagement_size max_pairs : Configured) → RawPolicy

pub record MissionPolicy : Type 0 where
  pub mission_engagement_size : ℕ
  pub mission_max_pairs : ℕ

abbrev pub default_mission_engagement_size : ℕ
default_mission_engagement_size = 1

abbrev pub default_mission_max_pairs : ℕ
default_mission_max_pairs = 5

-- A positive integer, or the default where the field is absent.
unfoldable pub positive : PolicyError → ℕ → Configured → Result PolicyError ℕ
positive e default absent = ok default
positive e default other = err e
positive e default (boolean b) = err e
positive e default (integer (negsuc n)) = err e
positive e default (integer (pos zero)) = err e
positive e default (integer (pos (suc n))) = ok (suc n)

unfoldable pub fields_of : RawPolicy → Result PolicyError (Configured × Configured)
fields_of missing = ok (absent, absent)
fields_of not_mapping = err not_a_mapping
fields_of (mapping size pairs) = ok (size, pairs)

unfoldable pub parse_execution_policy : RawPolicy → Result PolicyError MissionPolicy
unfolding positive fields_of
parse_execution_policy raw = do
  f ← fields_of raw
  size ← positive engagement_size_invalid default_mission_engagement_size f.0
  pairs ← positive max_pairs_invalid default_mission_max_pairs f.1
  ok (record { mission_engagement_size = size; mission_max_pairs = pairs })

module _ {A : Type 0} where
  -- `list(islice(xs, n))`
  unfoldable pub take : ℕ → List A → List A
  take zero xs = []
  take (suc n) [] = []
  take (suc n) (x ∷ xs) = x ∷ take n xs

  unfoldable pub drop : ℕ → List A → List A
  drop zero xs = xs
  drop (suc n) [] = []
  drop (suc n) (x ∷ xs) = drop n xs

  unfoldable pub select_ready_subgraph : List A → RawPolicy → Result PolicyError (List A)
  select_ready_subgraph eligible raw = do
    policy ← parse_execution_policy raw
    ok (take (min policy.mission_engagement_size policy.mission_max_pairs) eligible)
