-- ===== src/Heartbeat/Classifier/Chosen.antt =====
-- Which executor a classification names.
use gddp_runtime.Prelude.{
  String, Bool, true, false, ◌&&◌, ◌||◌, not, Option, none, some, List, [], ◌∷◌, mem, Among,
  any_of_Among, any-Among, str_eq, eq_iff, eq_refl, if◌then◌else◌, ◌≡◌, ◌≢◌, ◌↔◌, ◌⊎◌, inl, inr,
  refl, sym, ap, subst, ◌∙◌, arith,
}
use gddp_runtime.Heartbeat.Graph.{NodeData}
use gddp_runtime.Heartbeat.Store.{Classification, Routing, unparseable, selected_executor}
use gddp_runtime.Heartbeat.Classifier.{
  executor_allowed, pick_executor, first_mode, preselected, classification_of,
}

-- The modes of a node let an operator's choice through: it is a concrete executor, and is listed or
-- an agent of any kind is.
abbrev pub Permits : List String → String → Type 0
Permits modes x = ((x ≢ "agent") × (x ≢ "human")) × (Among x modes ⊎ Among "agent" modes)

-- The first mode of a node, and "jules" where it has none.
abbrev pub IsFirst : List String → String → Type 0
IsFirst [] x = x ≡ "jules"
IsFirst (m ∷ modes) x = x ≡ m

abbrev pub IsBy : NodeData → Option String → String → Type 0
IsBy n none x = IsFirst n.allowed_execution_modes x
IsBy n (some y) x = (x ≡ y) × Permits n.allowed_execution_modes y

mem_iff : (x : String) (modes : List String) → (mem x modes ≡ true) ↔ Among x modes
mem_iff x modes = (
  λ h.
      let r = any-Among (λ m. str_eq x m) modes h in
      subst (λ y. Among y modes) (sym ((eq_iff x r.0).0 r.2)) r.1,
  λ m. any_of_Among (λ y. str_eq x y) modes x m (eq_refl x),
)

executor_allowed_iff :
    (x : String) (modes : List String) → (executor_allowed x modes ≡ true) ↔ Permits modes x
unfolding executor_allowed
executor_allowed_iff x modes = (
  λ h. (
    (
      λ q. absurd (cc (h, ap (λ y. executor_allowed y modes) q)),
      λ q. absurd (cc (h, ap (λ y. executor_allowed y modes) q)),
    ),
    listed (mem x modes) refl h,
  ),
  λ p. permitted (str_eq x "agent") refl (str_eq x "human") refl p,
)
  where
    permitted :
        (a : Bool)
        → str_eq x "agent" ≡ a
        → (h : Bool) → str_eq x "human" ≡ h
        → Permits modes x
        → not (a || (h || false)) && (mem x modes || mem "agent" modes) ≡ true
    permitted true a h q p = absurd (p.0.0 ((eq_iff x "agent").0 a))
    permitted false a true q p = absurd (p.0.1 ((eq_iff x "human").0 q))
    permitted false a false q ((u, v), inl m) = let e = (mem_iff x modes).1 m in ground (arith, e)
    permitted false a false q ((u, v), inr m) =
        let e = (mem_iff "agent" modes).1 m in ground (arith, e)

    listed :
        (b : Bool)
        → mem x modes ≡ b
        → not (mem x ("agent" ∷ "human" ∷ [])) && (b || mem "agent" modes) ≡ true
        → Among x modes ⊎ Among "agent" modes
    listed true e h = inl ((mem_iff x modes).0 e)
    listed false e h = inr ((mem_iff "agent" modes).0 (ground (arith, h)))

first_mode-IsFirst : (modes : List String) → IsFirst modes (first_mode modes)
unfolding first_mode
first_mode-IsFirst [] = refl
first_mode-IsFirst (m ∷ modes) = refl

first_unique : (modes : List String) (x y : String) → IsFirst modes x → IsFirst modes y → x ≡ y
first_unique [] x y p q = p ∙ sym q
first_unique (m ∷ modes) x y p q = p ∙ sym q

classified_as : (c d : Classification) → ◌≡◌ {A = Option Classification} (some c) (some d) → c ≡ d
classified_as c d h = cc

pub classification_of_iff :
    (n : NodeData) (p : Option String) (c : Classification)
    → (classification_of n p ≡ some c)
      ↔ ((c.matched_node_id ≡ n.node_id) × IsBy n p c.executor_recommendation)
unfolding classification_of pick_executor
classification_of_iff n none c = (
  λ h.
      let e = sym (classified_as _ c h) in
      (
        ap (λ (d : Classification). d.matched_node_id) e,
        subst (IsFirst n.allowed_execution_modes)
            (sym (ap (λ (d : Classification). d.executor_recommendation) e))
            (first_mode-IsFirst n.allowed_execution_modes),
      ),
  λ q.
      let x =
        first_unique n.allowed_execution_modes (first_mode n.allowed_execution_modes)
          c.executor_recommendation (first_mode-IsFirst n.allowed_execution_modes) q.1 in
      ground (arith, q.0, x),
)
classification_of_iff n (some y) c = go (executor_allowed y n.allowed_execution_modes) refl
  where
    go :
        (b : Bool)
        → executor_allowed y n.allowed_execution_modes ≡ b
        → ((if b
              then some (record { matched_node_id = n.node_id; executor_recommendation = y })
              else none)
            ≡ some c)
          ↔ ((c.matched_node_id ≡ n.node_id) × IsBy n (some y) c.executor_recommendation)
    go false e = (
      λ h. absurd (cc (h)),
      λ q. absurd (cc (e, (executor_allowed_iff y n.allowed_execution_modes).1 q.1.1)),
    )
    go true e = (
      λ h.
          let d = sym (classified_as _ c h) in
          (
            ap (λ (k : Classification). k.matched_node_id) d,
            (
              ap (λ (k : Classification). k.executor_recommendation) d,
              (executor_allowed_iff y n.allowed_execution_modes).0 e,
            ),
          ),
      λ q. ground (arith, q.0, q.1.0),
    )

-- What an event's routing asks for: the operator's choice, or none where there is no routing, none
-- that parses, or an empty choice.
abbrev pub Asks : Option Routing → Option String → Type 0
Asks none p = p ≡ none
Asks (some unparseable) p = p ≡ none
Asks (some (selected_executor none)) p = p ≡ none
Asks (some (selected_executor (some x))) p = ((x ≡ "") × (p ≡ none)) ⊎ ((x ≢ "") × (p ≡ some x))

pub preselected-Asks : (r : Option Routing) → Asks r (preselected r)
unfolding preselected
preselected-Asks none = refl
preselected-Asks (some unparseable) = refl
preselected-Asks (some (selected_executor none)) = refl
preselected-Asks (some (selected_executor (some x))) = go (str_eq x "") refl
  where
    go :
        (b : Bool)
        → str_eq x "" ≡ b
        → ((x ≡ "") × ((if b then none else some x) ≡ none))
          ⊎ ((x ≢ "") × ((if b then none else some x) ≡ some x))
    go true e = inl ((eq_iff x "").0 e, refl)
    go false e = inr (λ q. absurd (cc (e, (eq_iff x "").1 q)), refl)
