-- ===== src/Heartbeat/Classifier.antt =====
-- scripts/runtime/heartbeat/classifier.py: which ready node an event asks for, and on what executor.
pub mod Chosen
pub mod Tagged
use Prim.Native.Nat.{Ordering, compare}
use gddp_runtime.Prelude.{
  ℕ, zero, suc, ◌+◌, ◌-◌, ◌≤◌, ◌<◌, String, Bool, true, false, ◌&&◌, ◌||◌, not, Option, none, some,
  List, [], ◌∷◌, ◌++◌, map, any, all, keep, All, nonempty, length, mem, if◌then◌else◌, ltb, leb,
  ◌==◌, str_eq, eq_iff, eq_refl, or_else, is_some, Result, ok, err, ◌>>=◌, ◌>>◌, guard, ◌≡◌, ◌≢◌,
  ◌↔◌, ◌⊎◌, inl, inr, refl, sym, ap, subst, ◌∙◌, arith, Bool-cases, Option-cases,
}
use gddp_runtime.Prelude.Text.{codes, is_space, is_code}
use gddp_runtime.Heartbeat.Graph.{NodeData}
use gddp_runtime.Heartbeat.Store.{
  EventRow, Payload, no_path, unreadable, saved, Routing, unparseable, selected_executor,
  Classification, find,
}

-- One letter of a pattern under `(?i)`: itself or its capital.
unfoldable pub letter : ℕ → ℕ → Bool
letter lower c = is_code c lower || is_code c (lower - 32)

-- `[a-z0-9_-]` under `(?i)`, which also takes the four letters that fold to an ASCII one.
unfoldable pub is_tag_char : ℕ → Bool
is_tag_char c =
    (leb b'a' c && leb c b'z')
    || (leb b'A' c && leb c b'Z')
    || (leb b'0' c && leb c b'9')
    || is_code c b'_'
    || is_code c b'-'
    || is_code c 0x130
    || is_code c 0x131
    || is_code c 0x17f
    || is_code c 0x212a

-- `[:\s-]`
unfoldable pub is_separator : ℕ → Bool
unfolding is_space
is_separator c = is_code c b':' || is_space c || is_code c b'-'

-- `([a-z0-9_-]+)`: the longest run, if it is not empty.
unfoldable pub tag_run : List ℕ → List ℕ
unfolding is_tag_char
tag_run [] = []
tag_run (c ∷ cs) = let rest = tag_run cs in elim (is_tag_char c) [ true ↦ c ∷ rest | false ↦ [] ]

unfoldable pub nonempty_run : List ℕ → Option (List ℕ)
nonempty_run [] = none
nonempty_run (c ∷ cs) = some (c ∷ cs)

-- `[:\s-]+([a-z0-9_-]+)`: as many separators as leave a run after them.
unfoldable pub after_node : List ℕ → Option (List ℕ)
unfolding is_separator nonempty_run tag_run
after_node [] = none
after_node (c ∷ cs) =
    let more = or_else (after_node cs) (nonempty_run (tag_run cs)) in
    elim (is_separator c) [ true ↦ more | false ↦ none ]

-- A match of `_NODE_TAG_RE` that begins here.
unfoldable pub match_here : List ℕ → Option (List ℕ)
unfolding letter after_node
match_here (n ∷ o ∷ d ∷ e ∷ rest) =
    if letter b'n' n && letter b'o' o && letter b'd' d && letter b'e' e
    then after_node rest
    else none
match_here _ = none

-- `_NODE_TAG_RE.search(text)`, its group: the leftmost match.
unfoldable pub search_tag : List ℕ → Option (List ℕ)
unfolding match_here
search_tag [] = none
search_tag (c ∷ cs) = or_else (match_here (c ∷ cs)) (search_tag cs)

-- A text that is there and not empty.
abbrev text_list : Option String → List String
text_list none = []
text_list (some t) = if str_eq t "" then [] else t ∷ []

payload_texts : Payload → List String
payload_texts no_path = []
payload_texts unreadable = []
payload_texts (saved title body merged) = text_list title ++ text_list body

unfoldable pub tag_sources : EventRow → List String
unfolding payload_texts
tag_sources e = text_list e.url ++ (text_list e.branch ++ payload_texts e.raw_payload)

unfoldable pub same_codes : List ℕ → List ℕ → Bool
same_codes [] [] = true
same_codes (a ∷ as') (b ∷ bs) = is_code a b && same_codes as' bs
same_codes _ _ = false

unfoldable pub named_node : List ℕ → NodeData → Bool
unfolding same_codes
named_node tag n = same_codes (codes n.node_id) tag

unfoldable pub tagged : List NodeData → Option (List ℕ) → Option NodeData
unfolding named_node
tagged ready none = none
tagged ready (some tag) = find (named_node tag) ready

-- The ready node that the first source with such a tag names.
unfoldable pub target_of : List NodeData → List String → Option NodeData
unfolding tagged
target_of ready [] = none
target_of ready (s ∷ sources) =
    or_else (tagged ready (search_tag (codes s))) (target_of ready sources)

unfoldable pub executor_allowed : String → List String → Bool
executor_allowed selected modes =
    not (mem selected ("agent" ∷ "human" ∷ [])) && (mem selected modes || mem "agent" modes)

unfoldable pub first_mode : List String → String
first_mode [] = "jules"
first_mode (m ∷ ms) = m

unfoldable pub pick_executor : NodeData → String
unfolding first_mode
pick_executor n = first_mode n.allowed_execution_modes

-- The operator's preselection, if the event carries one.
unfoldable pub preselected : Option Routing → Option String
preselected none = none
preselected (some unparseable) = none
preselected (some (selected_executor none)) = none
preselected (some (selected_executor (some x))) = if str_eq x "" then none else some x

unfoldable pub classification_of : NodeData → Option String → Option Classification
classification_of n none =
    some (record { matched_node_id = n.node_id; executor_recommendation = pick_executor n })
classification_of n (some x) =
    if executor_allowed x n.allowed_execution_modes
    then some (record { matched_node_id = n.node_id; executor_recommendation = x })
    else none

unfoldable pub for_target : EventRow → Option NodeData → Option Classification
unfolding classification_of
for_target e none = none
for_target e (some n) = classification_of n (preselected e.routing)

unfoldable pub classify : EventRow → List NodeData → Option Classification
unfolding for_target target_of tag_sources
classify e ready =
    if not (str_eq e.event_type "issue.opened")
    then none
    else for_target e (target_of ready (tag_sources e))
