-- ===== src/Heartbeat/Continuity.antt =====
-- scripts/runtime/heartbeat/continuity_policy.py: whether a dispatch resumes a session.
pub mod Granted
use Prim.Native.String.{String}
use Prim.Native.Char.{Char, code}
use gddp_runtime.Prelude.{
  ℕ, zero, suc, ◌+◌, ◌-◌, ◌≤◌, ◌<◌, String, Bool, true, false, ◌&&◌, ◌||◌, not, Option, none, some,
  List, [], ◌∷◌, ◌++◌, map, any, all, keep, All, nonempty, length, mem, if◌then◌else◌, ltb, leb,
  ◌==◌, str_eq, eq_iff, eq_refl, or_else, is_some, Result, ok, err, ◌>>=◌, ◌>>◌, guard, ◌≡◌, ◌≢◌,
  ◌↔◌, ◌⊎◌, inl, inr, refl, sym, ap, subst, ◌∙◌, arith, Bool-cases, Option-cases,
}
use gddp_runtime.Prelude.Text.{strip, empty_text, is_code}

abbrev pub allowed_resume_when : List String
allowed_resume_when = "operator_requested" ∷ []

abbrev pub allowed_resume_scopes : List String
allowed_resume_scopes = "attempt" ∷ "never" ∷ []

-- `default` is "cold" in every policy.
pub record SessionPolicy : Type 0 where
  pub resume_when : List String
  pub resume_scope : String
  pub require_same_cwd : Bool
  pub require_same_host : Bool

abbrev pub default_session_policy : SessionPolicy
default_session_policy = record {
  resume_when = [];
  resume_scope = "attempt";
  require_same_cwd = true;
  require_same_host = true;
}

-- A configured text, as YAML gives it.
pub data RawText : Type 0 where
  absent not_text : RawText
  text : String → RawText

-- `resume_when`: absent or null, no list, or a list by the texts of its items.
pub data RawList : Type 0 where
  unset not_a_list : RawList
  items : List String → RawList

pub data RawFlag : Type 0 where
  default_flag not_a_flag : RawFlag
  flag : Bool → RawFlag

pub record RawSessionPolicy : Type 0 where
  pub default : RawText
  pub resume_when : RawList
  pub resume_scope : Option String
  pub require_same_cwd : RawFlag
  pub require_same_host : RawFlag

-- The value of `session_policy`: none, no mapping, or a mapping.
pub data RawBlock : Type 0 where
  no_block not_a_mapping : RawBlock
  block : RawSessionPolicy → RawBlock

-- The `ValueError`s of the parser.
pub data SessionPolicyError : Type 0 where
  no_mapping resume_by_default default_not_cold when_not_a_list : SessionPolicyError
  unknown_triggers : List String → SessionPolicyError
  scope_unknown cwd_not_boolean host_not_boolean : SessionPolicyError

unfoldable pub check_default : RawText → Result SessionPolicyError (Unit {0})
check_default absent = ok tt
check_default not_text = err default_not_cold
check_default (text t) =
    if str_eq t "resume"
    then err resume_by_default
    else if str_eq t "cold"
    then ok tt
    else err default_not_cold

unfoldable pub list_of : RawList → Result SessionPolicyError (List String)
list_of unset = ok []
list_of not_a_list = err when_not_a_list
list_of (items xs) = ok xs

unfoldable pub unknown_of : List String → List String
unknown_of xs = keep (λ x. not (mem x allowed_resume_when)) xs

abbrev scope_of : Option String → String
scope_of none = "attempt"
scope_of (some s) = s

unfoldable pub require_bool : SessionPolicyError → RawFlag → Result SessionPolicyError Bool
require_bool e default_flag = ok true
require_bool e not_a_flag = err e
require_bool e (flag b) = ok b

unfoldable pub parse_block : RawSessionPolicy → Result SessionPolicyError SessionPolicy
unfolding check_default list_of unknown_of require_bool
parse_block raw = do
  checked ← check_default raw.default
  when ← list_of raw.resume_when
  guard (not (nonempty (unknown_of when))) (unknown_triggers (unknown_of when))
  guard (mem (scope_of raw.resume_scope) allowed_resume_scopes) scope_unknown
  same_cwd ← require_bool cwd_not_boolean raw.require_same_cwd
  same_host ← require_bool host_not_boolean raw.require_same_host
  ok (record {
    resume_when = when;
    resume_scope = scope_of raw.resume_scope;
    require_same_cwd = same_cwd;
    require_same_host = same_host;
  })

unfoldable pub parse_session_policy : RawBlock → Result SessionPolicyError SessionPolicy
unfolding parse_block
parse_session_policy no_block = ok default_session_policy
parse_session_policy not_a_mapping = err no_mapping
parse_session_policy (block raw) = parse_block raw

pub record ResumeRequest : Type 0 where
  pub token : String
  pub cwd : Option String
  pub host : Option String

-- A value of the marker's object: one that counts as false, a text, or another value.
pub data JsonValue : Type 0 where
  falsy other_value : JsonValue
  text_value : String → JsonValue

-- What parsing a marker's text as JSON gives.
pub data MarkerJson : Type 0 where
  not_json no_object : MarkerJson
  object : (session_id token cwd host : JsonValue) → MarkerJson

unfoldable pub either_value : JsonValue → JsonValue → JsonValue
either_value falsy b = b
either_value a b = a

abbrev text_of : JsonValue → Option String
text_of falsy = none
text_of other_value = none
text_of (text_value t) = some t

unfoldable pub request_of : JsonValue → Option String → Option String → Option ResumeRequest
request_of falsy cwd host = none
request_of other_value cwd host = none
request_of (text_value t) cwd host =
    if empty_text (strip t) then none else some (record { token = strip t; cwd = cwd; host = host })

unfoldable pub json_request : MarkerJson → Option ResumeRequest
unfolding either_value request_of
json_request not_json = none
json_request no_object = none
json_request (object session_id token cwd host) =
    request_of (either_value session_id token) (text_of cwd) (text_of host)

abbrev is_object_text : String → Bool
is_object_text String.[] = false
is_object_text (String.◌∷◌ c s) = is_code (code c) b'{'

-- `marker` is the text of the file, none where it cannot be read; `json` parses a text.
unfoldable pub read_resume_request : (String → MarkerJson) → Option String → Option ResumeRequest
unfolding json_request
read_resume_request json none = none
read_resume_request json (some t) =
    if empty_text (strip t)
    then none
    else if is_object_text (strip t)
    then json_request (json (strip t))
    else some (record { token = strip t; cwd = none; host = none })

-- The decision, with the reason of a cold turn.
pub data FreshReason : Type 0 where
  no_resume_support policy_disallows scope_never no_request : FreshReason
  other_cwd : String → FreshReason
  other_host : (recorded running : String) → FreshReason

pub data Continuity : Type 0 where
  fresh : FreshReason → Continuity
  resume : (token : String) → Continuity

-- What a turn runs on; `same_path` compares two paths as the file system resolves them.
pub record TurnHost : Type 0 where
  pub supports_resume : Bool
  pub cwd : Option String
  pub host : String
  pub same_path : String → String → Bool

unfoldable pub cwd_matches : TurnHost → SessionPolicy → Option String → Bool
cwd_matches t p none = true
cwd_matches t p (some recorded) =
    not p.require_same_cwd || elim t.cwd [ none ↦ false | some cwd ↦ t.same_path recorded cwd ]

unfoldable pub host_matches : TurnHost → SessionPolicy → Option String → Bool
host_matches t p none = true
host_matches t p (some recorded) = not p.require_same_host || str_eq recorded t.host

abbrev text_or_blank : Option String → String
text_or_blank none = ""
text_or_blank (some t) = t

unfoldable pub grant : TurnHost → SessionPolicy → Option ResumeRequest → Continuity
unfolding cwd_matches host_matches
grant t p none = fresh no_request
grant t p (some r) =
    if not (cwd_matches t p r.cwd)
    then fresh (other_cwd (text_or_blank r.cwd))
    else if not (host_matches t p r.host)
    then fresh (other_host (text_or_blank r.host) t.host)
    else resume r.token

unfoldable pub under_policy : TurnHost → Option SessionPolicy → Option ResumeRequest → Continuity
unfolding grant
under_policy t none request = grant t default_session_policy request
under_policy t (some p) request =
    if not (mem "operator_requested" p.resume_when)
    then fresh policy_disallows
    else if str_eq p.resume_scope "never"
    then fresh scope_never
    else grant t p request

unfoldable pub decide_continuity :
    TurnHost → Option SessionPolicy → Option ResumeRequest → Continuity
unfolding under_policy
decide_continuity t policy request =
    if not t.supports_resume then fresh no_resume_support else under_policy t policy request

-- A marker that is honoured is removed, if the file system lets go of it.
unfoldable pub consumed : Bool → Continuity → Option String → Option String
consumed unlinked (fresh reason) marker = marker
consumed unlinked (resume token) marker = if unlinked then none else marker

-- The decision, and what is left of the marker.
unfoldable pub choose_continuity :
    (String → MarkerJson)
    → (unlinked : Bool) → TurnHost
    → Option SessionPolicy
    → Option String
    → Continuity × Option String
unfolding decide_continuity read_resume_request consumed
choose_continuity json unlinked t policy marker =
    let decision = decide_continuity t policy (read_resume_request json marker) in
    (decision, consumed unlinked decision marker)
