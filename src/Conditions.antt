-- ===== src/Conditions.antt =====
-- The condition helpers of cluster-api (util/deprecated/v1beta1/conditions), which the controllers
-- call and which are not part of the repository, and the condition types and reasons of
-- api/v1beta1/conditions_consts.go. `S` is the list of conditions of an object.
use cluster_api_provider_elf.Base.{
  String, ◌≡◌, Bool, true, false, Option, none, some, List, str_eq, if◌then◌else◌,
}
use cluster_api_provider_elf.Base.Dict
use cluster_api_provider_elf.Base.Dict.{lookup-insert}

pub data Severity : Type 0 where
  info warning error no_severity : Severity

-- What one condition says: `true`, or `false` with its reason, severity and message.
pub data Status : Type 0 where
  is_true : Status
  is_false : String → Severity → String → Status

pub record Conditions (S : Type 0) : Type 0 where
  -- The status of the condition of a type, if the object has one.
  pub get : String → S → Option Status
  pub set : String → Status → S → S
  pub get-set :
      (t u : String) (st : Status) (s : S)
      → get u (set t st s) ≡ (if str_eq t u then some st else get u s)

-- conditions.GetMessage and conditions.GetReason are empty for a condition that is missing or true.
abbrev pub message_of : Option Status → String
message_of (some (is_false _ _ text)) = text
message_of _ = ""

abbrev pub reason_of : Option Status → String
reason_of (some (is_false why _ _)) = why
reason_of _ = ""

-- conditions.Has and conditions.IsFalse
abbrev pub has_status : Option Status → Bool
has_status none = false
has_status (some st) = true

abbrev pub false_status : Option Status → Bool
false_status (some (is_false _ _ _)) = true
false_status _ = false

module _ {S : Type 0} ⦃c : Conditions S⦄ where
  -- conditions.MarkFalse and conditions.MarkTrue
  abbrev pub mark_false : String → String → Severity → String → S → S
  mark_false t reason severity message = c.set t (is_false reason severity message)

  abbrev pub mark_true : String → S → S
  mark_true t = c.set t is_true

-- The conditions as an association list by type: the assumption can be met.
instance abbrev pub list_conditions : Conditions (List (String × Status))
list_conditions = record {
  get = Dict.lookup;
  set = Dict.insert;
  get-set = λ t u st s. lookup-insert t u st s;
}
