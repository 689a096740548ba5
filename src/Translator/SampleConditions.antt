-- ===== src/Translator/SampleConditions.antt =====
-- A concrete instance of the functions on conditions, for the witnesses.
use kube_agentic_networking.Common.{
  String, ◌≡◌, refl, Bool, false, List, [], ◌∷◌, ◌==◌, if◌then◌else◌, eq_iff, arith,
}
use kube_agentic_networking.Api.{Condition}
use kube_agentic_networking.Translator.Conditions.{ConditionOps}

-- The condition of a type is replaced in its place.
unfoldable pub set_first : List Condition → Condition → List Condition
set_first [] c = c ∷ []
set_first (d ∷ cs) c = let rest = set_first cs c in if d.type == c.type then c ∷ cs else d ∷ rest

unfoldable pub has_status : String → List Condition → String → Bool
has_status status [] type = false
has_status status (d ∷ cs) type =
    let rest = has_status status cs type in if d.type == type then d.status == status else rest

pub has_status-set :
    (status : String) (cs : List Condition) (c : Condition) (type : String)
    → has_status status (set_first cs c) type
      ≡ (if c.type == type then c.status == status else has_status status cs type)
unfolding has_status set_first
has_status-set status [] c type = refl
has_status-set status (d ∷ cs) c type = ground (
  arith,
  has_status-set status cs c type,
  eq_iff d.type c.type,
  eq_iff c.type type,
  eq_iff d.type type,
)

unfoldable pub condition_ops : ConditionOps
unfolding has_status set_first
condition_ops = record {
  set_status_condition = set_first;
  is_status_condition_true = has_status "True";
  is_status_condition_false = has_status "False";
  is_true-set = has_status-set "True";
  is_false-set = has_status-set "False";
  is_true-nil = λ type. refl;
}
