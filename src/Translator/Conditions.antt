-- ===== src/Translator/Conditions.antt =====
-- The condition functions of k8s.io/apimachinery/pkg/api/meta, a parameter of the model.
use kube_agentic_networking.Common.{String, ◌≡◌, Bool, false, List, [], ◌==◌, if◌then◌else◌}
use kube_agentic_networking.Api.{Condition}

pub record ConditionOps : Type 0 where
  pub set_status_condition : List Condition → Condition → List Condition
  pub is_status_condition_true : List Condition → String → Bool
  pub is_status_condition_false : List Condition → String → Bool
  -- A condition that is set is the one that is read under its type; the others are as before.
  pub is_true-set :
      (cs : List Condition) (c : Condition) (type : String)
      → is_status_condition_true (set_status_condition cs c) type
        ≡ (if c.type == type then c.status == "True" else is_status_condition_true cs type)
  pub is_false-set :
      (cs : List Condition) (c : Condition) (type : String)
      → is_status_condition_false (set_status_condition cs c) type
        ≡ (if c.type == type then c.status == "False" else is_status_condition_false cs type)
  pub is_true-nil : (type : String) → is_status_condition_true [] type ≡ false
