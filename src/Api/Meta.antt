-- ===== src/Api/Meta.antt =====
-- Object metadata, conditions and the answers of the API server and of its listers.
use kube_agentic_networking.Common.{ℕ, String, List, Option}

pub record ObjectMeta : Type 0 where
  pub name : String
  pub namespace : String
  pub generation : ℕ
  pub deletion_timestamp : Option ℕ
  pub finalizers : List String
  pub labels : List (String × String)

-- `metav1.Condition` less its time of transition, which the program never reads.
pub record Condition : Type 0 where
  pub type : String
  pub status : String
  pub reason : String
  pub message : String
  pub observed_generation : ℕ

-- A list of objects, or one object, or the message of the error.
pub data Got {ℓ} (A : Type ℓ) : Type ℓ where
  got : A → Got A
  error : String → Got A

-- The same where the caller tells "not found" from other errors.
pub data Answer {ℓ} (A : Type ℓ) : Type ℓ where
  found : A → Answer A
  not_found : Answer A
  failed : String → Answer A

pub record LabelSelector : Type 0 where
  pub match_labels : List (String × String)
  pub match_expressions : List (String × String × List String)

pub record Service : Type 0 where
  pub meta : ObjectMeta
  pub ports : List ℕ
