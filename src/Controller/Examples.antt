-- ===== src/Controller/Examples.antt =====
-- Witnesses for the finalizers.
use kube_agentic_networking.Common.{
  String, ◌≡◌, ◌≢◌, ◌↔◌, refl, true, false, not, none, some, [], ◌∷◌, In,
}
use kube_agentic_networking.Api.{ObjectMeta, got, found, XBackend, GatewayClass}
use kube_agentic_networking.Translator.Samples.{meta_of, mcp_backend, front}
use kube_agentic_networking.Translator.Attachment.{controller_name}
use kube_agentic_networking.Controller.Finalizers.{
  has_finalizer, ensure_finalizer, remove_finalizer, remove_finalizer-removes,
  ensure_finalizer-ensures,
}
use kube_agentic_networking.Controller.Sync.{
  xbackend_finalizer, gateway_class_finalizer, sync_backend_finalizer, update, update_status,
  class_accepted, sync_gateway_class,
}
use kube_agentic_networking.Controller.Settles.{
  Untargeted, Unreferenced, sync_backend_finalizer-settles, sync_gateway_class-settles,
}

abbrev two_finalizers : ObjectMeta
two_finalizers = record (meta_of "shop" "mcp") { finalizers = "a" ∷ "b" ∷ [] }

remove_finalizer-removes_example :
    ((remove_finalizer two_finalizers "a").1 ≡ has_finalizer "a" two_finalizers)
    × (has_finalizer "a" (remove_finalizer two_finalizers "a").0 ≡ false)
    × ((f : String)
        → f ≢ "a"
        → In f (remove_finalizer two_finalizers "a").0.finalizers ↔ In f two_finalizers.finalizers)
remove_finalizer-removes_example = remove_finalizer-removes two_finalizers "a"

ensure_finalizer-ensures_example :
    ((ensure_finalizer two_finalizers "c").1 ≡ not (has_finalizer "c" two_finalizers))
    × (has_finalizer "c" (ensure_finalizer two_finalizers "c").0 ≡ true)
    × ((f : String)
        → f ≢ "c"
        → In f (ensure_finalizer two_finalizers "c").0.finalizers ↔ In f two_finalizers.finalizers)
ensure_finalizer-ensures_example = ensure_finalizer-ensures two_finalizers "c"

abbrev leaving : XBackend
leaving = record mcp_backend {
  meta = record (meta_of "shop" "mcp") {
    deletion_timestamp = some 1;
    finalizers = xbackend_finalizer ∷ [];
  };
}

abbrev left : XBackend
left = record mcp_backend { meta = record (meta_of "shop" "mcp") { deletion_timestamp = some 1 } }

leaving-written : (sync_backend_finalizer (λ b. none) (got []) (found leaving)).written ≡ some left
unfolding sync_backend_finalizer
leaving-written = refl

sync_backend_finalizer-settles_example :
    (has_finalizer xbackend_finalizer left.meta ≡ false)
    × (true ≡ true → Untargeted (got []) leaving)
    × ((sync_backend_finalizer (λ b. none) (got []) (found left)).written ≡ none)
sync_backend_finalizer-settles_example =
    sync_backend_finalizer-settles (λ b. none) (got []) leaving left leaving-written

abbrev agentic_class : GatewayClass
agentic_class = record { meta = meta_of "" "agentic"; controller_name = controller_name }

abbrev kept_class : GatewayClass
kept_class = record agentic_class {
  meta = record (meta_of "" "agentic") { finalizers = gateway_class_finalizer ∷ [] };
}

class-updated : sync_gateway_class (got (front ∷ [])) (found agentic_class) ≡ update kept_class
unfolding sync_gateway_class
class-updated = refl

sync_gateway_class-settles_example :
    (agentic_class.controller_name ≡ controller_name)
    × (has_finalizer gateway_class_finalizer kept_class.meta ≡ true)
    × (false ≡ true → Unreferenced (got (front ∷ [])) "agentic")
    × (sync_gateway_class (got (front ∷ [])) (found kept_class)
        ≡ update_status kept_class (class_accepted kept_class))
sync_gateway_class-settles_example =
    sync_gateway_class-settles (got (front ∷ [])) agentic_class kept_class class-updated
