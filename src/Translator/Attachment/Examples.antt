-- ===== src/Translator/Attachment/Examples.antt =====
-- Witnesses for the attachment of routes.
use kube_agentic_networking.Common.{◌≡◌, In, All, map, select}
use kube_agentic_networking.Api.{Listener}
use kube_agentic_networking.Translator.Samples.{sample, web, front, store_route}
use kube_agentic_networking.Translator.Attachment.{targets, validate_http_route}
use kube_agentic_networking.Translator.Attachment.Statuses.{
  AcceptedBy, validate_http_route-accepting,
}
use kube_agentic_networking.Translator.Attachment.Reports.{Reports, validate_http_route-Reports}

validate_http_route-Reports_example :
    (map (λ s. s.parent_ref) (validate_http_route sample (λ ls. ls) front store_route).0
      ≡ select (targets front store_route) store_route.parent_refs)
    × All
        (Reports sample front store_route)
        (validate_http_route sample (λ ls. ls) front store_route).0
validate_http_route-Reports_example =
    validate_http_route-Reports sample (λ ls. ls) front store_route

validate_http_route-accepting_example :
    (In web (validate_http_route sample (λ ls. ls) front store_route).1
      → AcceptedBy sample front store_route store_route.parent_refs web)
    × (AcceptedBy sample front store_route store_route.parent_refs web
        → (k : Listener) × In k (validate_http_route sample (λ ls. ls) front store_route).1
          × (k.name ≡ web.name))
validate_http_route-accepting_example =
    validate_http_route-accepting sample (λ ls. ls) (λ x xs. (λ i. i, λ i. i)) front store_route web
