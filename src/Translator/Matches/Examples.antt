-- ===== src/Translator/Matches/Examples.antt =====
-- Witnesses for the matches and the order of routes.
use kube_agentic_networking.Common.{◌≡◌, true, false, [], ◌∷◌}
use kube_agentic_networking.Translator.SampleSort.{insertion_sort, insertion_sort-IsSort}
use kube_agentic_networking.Translator.Envoy.{prefix, path, EnvoyRoute, direct_response}
use kube_agentic_networking.Translator.Matches.Precedence.{route_less, sort_routes}
use kube_agentic_networking.Translator.Matches.Order.{
  route_less-IsStrictWeak, InPrecedence, sort_routes-InPrecedence,
}

abbrev catch_all_route : EnvoyRoute
catch_all_route = record {
  name = "all";
  match = record { path_specifier = prefix "/"; headers = []; query_parameters = [] };
  request_headers_to_add = [];
  request_headers_to_remove = [];
  action = direct_response 500;
}

abbrev exact_route : EnvoyRoute
exact_route = record catch_all_route {
  name = "exact";
  match = record { path_specifier = path "/a"; headers = []; query_parameters = [] };
}

route_less-IsStrictWeak_example :
    (route_less exact_route exact_route ≡ false)
    × (route_less exact_route catch_all_route ≡ true
        → route_less catch_all_route exact_route ≡ false)
    × (route_less exact_route catch_all_route ≡ false
        → route_less catch_all_route exact_route ≡ false
        → route_less exact_route exact_route ≡ false)
route_less-IsStrictWeak_example = route_less-IsStrictWeak exact_route catch_all_route exact_route

sort_routes-InPrecedence_example :
    InPrecedence (sort_routes insertion_sort (catch_all_route ∷ exact_route ∷ []))
sort_routes-InPrecedence_example =
    sort_routes-InPrecedence insertion_sort insertion_sort-IsSort
      (catch_all_route ∷ exact_route ∷ [])
