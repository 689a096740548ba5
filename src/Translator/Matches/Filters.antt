-- ===== src/Translator/Matches/Filters.antt =====
-- The filters of a rule: processURLRewriteFilter, processRequestRedirectFilter,
-- processRequestHeaderModifierFilter and the loop over a rule's filters in
-- translateHTTPRouteToEnvoyRoutes of pkg/translator/httproute.go.
use kube_agentic_networking.Common.{
  ℕ, String, Bool, true, false, Option, none, some, List, [], ◌∷◌, ◌++◌, if◌then◌else◌, or_default,
  eqb, map, ◌||◌,
}
use kube_agentic_networking.Api.{
  HttpHeader, HttpHeaderFilter, HttpRequestRedirectFilter, HttpPathModifier, full_path,
  prefix_match, HttpUrlRewriteFilter, HttpRouteFilter, request_redirect, request_header_modifier,
  url_rewrite, unsupported,
}
use kube_agentic_networking.Translator.Envoy.{
  RedirectCode, moved_permanently, permanent_found, see_other, temporary_redirect,
  permanent_redirect, RedirectAction, AppendAction, overwrite_if_exists_or_add,
  append_if_exists_or_add, HeaderValueOption, RouteAction,
}

abbrev no_action : RouteAction
no_action = record {
  clusters = [];
  host_rewrite_specifier = none;
  regex_rewrite = none;
  prefix_rewrite = "";
}

-- The path part of the rewrite, with whether it sets anything.
abbrev rewrite_path : Option HttpPathModifier → RouteAction → RouteAction × Bool
rewrite_path (some (full_path (some full))) action =
    (record action { regex_rewrite = some (".*", full) }, true)
rewrite_path (some (prefix_match (some p))) action = (record action { prefix_rewrite = p }, true)
rewrite_path _ action = (action, false)

abbrev is_some {ℓ} : {A : Type ℓ} → Option A → Bool
is_some none = false
is_some (some a) = true

unfoldable pub process_url_rewrite_filter : Option HttpUrlRewriteFilter → Option RouteAction
process_url_rewrite_filter none = none
process_url_rewrite_filter (some f) =
    let (action, path_set) =
      rewrite_path f.path (record no_action { host_rewrite_specifier = f.hostname }) in
    if is_some f.hostname || path_set then some action else none

abbrev redirect_code : Option ℕ → RedirectCode
redirect_code none = permanent_found
redirect_code (some c) =
    if eqb c 301
    then moved_permanently
    else if eqb c 302
    then permanent_found
    else if eqb c 303
    then see_other
    else if eqb c 307
    then temporary_redirect
    else if eqb c 308
    then permanent_redirect
    else moved_permanently

unfoldable pub process_request_redirect_filter :
    Option HttpRequestRedirectFilter → Option RedirectAction
process_request_redirect_filter none = none
process_request_redirect_filter (some f) = some (record {
  host_redirect = or_default "" f.hostname;
  response_code = redirect_code f.status_code;
})

abbrev header_option : AppendAction → HttpHeader → HeaderValueOption
header_option action h = record { key = h.name; value = h.value; append_action = action }

unfoldable pub process_request_header_modifier_filter :
    Option HttpHeaderFilter → List HeaderValueOption × List String
process_request_header_modifier_filter none = ([], [])
process_request_header_modifier_filter (some f) = (
  map (header_option overwrite_if_exists_or_add) f.set_headers
      ++ map (header_option append_if_exists_or_add) f.add_headers,
  f.remove_headers,
)

-- The variables that the loop over a rule's filters sets.
pub record RuleFilters : Type 0 where
  pub redirect_action : Option RedirectAction
  pub headers_to_add : List HeaderValueOption
  pub headers_to_remove : List String
  pub url_rewrite_action : Option RouteAction

abbrev pub no_filters : RuleFilters
no_filters = record {
  redirect_action = none;
  headers_to_add = [];
  headers_to_remove = [];
  url_rewrite_action = none;
}

-- A redirect ends the loop.
unfoldable pub process_filters : RuleFilters → List HttpRouteFilter → RuleFilters
unfolding process_url_rewrite_filter process_request_redirect_filter
    process_request_header_modifier_filter
process_filters acc [] = acc
process_filters acc (request_redirect none ∷ rest) =
    process_filters (record acc { redirect_action = none }) rest
process_filters acc (request_redirect (some f) ∷ rest) = record acc {
  redirect_action = process_request_redirect_filter (some f);
}
process_filters acc (request_header_modifier f ∷ rest) =
    let (adds, removes) = process_request_header_modifier_filter f in
    process_filters
      (record acc {
        headers_to_add = acc.headers_to_add ++ adds;
        headers_to_remove = acc.headers_to_remove ++ removes;
      })
      rest
process_filters acc (url_rewrite f ∷ rest) =
    process_filters (record acc { url_rewrite_action = process_url_rewrite_filter f }) rest
process_filters acc (unsupported type ∷ rest) = process_filters acc rest
