-- ===== src/Translator/Matches.antt =====
-- Matches and filters of an HTTPRoute rule: translateHTTPRouteMatch and the filter processors of
-- pkg/translator/httproute.go.
pub mod Precedence
pub mod Order
pub mod Filters
mod Examples
use kube_agentic_networking.Common.{
  ℕ, String, Bool, true, false, Option, none, some, List, [], ◌∷◌, ◌++◌, ◌==◌, if◌then◌else◌,
  or_default, concat, trim_suffix, eqb,
}
use kube_agentic_networking.Api.{
  Condition, PathMatchType, exact, path_prefix, regular_expression, other_path, HttpPathMatch,
  HeaderMatchType, header_exact, header_regex, other_header, HttpHeaderMatch, HttpQueryParamMatch,
  HttpRouteMatch,
}
use kube_agentic_networking.Translator.Envoy.{
  PathSpecifier, path, prefix, path_separated_prefix, safe_regex, HeaderSpecifier, string_exact,
  string_regex, HeaderMatcher, QueryParameterMatcher, RouteMatch,
}

unfoldable pub create_success_condition : ℕ → Condition
create_success_condition generation = record {
  type = "ResolvedRefs";
  status = "True";
  reason = "ResolvedRefs";
  message = "All references resolved";
  observed_generation = generation;
}

unfoldable pub create_failure_condition : String → String → ℕ → Condition
create_failure_condition reason message generation = record {
  type = "ResolvedRefs";
  status = "False";
  reason = reason;
  message = message;
  observed_generation = generation;
}

-- A value, or the message of an unsupported value.
pub data Attempt {ℓ} (A : Type ℓ) : Type ℓ where
  ok : A → Attempt A
  unsupported_value : String → Attempt A

infixl 5 ◌>>=◌
abbrev ◌>>=◌ {ℓ κ} : {A : Type ℓ} {B : Type κ} → Attempt A → (A → Attempt B) → Attempt B
ok a >>= k = k a
unsupported_value msg >>= k = unsupported_value msg

-- The switch on the type of a path match that has a value.
unfoldable pub path_specifier : PathMatchType → String → Attempt PathSpecifier
path_specifier exact value = ok (path value)
path_specifier path_prefix value =
    ok (if value == "/" then prefix "/" else path_separated_prefix (trim_suffix value "/"))
path_specifier regular_expression value = ok (safe_regex value)
path_specifier (other_path type) value =
    unsupported_value (concat ("unsupported path match type: " ∷ type ∷ []))

unfoldable pub translate_path : Option HttpPathMatch → Attempt PathSpecifier
unfolding path_specifier
translate_path none = ok (prefix "/")
translate_path (some m) = elim m.value [
  | none ↦ unsupported_value "path match value cannot be nil"
  | some value ↦ path_specifier (or_default path_prefix m.type) value
]

unfoldable pub header_specifier : HeaderMatchType → String → Attempt HeaderSpecifier
header_specifier header_exact value = ok (string_exact value)
header_specifier header_regex value = ok (string_regex value)
header_specifier (other_header type) value =
    unsupported_value (concat ("unsupported header match type: " ∷ type ∷ []))

unfoldable pub translate_headers : List HttpHeaderMatch → Attempt (List HeaderMatcher)
unfolding header_specifier
translate_headers [] = ok []
translate_headers (h ∷ rest) = do
  spec ← header_specifier (or_default header_exact h.type) h.value
  matchers ← translate_headers rest
  ok (record { name = h.name; specifier = spec } ∷ matchers)

unfoldable pub translate_query : List HttpQueryParamMatch → List QueryParameterMatcher
translate_query [] = []
translate_query (q ∷ rest) = record { name = q.name; exact_value = q.value } ∷ translate_query rest

unfoldable pub translate_match : HttpRouteMatch → Attempt RouteMatch
unfolding translate_path translate_headers translate_query
translate_match m = do
  spec ← translate_path m.path
  headers ← translate_headers m.headers
  ok (record {
    path_specifier = spec;
    headers = headers;
    query_parameters = translate_query m.query_params;
  })

abbrev pub with_condition : ℕ → Attempt RouteMatch → Option RouteMatch × Condition
with_condition generation (ok m) = (some m, create_success_condition generation)
with_condition generation (unsupported_value msg) =
    (none, create_failure_condition "UnsupportedValue" msg generation)

unfoldable pub translate_http_route_match : HttpRouteMatch → ℕ → Option RouteMatch × Condition
unfolding translate_match create_success_condition create_failure_condition
translate_http_route_match m generation = with_condition generation (translate_match m)
