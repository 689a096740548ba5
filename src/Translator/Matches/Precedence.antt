-- ===== src/Translator/Matches/Precedence.antt =====
-- The order of the routes of a virtual host: sortRoutes, getPathMatchValue and isCatchAll of
-- pkg/translator/httproute.go. `sort.Slice` is a parameter, which says what it documents.
use Prim.Native.String.{len}
use kube_agentic_networking.Common.{
  ℕ, String, Bool, true, false, not, ◌&&◌, List, ◌==◌, eqb, ltb, if◌then◌else◌, length, is_empty,
  trim_suffix, remove_backslashes,
}
use kube_agentic_networking.Translator.Envoy.{
  PathSpecifier, path, prefix, path_separated_prefix, safe_regex, RouteMatch, EnvoyRoute,
}

-- match.GetPath() != ""
abbrev pub is_exact_path : PathSpecifier → Bool
is_exact_path (path p) = not (p == "")
is_exact_path _ = false

unfoldable pub get_path_match_value : PathSpecifier → String
get_path_match_value (path p) = p
get_path_match_value (prefix p) = p
get_path_match_value (path_separated_prefix p) = p
get_path_match_value (safe_regex r) = remove_backslashes (trim_suffix r "(/.*)?")

abbrev pub is_root_prefix : PathSpecifier → Bool
is_root_prefix (prefix p) = p == "/"
is_root_prefix _ = false

unfoldable pub is_catch_all : RouteMatch → Bool
is_catch_all m =
    is_root_prefix m.path_specifier && (is_empty m.headers && is_empty m.query_parameters)

-- What the comparison reads of a route.
pub record Rank : Type 0 where
  pub catch_all : Bool
  pub exact_path : Bool
  pub path_length : ℕ
  pub header_count : ℕ
  pub query_count : ℕ

unfoldable pub rank : RouteMatch → Rank
unfolding is_catch_all get_path_match_value
rank m = record {
  catch_all = is_catch_all m;
  exact_path = is_exact_path m.path_specifier;
  path_length = len (get_path_match_value m.path_specifier);
  header_count = length m.headers;
  query_count = length m.query_parameters;
}

abbrev pub same_bool : Bool → Bool → Bool
same_bool true b = b
same_bool false b = not b

unfoldable pub rank_less : Rank → Rank → Bool
rank_less i j =
    if not (same_bool i.catch_all j.catch_all)
    then j.catch_all
    else if not (same_bool i.exact_path j.exact_path)
    then i.exact_path
    else if not (eqb i.path_length j.path_length)
    then ltb j.path_length i.path_length
    else if not (eqb i.header_count j.header_count)
    then ltb j.header_count i.header_count
    else if not (eqb i.query_count j.query_count)
    then ltb j.query_count i.query_count
    else false

-- The function that sortRoutes gives to sort.Slice.
unfoldable pub route_less : EnvoyRoute → EnvoyRoute → Bool
unfolding rank rank_less
route_less i j = rank_less (rank i.match) (rank j.match)

unfoldable pub sort_routes :
    ((EnvoyRoute → EnvoyRoute → Bool) → List EnvoyRoute → List EnvoyRoute)
    → List EnvoyRoute
    → List EnvoyRoute
sort_routes sort_slice routes = sort_slice route_less routes
