-- ===== src/Translator/Matches/Order.antt =====
-- The order of routes that sortRoutes of pkg/translator/httproute.go gives to sort.Slice.
use mathlib.Core.Path.{subst}
use Prim.Native.String.{len}
use kube_agentic_networking.Common.{
  refl, is_empty, ◌&&◌, ◌≤◌, ◌∙◌, inr, inl, ◌<◌, sym, eq_iff, ◌≢◌, length, ◌⊎◌, String, ◌≡◌, ◌↔◌,
  Bool, true, false, List, [], ◌∷◌, arith, In, All, In-All,
}
use kube_agentic_networking.Translator.Envoy.{
  safe_regex, path_separated_prefix, QueryParameterMatcher, HeaderMatcher, path, prefix, RouteMatch,
  PathSpecifier, EnvoyRoute,
}
use kube_agentic_networking.Translator.Matches.Precedence.{
  get_path_match_value, is_root_prefix, is_exact_path, Rank, rank, rank_less, is_catch_all,
  route_less, sort_routes,
}

rank_less_irrefl : (i : Rank) → rank_less i i ≡ false
unfolding rank_less
rank_less_irrefl i = ground arith

rank_less_asymm : (i j : Rank) → rank_less i j ≡ true → rank_less j i ≡ false
unfolding rank_less
rank_less_asymm i j h = ground arith

rank_less_cotrans :
    (i j k : Rank) → rank_less i j ≡ false → rank_less j k ≡ false → rank_less i k ≡ false
unfolding rank_less
rank_less_cotrans i j k g h = ground arith

-- The comparison of two routes is a strict weak order, which sort.Slice requires: no route goes
-- before itself, of two at most one goes before the other, and "does not go before" is transitive.
pub route_less-IsStrictWeak :
    (i j k : EnvoyRoute)
    → (route_less i i ≡ false)
      × (route_less i j ≡ true → route_less j i ≡ false)
      × (route_less i j ≡ false → route_less j k ≡ false → route_less i k ≡ false)
unfolding route_less
route_less-IsStrictWeak i j k = (
  rank_less_irrefl (rank i.match),
  rank_less_asymm (rank i.match) (rank j.match),
  rank_less_cotrans (rank i.match) (rank j.match) (rank k.match),
)

-- What sort.Slice documents: the same elements, with none after one that it goes before.
abbrev pub Sorted : (EnvoyRoute → EnvoyRoute → Bool) → List EnvoyRoute → Type 0
Sorted less [] = Unit
Sorted less (x ∷ xs) = All (λ y. less y x ≡ false) xs × Sorted less xs

pub record IsSort
    (sort_slice : (EnvoyRoute → EnvoyRoute → Bool) → List EnvoyRoute → List EnvoyRoute)
    : Type 0 where
  pub elements :
      (less : EnvoyRoute → EnvoyRoute → Bool) (x : EnvoyRoute) (xs : List EnvoyRoute)
      → In x (sort_slice less xs) ↔ In x xs
  pub sorted :
      (less : EnvoyRoute → EnvoyRoute → Bool) (xs : List EnvoyRoute)
      → ((i j k : EnvoyRoute)
          → (less i i ≡ false)
            × (less i j ≡ true → less j i ≡ false)
            × (less i j ≡ false → less j k ≡ false → less i k ≡ false))
      → Sorted less (sort_slice less xs)

-- A match of the prefix "/" with no conditions on headers or query parameters.
abbrev pub RootMatch : RouteMatch → Type 0
RootMatch m =
    (m.path_specifier ≡ prefix "/") × (length m.headers ≡ 0) × (length m.query_parameters ≡ 0)

-- A match of one path, which is not empty.
abbrev pub ExactPath : RouteMatch → Type 0
ExactPath m = (p : String) × (m.path_specifier ≡ path p) × (p ≢ "")

-- `m` has a longer path than `n`, or one as long and more headers, or as many and no fewer query parameters.
abbrev pub Longer : RouteMatch → RouteMatch → Type 0
Longer m n =
    let a = len (get_path_match_value m.path_specifier) in
    let b = len (get_path_match_value n.path_specifier) in
    (b < a)
    ⊎ (a ≡ b)
      × ((length n.headers < length m.headers)
          ⊎ (length m.headers ≡ length n.headers)
            × (length n.query_parameters ≤ length m.query_parameters))

-- `m` may stand before `n`.
abbrev pub Precedes : RouteMatch → RouteMatch → Type 0
Precedes m n =
    ((RootMatch m → ⊥) × RootMatch n)
    ⊎ (RootMatch m ↔ RootMatch n)
      × ((ExactPath m × (ExactPath n → ⊥)) ⊎ (ExactPath m ↔ ExactPath n) × Longer m n)

is_catch_all_iff : (m : RouteMatch) → (is_catch_all m ≡ true) ↔ RootMatch m
unfolding is_catch_all
is_catch_all_iff m = root m.path_specifier m.headers m.query_parameters
  where
    root :
        (s : PathSpecifier) (hs : List HeaderMatcher) (qs : List QueryParameterMatcher)
        → ((is_root_prefix s && (is_empty hs && is_empty qs)) ≡ true)
          ↔ ((s ≡ prefix "/") × (length hs ≡ 0) × (length qs ≡ 0))
    root (path p) hs qs = (λ e. absurd (cc), λ (e, f, g). absurd (cc))
    root (path_separated_prefix p) hs qs = (λ e. absurd (cc), λ (e, f, g). absurd (cc))
    root (safe_regex r) hs qs = (λ e. absurd (cc), λ (e, f, g). absurd (cc))
    root (prefix p) [] [] = ground (arith, eq_iff p "/")
    root (prefix p) (h ∷ hs) qs = ground arith
    root (prefix p) [] (q ∷ qs) = ground arith

is_exact_path_iff :
    (s : PathSpecifier) → (is_exact_path s ≡ true) ↔ ((p : String) × (s ≡ path p) × (p ≢ ""))
is_exact_path_iff (path p) = (
  λ e. (p, refl, λ z. let g = (eq_iff p "").1 z in cc),
  λ (q, e, ne).
      let same : p ≡ q = cc in ground (arith, eq_iff p "", subst (λ z. z ≢ "") (sym same) ne),
)
is_exact_path_iff (prefix p) = (λ e. absurd (cc), λ (q, e, ne). absurd (cc))
is_exact_path_iff (path_separated_prefix p) = (λ e. absurd (cc), λ (q, e, ne). absurd (cc))
is_exact_path_iff (safe_regex r) = (λ e. absurd (cc), λ (q, e, ne). absurd (cc))

-- What the comparison says of two ranks where the second does not go before the first.
abbrev RankPrecedes : Rank → Rank → Type 0
RankPrecedes i j =
    ((i.catch_all ≡ false) × (j.catch_all ≡ true))
    ⊎ (i.catch_all ≡ j.catch_all)
      × (((i.exact_path ≡ true) × (j.exact_path ≡ false))
          ⊎ (i.exact_path ≡ j.exact_path)
            × ((j.path_length < i.path_length)
                ⊎ (i.path_length ≡ j.path_length)
                  × ((j.header_count < i.header_count)
                      ⊎ (i.header_count ≡ j.header_count) × (j.query_count ≤ i.query_count))))

agree : {A B : Type 0} (a b : Bool) → (a ≡ true) ↔ A → (b ≡ true) ↔ B → a ≡ b → A ↔ B
agree a b p q e = (λ x. q.0 (sym e ∙ p.1 x), λ y. p.0 (e ∙ q.1 y))

denied : {A : Type 0} (a : Bool) → (a ≡ true) ↔ A → a ≡ false → A → ⊥
denied a p e x = let t = p.1 x in cc

rank_less-Precedes : (i j : Rank) → rank_less j i ≡ false → RankPrecedes i j
unfolding rank_less
rank_less-Precedes i j h = ground arith

route_less-Precedes : (x y : EnvoyRoute) → route_less y x ≡ false → Precedes x.match y.match
unfolding route_less rank
route_less-Precedes x y h =
    let c = is_catch_all_iff x.match in
    let d = is_catch_all_iff y.match in
    let e = is_exact_path_iff x.match.path_specifier in
    let f = is_exact_path_iff y.match.path_specifier in
    let r = rank_less-Precedes (rank x.match) (rank y.match) h in
    elim r [
      | inl (first, last) ↦ inl (denied _ c first, d.0 last)
      | inr (roots, rest) ↦ inr (
        agree _ _ c d roots,
        elim rest [
          | inl (exact, other) ↦ inl (e.0 exact, denied _ f other)
          | inr (paths, longer) ↦ inr (agree _ _ e f paths, longer)
        ],
      )
    ]

-- Each element of a list precedes all that come after it.
abbrev pub InPrecedence : List EnvoyRoute → Type 0
InPrecedence [] = Unit
InPrecedence (x ∷ xs) = ((y : EnvoyRoute) → In y xs → Precedes x.match y.match) × InPrecedence xs

Sorted-InPrecedence : (xs : List EnvoyRoute) → Sorted route_less xs → InPrecedence xs
Sorted-InPrecedence [] h = tt
Sorted-InPrecedence (x ∷ xs) (after, rest) =
    (λ y i. route_less-Precedes x y (In-All _ xs y after i), Sorted-InPrecedence xs rest)

-- Where sort.Slice sorts, each route of the sorted list precedes all that come after it. That is: a match of
-- the prefix "/" without headers and query parameters stands after all other matches; of two others, or of two
-- such, that of an exact path, not empty, stands first; then the one whose `get_path_match_value` is longer, then the one
-- with more headers, then the one with more query parameters.
pub sort_routes-InPrecedence :
    (sort_slice : (EnvoyRoute → EnvoyRoute → Bool) → List EnvoyRoute → List EnvoyRoute)
    → IsSort sort_slice
    → (routes : List EnvoyRoute) → InPrecedence (sort_routes sort_slice routes)
unfolding sort_routes
sort_routes-InPrecedence sort_slice s routes =
    Sorted-InPrecedence _ (s.sorted route_less routes route_less-IsStrictWeak)
