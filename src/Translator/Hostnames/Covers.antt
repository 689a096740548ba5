-- ===== src/Translator/Hostnames/Covers.antt =====
-- What a hostname stands for: the hosts that it covers.
use mathlib.Core.Path.{subst}
use text.Mathlib.TextLemmas.{length-cons}
use Prim.Native.String
use kube_agentic_networking.Common.{
  String, ◌≡◌, refl, ap, ◌⊎◌, inl, inr, true, false, not, ◌&&◌, ◌≤◌, arith, ◌==◌, eq_iff, eq_refl,
  Bool-cases, has_prefix, has_suffix, has_suffix_trans, drop_one,
}
use kube_agentic_networking.Translator.Hostnames.{is_hostname_subset, most_restrictive}

-- A host is covered by itself, and by "*." before a domain that the host is below.
abbrev pub Covers : String → String → Type 0
Covers pattern_name host =
    (pattern_name ≡ host)
    ⊎ ((has_prefix pattern_name "*." ≡ true) × (has_suffix host (drop_one pattern_name) ≡ true))

has_suffix_of_drop_one : (s t : String) → has_suffix (drop_one s) t ≡ true → has_suffix s t ≡ true
unfolding has_suffix
has_suffix_of_drop_one String.[] t h = h
has_suffix_of_drop_one (String.◌∷◌ c s) t h = ground arith

-- An accepted hostname ends as the listener's wildcard does.
subset-suffix :
    (h l : String)
    → is_hostname_subset h l ≡ true
    → (has_prefix h "*." && not (has_prefix l "*.")) ≡ false
    → (h ≡ l)
      ⊎ ((has_prefix l "*." ≡ true)
          × (has_suffix h (drop_one l) ≡ true)
          × (has_prefix h "*." ≡ true → has_suffix (drop_one h) (drop_one l) ≡ true))
unfolding is_hostname_subset
subset-suffix h l e f = elim (Bool-cases (has_prefix h "*.")) [
  | inl wild ↦ ground (arith, eq_iff h l, has_suffix_of_drop_one h (drop_one l))
  | inr plain ↦ ground (arith, eq_iff h l)
]

-- A route's hostname that is accepted covers no host that the listener's hostname does not cover,
-- unless the route's is a wildcard and the listener's is not.
pub is_hostname_subset-Covers :
    (h l : String)
    → is_hostname_subset h l ≡ true
    → (has_prefix h "*." && not (has_prefix l "*.")) ≡ false
    → (host : String) → Covers h host
    → Covers l host
is_hostname_subset-Covers h l e f host c = elim (subset-suffix h l e f) [
  | inl same ↦ subst (λ x. Covers x host) same c
  | inr (wild, ends, below) ↦ elim c [
    | inl at_host ↦ inr (wild, subst (λ x. has_suffix x (drop_one l) ≡ true) at_host ends)
    | inr (h_wild, host_below) ↦
        inr (wild, has_suffix_trans host (drop_one h) (drop_one l) host_below (below h_wild))
  ]
]

-- A hostname that begins with a star begins with "*.".
abbrev pub IsWellFormed : String → Type 0
IsWellFormed h = has_prefix h "*" ≡ true → has_prefix h "*." ≡ true

has_prefix_star : (h : String) → has_prefix h "*." ≡ true → has_prefix h "*" ≡ true
unfolding has_prefix
has_prefix_star String.[] e = cc
has_prefix_star (String.◌∷◌ c h) e = ground arith

-- The hostname that is configured for an accepted route covers only hosts of the listener.
pub most_restrictive-Covers :
    (h l : String)
    → IsWellFormed l
    → is_hostname_subset h l ≡ true
    → (host : String) → Covers (most_restrictive h l) host
    → Covers l host
unfolding most_restrictive
most_restrictive-Covers h l formed e host c =
    elim (Bool-cases (has_prefix h "*" && not (has_prefix l "*"))) [
      | inl narrowed ↦ rw narrowed at c
      | inr kept ↦
          let d : Covers h host = rw kept at c in
          is_hostname_subset-Covers h l e (ground (arith, has_prefix_star h, formed)) host d
    ]

has_suffix-count : (s t : String) → has_suffix s t ≡ true → String.count t ≤ String.count s
unfolding has_suffix
has_suffix-count String.[] t h =
    subst (λ x. String.count x ≤ String.count "") ((eq_iff "" t).0 h) (omega arith)
has_suffix-count (String.◌∷◌ c s) t h = elim (Bool-cases ((String.◌∷◌ c s) == t)) [
  | inl same ↦
      subst (λ x. String.count x ≤ String.count (String.◌∷◌ c s)) ((eq_iff _ t).0 same)
        (omega arith)
  | inr other ↦ omega (arith, has_suffix-count s t (ground arith), length-cons c s)
]

not-suffix-longer : (d : String) → has_suffix d (String.◌∷◌ "." d) ≡ false
not-suffix-longer d = elim (Bool-cases (has_suffix d (String.◌∷◌ "." d))) [
  | inl t ↦ absurd (omega (arith, has_suffix-count d (String.◌∷◌ "." d) t, length-cons "." d))
  | inr f ↦ f
]

abbrev pub wildcard : String → String
wildcard d = String.◌∷◌ "*" (String.◌∷◌ "." d)

has_prefix-wildcard : (d : String) → has_prefix (wildcard d) "*." ≡ true
unfolding has_prefix
has_prefix-wildcard d = refl

not-wildcard : (d : String) → (d == wildcard d) ≡ false
not-wildcard d = elim (Bool-cases (d == wildcard d)) [
  | inl t ↦
      let longer = ap String.count ((eq_iff d (wildcard d)).0 t) in
      absurd (omega (arith, longer, length-cons "*" (String.◌∷◌ "." d), length-cons "." d))
  | inr f ↦ f
]

-- The test is not symmetric in a domain and its wildcard: for every domain "d" that is no wildcard
-- the route "*.d" is accepted by the listener "d", and the route "d" is not accepted by the
-- listener "*.d".
pub wildcard-parent :
    (d : String)
    → has_prefix d "*." ≡ false
    → (is_hostname_subset (wildcard d) d ≡ true) × (is_hostname_subset d (wildcard d) ≡ false)
unfolding is_hostname_subset
wildcard-parent d h = (
  ground (arith, eq_refl d, has_prefix-wildcard d),
  ground (arith, not-wildcard d, has_prefix-wildcard d, not-suffix-longer d),
)
