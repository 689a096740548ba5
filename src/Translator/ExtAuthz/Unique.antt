-- ===== src/Translator/ExtAuthz/Unique.antt =====
-- The digests and their filters: buildExtAuthzFilters of pkg/translator/listener.go.
use kube_agentic_networking.Common.{
  String, true, false, ◌≡◌, inl, inr, refl, sym, Option, none, some, List, [], ◌∷◌, ◌++◌,
  Bool-cases, ◌∙◌, ap, In, any, any_iff, In-append, eq_iff, ◌==◌,
}
use mathlib.Core.Path.{subst}
use kube_agentic_networking.Api.{Got, got, error, XAccessPolicy, AccessRule, ExternalAuthFilter}
use kube_agentic_networking.Translator.Env.{Translator}
use kube_agentic_networking.Translator.ExtAuthz.{
  add_asked, ExtAuthz, Filters, ext_authz_filter, external_filter, add_digest, add_ext_authz,
  add_rules_of, add_policies_of, build_ext_authz_filters, push,
}
use kube_agentic_networking.Translator.ExtAuthz.Shadow.{FollowsShadow, ext_authz_filter-key}

module _ (t : Translator) (policies : List XAccessPolicy) where
  -- A rule of a policy in the namespace asks for the external authorization that has the digest.
  pub record Asks (namespace : String) (f : ExternalAuthFilter) (hash : String) : Type 0 where
    pub policy : XAccessPolicy
    pub rule : AccessRule
    pub listed : In policy policies
    pub ruled : In rule policy.rules
    pub at : policy.meta.namespace ≡ namespace
    pub asked : external_filter rule ≡ some f
    pub digest : t.external_auth_digest f ≡ got hash

  -- The digests, each once, and the filters built for them in order; a digest has no filter only where
  -- the kind of its backend is not supported.
  pub data Built : List String → List ExtAuthz → Type 0 where
    nothing : Built [] []
    skipped :
        (namespace : String) (f : ExternalAuthFilter) (hash : String) (hs : List String)
        (fs : List ExtAuthz)
        → (In hash hs → ⊥)
        → Asks namespace f hash
        → ext_authz_filter namespace f hash ≡ none
        → Built hs fs
        → Built (hs ++ hash ∷ []) fs
    added :
        (namespace : String) (f : ExternalAuthFilter) (hash : String) (x : ExtAuthz)
        (hs : List String) (fs : List ExtAuthz)
        → (In hash hs → ⊥)
        → Asks namespace f hash
        → ext_authz_filter namespace f hash ≡ some x
        → FollowsShadow hash x
        → Built hs fs
        → Built (hs ++ hash ∷ []) (fs ++ x ∷ [])

  -- From one state to a later one that has the digests of `Q`.
  abbrev Grows : (String → Type 0) → Filters → Filters → Type 0
  Grows Q st after =
      (Built st.hashes st.filters → Built after.hashes after.filters)
      × ((hash : String) → In hash st.hashes → In hash after.hashes)
      × ((hash : String) → Q hash → In hash after.hashes)

  add_digest-Grows :
      (namespace : String) (f : ExternalAuthFilter) (st : Filters)
      → ((hash : String) → t.external_auth_digest f ≡ got hash → Asks namespace f hash)
      → (g : Got String) → t.external_auth_digest f ≡ g
      → Grows (λ hash. g ≡ got hash) st (add_digest namespace f g st)
  add_digest-Grows namespace f st asks (error msg) e = (λ b. b, λ hash i. i, λ hash q. absurd (cc))
  add_digest-Grows namespace f st asks (got hash) e =
      elim (Bool-cases (any (λ h. h == hash) st.hashes)) [
        | inl known ↦ rw known (λ b. b, λ h i. i, λ h q. there h known q)
        | inr new ↦ rw new (
          λ b. build (fresh new) b (ext_authz_filter namespace f hash) refl,
          λ h i. (In-append h st.hashes (hash ∷ [])).1 (inl i),
          λ h q. (In-append h st.hashes (hash ∷ [])).1 (inr (inl (let k : hash ≡ h = cc in sym k))),
        )
      ]
    where
      there :
          (h : String) → any (λ x. x == hash) st.hashes ≡ true → got hash ≡ got h → In h st.hashes
      there h known q =
          let (x, i, same) = (any_iff _ st.hashes).0 known in
          let k : hash ≡ h = cc in subst (λ z. In z st.hashes) ((eq_iff x hash).0 same ∙ k) i

      fresh : any (λ x. x == hash) st.hashes ≡ false → In hash st.hashes → ⊥
      fresh new i =
          let k = (any_iff (λ x. x == hash) st.hashes).1 (hash, i, (eq_iff hash hash).1 refl) in
          cc (k, new)

      build :
          (In hash st.hashes → ⊥)
          → Built st.hashes st.filters
          → (o : Option ExtAuthz) → ext_authz_filter namespace f hash ≡ o
          → Built (st.hashes ++ hash ∷ []) (push o st.filters)
      build n b none k = skipped namespace f hash st.hashes st.filters n (asks hash e) k b
      build n b (some x) k =
          added namespace f hash x st.hashes st.filters n (asks hash e) k
            (ext_authz_filter-key namespace f hash x k) b

  -- The digest of a rule's external filter.
  abbrev pub HasDigest : AccessRule → String → Type 0
  HasDigest rule hash =
      (f : ExternalAuthFilter) × (external_filter rule ≡ some f)
      × (t.external_auth_digest f ≡ got hash)

  module _ (policy : XAccessPolicy) (listed : In policy policies) where
    add_ext_authz-Grows :
        (st : Filters) (rule : AccessRule)
        → In rule policy.rules
        → Grows (HasDigest rule) st (add_ext_authz t policy.meta.namespace st rule)
    unfolding add_ext_authz
    add_ext_authz-Grows st rule i = asked (external_filter rule) refl
      where
        asked :
            (o : Option ExternalAuthFilter)
            → external_filter rule ≡ o
            → Grows (HasDigest rule) st (add_asked t policy.meta.namespace st o)
        asked none e = (λ b. b, λ h j. j, λ h q. absurd (cc (q.1)))
        asked (some f) e =
            let (b, c, d) =
              add_digest-Grows policy.meta.namespace f st
                (λ hash g. record {
                  policy = policy;
                  rule = rule;
                  listed = listed;
                  ruled = i;
                  at = refl;
                  asked = e;
                  digest = g;
                })
                (t.external_auth_digest f) refl in
            (b, c, λ h (x, p, g). d h (let k : f ≡ x = cc in ap t.external_auth_digest k ∙ g))

    add_rules_of-Grows :
        (rules : List AccessRule) (st : Filters)
        → ((r : AccessRule) → In r rules → In r policy.rules)
        → Grows
            (λ hash. (r : AccessRule) × In r rules × HasDigest r hash)
            st
            (add_rules_of t policy.meta.namespace st rules)
    unfolding add_rules_of
    add_rules_of-Grows [] st sub = (λ b. b, λ h i. i, λ h q. elim q.1 [ ])
    add_rules_of-Grows (r ∷ rules) st sub =
        let (b, c, d) = add_ext_authz-Grows st r (sub r (inl refl)) in
        let next = add_ext_authz t policy.meta.namespace st r in
        let (b', c', d') = add_rules_of-Grows rules next (λ x i. sub x (inr i)) in
        (
          λ z. b' (b z),
          λ h i. c' h (c h i),
          λ h (x, i, q). elim i [
            | inl e ↦ c' h (d h (subst (λ y. HasDigest y h) e q))
            | inr j ↦ d' h (x, j, q)
          ],
        )

  add_policies_of-Grows :
      (ps : List XAccessPolicy) (st : Filters)
      → ((p : XAccessPolicy) → In p ps → In p policies)
      → Grows
          (λ hash.
            (p : XAccessPolicy) × (r : AccessRule) × In p ps × In r p.rules × HasDigest r hash)
          st
          (add_policies_of t st ps)
  unfolding add_policies_of
  add_policies_of-Grows [] st sub = (λ b. b, λ h i. i, λ h q. elim q.2 [ ])
  add_policies_of-Grows (p ∷ ps) st sub =
      let (b, c, d) = add_rules_of-Grows p (sub p (inl refl)) p.rules st (λ x i. i) in
      let next = add_rules_of t p.meta.namespace st p.rules in
      let (b', c', d') = add_policies_of-Grows ps next (λ x i. sub x (inr i)) in
      (
        λ z. b' (b z),
        λ h i. c' h (c h i),
        λ h (x, r, i, k, q). elim i [
          | inl e ↦ c' h (d h (r, subst (λ y. In r y.rules) e k, q))
          | inr j ↦ d' h (x, r, j, k, q)
        ],
      )

-- Where the access policies can be listed, the filters are built for a list of digests that has
-- the digest of each rule's external authorization, each once, and no others: in order, each
-- filter is that of a rule which has the digest, and is turned on by the metadata of
-- "envoy.filters.http.rbac" whose key is "shadow_effective_policy_id" behind the prefix that
-- `add_external_rule` gives to the shadow rules for the digest; a digest has no filter only where
-- `ext_authz_filter` gives none for a rule which has it.
pub build_ext_authz_filters-Built :
    (t : Translator) (policies : List XAccessPolicy)
    → t.access_policies ≡ got policies
    → (hs : List String) × (fs : List ExtAuthz) × (build_ext_authz_filters t ≡ got fs)
      × Built t policies hs fs
      × ((p : XAccessPolicy) (r : AccessRule) (hash : String)
          → In p policies
          → In r p.rules
          → HasDigest t policies r hash
          → In hash hs)
unfolding build_ext_authz_filters
build_ext_authz_filters-Built t policies e =
    let final = add_policies_of t (record { hashes = []; filters = [] }) policies in
    let (b, c, d) =
      add_policies_of-Grows t policies policies (record { hashes = []; filters = [] }) (λ p i. i) in
    (final.hashes, final.filters, rw e, b nothing, λ p r h i j q. d h (p, r, i, j, q))
