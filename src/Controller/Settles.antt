-- ===== src/Controller/Settles.antt =====
-- Repeated syncs of finalizers: syncBackendFinalizer of pkg/controller/backend.go and syncGatewayClass of
-- pkg/controller/gatewayclass.go.
use mathlib.Core.Path.{subst}
use kube_agentic_networking.Common.{
  ◌&&◌, any_iff, In, any, String, ◌≡◌, ◌≢◌, refl, sym, ap, ◌∙◌, inl, inr, Bool, true, false, not,
  Option, none, some, List, ◌==◌, eq_iff, if◌then◌else◌, Bool-cases, eqb, length,
}
use kube_agentic_networking.Api.{
  TargetRef, got, error, ObjectMeta, Got, found, XBackend, XAccessPolicy, Gateway, GatewayClass,
}
use kube_agentic_networking.Translator.Attachment.{controller_name}
use kube_agentic_networking.Controller.Finalizers.{
  without, has_finalizer, ensure_finalizer, remove_finalizer, remove_finalizer-removes,
  ensure_finalizer-ensures,
}
use kube_agentic_networking.Controller.Sync.{
  is_xbackend_target_ref, xbackend_finalizer, gateway_class_finalizer, write_backend, sync_found,
  is_set, sync_backend_finalizer, has_access_policies_targeting_backend, ClassWrite, no_write,
  update, update_status, write_class, class_accepted, sync_class, sync_gateway_class,
  has_gateways_referencing_class,
}

ensure_finalizer-settled :
    (m : ObjectMeta) (f : String) → has_finalizer f m ≡ true → (ensure_finalizer m f).1 ≡ false
ensure_finalizer-settled m f h = (ensure_finalizer-ensures m f).0 ∙ rw h

remove_finalizer-settled :
    (m : ObjectMeta) (f : String) → has_finalizer f m ≡ false → (remove_finalizer m f).1 ≡ false
remove_finalizer-settled m f h = (remove_finalizer-removes m f).0 ∙ h

ensure_finalizer-timestamp :
    (m : ObjectMeta) (f : String)
    → (ensure_finalizer m f).0.deletion_timestamp ≡ m.deletion_timestamp
unfolding ensure_finalizer
ensure_finalizer-timestamp m f = elim (Bool-cases (has_finalizer f m)) [
  | inl e ↦ rw e
  | inr e ↦ rw e
]

remove_finalizer-same :
    (m : ObjectMeta) (f : String)
    → ((remove_finalizer m f).0.deletion_timestamp ≡ m.deletion_timestamp)
      × ((remove_finalizer m f).0.name ≡ m.name)
unfolding remove_finalizer
remove_finalizer-same m f =
    elim (Bool-cases (eqb (length (without f m.finalizers)) (length m.finalizers))) [
      | inl e ↦ rw e (refl, refl)
      | inr e ↦ rw e (refl, refl)
    ]

write_backend-written :
    (doing : String) (answer : XBackend → Option String) (b c : XBackend) (r : ObjectMeta × Bool)
    → (write_backend doing answer b r).written ≡ some c
    → c ≡ record b { meta = r.0 }
write_backend-written doing answer b c (m, changed) h = elim (Bool-cases changed) [
  | inl e ↦ let f = rw e at h in cc
  | inr e ↦ let f = rw e at h in absurd (cc)
]

write_backend-unchanged :
    (doing : String) (answer : XBackend → Option String) (b : XBackend) (r : ObjectMeta × Bool)
    → r.1 ≡ false
    → (write_backend doing answer b r).written ≡ none
write_backend-unchanged doing answer b (m, changed) h = rw h

-- The policies can be listed, and none of their references to an XBackend names `b`.
abbrev pub Untargeted : Got (List XAccessPolicy) → XBackend → Type 0
Untargeted policies b =
    (ps : List XAccessPolicy) × (policies ≡ got ps)
    × ((p : XAccessPolicy) (ref : TargetRef)
        → In p ps
        → In ref p.target_refs
        → ref.group ≡ "agentic.prototype.x-k8s.io"
        → ref.kind ≡ "XBackend"
        → ref.name ≢ b.meta.name)

-- The Gateways can be listed, and none names the class.
abbrev pub Unreferenced : Got (List Gateway) → String → Type 0
Unreferenced gateways class_name =
    (gs : List Gateway) × (gateways ≡ got gs)
    × ((g : Gateway) → In g gs → g.gateway_class_name ≢ class_name)

module _ (answer : XBackend → Option String) (policies : Got (List XAccessPolicy)) where
  -- The rest of a sync after its object was written.
  abbrev Settled : XBackend → XBackend → Bool → Type 0
  Settled b c deleting =
      (has_finalizer xbackend_finalizer c.meta ≡ not deleting)
      × (deleting ≡ true → has_access_policies_targeting_backend policies b ≡ false)
      × ((sync_found answer policies c (is_set c.meta.deletion_timestamp)).written ≡ none)

  sync_found-Settled :
      (b c : XBackend) (deleting : Bool)
      → is_set b.meta.deletion_timestamp ≡ deleting
      → (sync_found answer policies b deleting).written ≡ some c
      → Settled b c deleting
  sync_found-Settled b c false d h =
      let m = (ensure_finalizer b.meta xbackend_finalizer).0 in
      let q = write_backend-written _ answer b c (ensure_finalizer b.meta xbackend_finalizer) h in
      let there = (ensure_finalizer-ensures b.meta xbackend_finalizer).1 in
      subst (λ z. Settled b z false) (sym q)
        (
          there,
          (λ t. absurd (cc)),
          rw (ensure_finalizer-timestamp b.meta xbackend_finalizer, d)
              (write_backend-unchanged _ answer (record b { meta = m })
                (ensure_finalizer m xbackend_finalizer)
                (ensure_finalizer-settled m xbackend_finalizer there)),
        )
  sync_found-Settled b c true d h =
      elim (Bool-cases (has_access_policies_targeting_backend policies b)) [
        | inl t ↦ let f = rw t at h in absurd (cc)
        | inr t ↦
            let m = (remove_finalizer b.meta xbackend_finalizer).0 in
            let f = rw t at h in
            let q =
              write_backend-written _ answer b c (remove_finalizer b.meta xbackend_finalizer) f in
            let gone = (remove_finalizer-removes b.meta xbackend_finalizer).1 in
            subst (λ z. Settled b z true) (sym q)
              (
                gone,
                (λ u. t),
                rw ((remove_finalizer-same b.meta xbackend_finalizer).0, d)
                    (elim (Bool-cases
                      (has_access_policies_targeting_backend policies (record b { meta = m }))) [
                        | inl u ↦ rw u
                        | inr u ↦ rw u (
                            write_backend-unchanged _ answer (record b { meta = m })
                              (remove_finalizer m xbackend_finalizer)
                              (remove_finalizer-settled m xbackend_finalizer gone))
                      ]),
              )
      ]

  untargeted :
      (b : XBackend)
      → has_access_policies_targeting_backend policies b ≡ false
      → Untargeted policies b
  unfolding has_access_policies_targeting_backend
  untargeted b h = elim_got policies h
    where
      elim_got :
          (g : Got (List XAccessPolicy))
          → has_access_policies_targeting_backend g b ≡ false
          → Untargeted g b
      elim_got (error msg) h = absurd (cc)
      elim_got (got ps) h = (
        ps,
        refl,
        λ p ref i j group kind name.
            let targets : Bool =
              any
                (λ p.
                  any (λ ref. is_xbackend_target_ref ref && ref.name == b.meta.name) p.target_refs)
                ps in
            let hit =
              (any_iff
                  (λ p.
                    any (λ ref. is_xbackend_target_ref ref && ref.name == b.meta.name)
                      p.target_refs)
                  ps).1
                (
                  p,
                  i,
                  (any_iff (λ ref. is_xbackend_target_ref ref && ref.name == b.meta.name)
                        p.target_refs).1
                      (
                        ref,
                        j,
                        rw ((eq_iff _ _).1 group, (eq_iff _ _).1 kind, (eq_iff _ _).1 name) refl,
                      ),
                ) in
            cc,
      )

  -- A backend that a sync writes has the finalizer exactly where the backend is not marked for deletion; the
  -- finalizer is given up only where the policies of the namespace can be listed and none of their
  -- references to an XBackend names the backend; and a sync of what was written, with the same policies,
  -- writes nothing more.
  pub sync_backend_finalizer-settles :
      (b c : XBackend)
      → (sync_backend_finalizer answer policies (found b)).written ≡ some c
      → (has_finalizer xbackend_finalizer c.meta ≡ not (is_set b.meta.deletion_timestamp))
        × (is_set b.meta.deletion_timestamp ≡ true → Untargeted policies b)
        × ((sync_backend_finalizer answer policies (found c)).written ≡ none)
  unfolding sync_backend_finalizer
  sync_backend_finalizer-settles b c h =
      let (kept, clear, last) = sync_found-Settled b c (is_set b.meta.deletion_timestamp) refl h in
      (kept, λ d. untargeted b (clear d), last)

module _ (gateways : Got (List Gateway)) where
  abbrev ClassSettled : GatewayClass → GatewayClass → Bool → Type 0
  ClassSettled c new deleting =
      (has_finalizer gateway_class_finalizer new.meta ≡ not deleting)
      × (deleting ≡ true → has_gateways_referencing_class gateways c.meta.name ≡ false)
      × (new.controller_name ≡ c.controller_name)
      × (sync_class gateways new (is_set new.meta.deletion_timestamp)
          ≡ (if deleting then no_write else update_status new (class_accepted new)))

  write_class-update :
      (otherwise : ClassWrite) (c new : GatewayClass) (r : ObjectMeta × Bool)
      → ((d : GatewayClass) → otherwise ≢ update d)
      → write_class otherwise c r ≡ update new
      → new ≡ record c { meta = r.0 }
  write_class-update otherwise c new (m, changed) differs h = elim (Bool-cases changed) [
    | inl e ↦ let f = rw e at h in cc
    | inr e ↦ let f = rw e at h in absurd (differs new f)
  ]

  write_class-unchanged :
      (otherwise : ClassWrite) (c : GatewayClass) (r : ObjectMeta × Bool)
      → r.1 ≡ false
      → write_class otherwise c r ≡ otherwise
  write_class-unchanged otherwise c (m, changed) h = rw h

  sync_class-Settled :
      (c new : GatewayClass) (deleting : Bool)
      → is_set c.meta.deletion_timestamp ≡ deleting
      → sync_class gateways c deleting ≡ update new
      → ClassSettled c new deleting
  sync_class-Settled c new false d h =
      let m = (ensure_finalizer c.meta gateway_class_finalizer).0 in
      let later : GatewayClass = record c { meta = m } in
      let q =
        write_class-update (update_status c (class_accepted c)) c new
          (ensure_finalizer c.meta gateway_class_finalizer) (λ d e. cc) h in
      let there = (ensure_finalizer-ensures c.meta gateway_class_finalizer).1 in
      subst (λ z. ClassSettled c z false) (sym q)
        (
          there,
          (λ t. absurd (cc)),
          refl,
          rw (ensure_finalizer-timestamp c.meta gateway_class_finalizer, d)
              (write_class-unchanged (update_status later (class_accepted later)) later
                (ensure_finalizer m gateway_class_finalizer)
                (ensure_finalizer-settled m gateway_class_finalizer there)),
        )
  sync_class-Settled c new true d h =
      elim (Bool-cases (has_gateways_referencing_class gateways c.meta.name)) [
        | inl t ↦ let f = rw t at h in absurd (cc)
        | inr t ↦
            let m = (remove_finalizer c.meta gateway_class_finalizer).0 in
            let later : GatewayClass = record c { meta = m } in
            let f = rw t at h in
            let q =
              write_class-update no_write c new (remove_finalizer c.meta gateway_class_finalizer)
                (λ d e. cc) f in
            let gone = (remove_finalizer-removes c.meta gateway_class_finalizer).1 in
            let (when, name) = remove_finalizer-same c.meta gateway_class_finalizer in
            subst (λ z. ClassSettled c z true) (sym q)
              (
                gone,
                (λ u. t),
                refl,
                rw (when, d)
                    (rw (name, t)
                      (write_class-unchanged no_write later
                        (remove_finalizer m gateway_class_finalizer)
                        (remove_finalizer-settled m gateway_class_finalizer gone))),
              )
      ]

  unreferenced :
      (name : String)
      → has_gateways_referencing_class gateways name ≡ false
      → Unreferenced gateways name
  unfolding has_gateways_referencing_class
  unreferenced name h = elim_got gateways h
    where
      elim_got :
          (g : Got (List Gateway))
          → has_gateways_referencing_class g name ≡ false
          → Unreferenced g name
      elim_got (error msg) h = absurd (cc)
      elim_got (got gs) h = (
        gs,
        refl,
        λ g i same.
            let hit =
              (any_iff (λ g. g.gateway_class_name == name) gs).1
                (g, i, (eq_iff g.gateway_class_name name).1 same) in
            cc,
      )

  -- A GatewayClass that a sync updates is one of this controller; it has the finalizer exactly where it
  -- is not marked for deletion; the finalizer is given up only where the Gateways can be listed
  -- and none names the class; and the next sync, with the same Gateways, writes the status of a
  -- class that is not marked for deletion and nothing for one that is.
  pub sync_gateway_class-settles :
      (c new : GatewayClass)
      → sync_gateway_class gateways (found c) ≡ update new
      → (c.controller_name ≡ controller_name)
        × (has_finalizer gateway_class_finalizer new.meta ≡ not (is_set c.meta.deletion_timestamp))
        × (is_set c.meta.deletion_timestamp ≡ true → Unreferenced gateways c.meta.name)
        × (sync_gateway_class gateways (found new) ≡ (
            if is_set c.meta.deletion_timestamp
            then no_write
            else update_status new (class_accepted new)))
  unfolding sync_gateway_class
  sync_gateway_class-settles c new h = elim (Bool-cases (c.controller_name == controller_name)) [
    | inr e ↦ let f = rw e at h in absurd (cc)
    | inl e ↦
        let f = rw e at h in
        let (a, b, same, last) =
          sync_class-Settled c new (is_set c.meta.deletion_timestamp) refl f in
        (
          (eq_iff c.controller_name controller_name).0 e,
          a,
          λ d. unreferenced c.meta.name (b d),
          ap
                (λ o.
                  if not o
                  then no_write
                  else sync_class gateways new (is_set new.meta.deletion_timestamp))
                (ap (λ z. z == controller_name) same ∙ e)
              ∙ last,
        )
  ]
