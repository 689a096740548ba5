-- ===== src/Signer/Queue.antt =====
-- The work queue of the signer: processNextWorkItem of
-- pkg/infra/agentidentity/signercontroller/signercontroller.go.
--
-- `split` is the answer of SplitMetaNamespaceKey, `lister` that of the lister of requests.
use mathlib.Core.Path.{subst}
use kube_agentic_networking.Common.{
  some_inj, arith, ◌∙◌, sym, sym, ◌>>=◌, ℕ, String, ◌≡◌, ◌≢◌, ◌⊎◌, inl, inr, refl, Bool, true,
  false, Option, none, some, List, [], ◌∷◌, eq_iff, any, In, All, bind-cases,
}
use kube_agentic_networking.Api.{Answer, found, not_found, failed, Got, got, error}
use kube_agentic_networking.Rendezvous.{Hasher, Lease, live_replicas, assigned_to_this_replica}
use kube_agentic_networking.Rendezvous.Assignment.{assigned-returns, assigned_exactly_once}
use kube_agentic_networking.Signer.{
  Impl, PodCertificateRequest, signer_name, Failure, Handled, nothing_to_do, not_mine, is_settled,
  status_update_error, write_status, if_assigned, item_of, make_cert, handle_pcr,
}
use kube_agentic_networking.Signer.Bounds.{make_cert-status}

-- The calls of the queue.
pub data QueueStep : Type 0 where
  forget add_rate_limited finish : QueueStep

-- The request whose status is written, and the calls of the queue in order; `Done` is deferred.
pub record Worked : Type 0 where
  pub written : Option PodCertificateRequest
  pub steps : List QueueStep

abbrev pub queue_steps : Option Failure → List QueueStep
queue_steps none = forget ∷ finish ∷ []
queue_steps (some failure) = add_rate_limited ∷ finish ∷ []

abbrev pub after : Handled → Worked
after handled = record { written = handled.written; steps = queue_steps handled.returned }

abbrev pub with_answer :
    (PodCertificateRequest → Option Handled) → Answer PodCertificateRequest → Option Worked
with_answer handle not_found = some (record { written = none; steps = forget ∷ finish ∷ [] })
with_answer handle (failed msg) = some (record { written = none; steps = finish ∷ [] })
with_answer handle (found pcr) = do handled ← handle pcr; some (after handled)

module _ (s : Impl) (h : Hasher) (read_at : ℕ) (leases : Option (List Lease)) (now : ℕ)
    (answer : PodCertificateRequest → Option String) where
  unfoldable pub process_next_work_item :
      Option (String × String) → (String → String → Answer PodCertificateRequest) → Option Worked
  unfolding handle_pcr
  process_next_work_item none lister = some (record { written = none; steps = finish ∷ [] })
  process_next_work_item (some (namespace, name)) lister =
      with_answer (handle_pcr s h read_at leases now answer) (lister namespace name)

-- A request that the signer is to handle: it names this signer and has no final condition.
abbrev pub IsPending : PodCertificateRequest → Type 0
IsPending pcr = (pcr.signer_name ≡ signer_name) × (any is_settled pcr.conditions ≡ false)

handle_pcr-settled :
    (s : Impl) (h : Hasher) (read_at : ℕ) (leases : Option (List Lease)) (now : ℕ)
    (answer : PodCertificateRequest → Option String) (pcr : PodCertificateRequest)
    → any is_settled pcr.conditions ≡ true
    → handle_pcr s h read_at leases now answer pcr ≡ some nothing_to_do
unfolding handle_pcr
handle_pcr-settled s h read_at leases now answer pcr settled = ground arith

handle_pcr-pending :
    (s : Impl) (h : Hasher) (read_at : ℕ) (leases : Option (List Lease)) (now : ℕ)
    (answer : PodCertificateRequest → Option String) (pcr : PodCertificateRequest)
    → IsPending pcr
    → handle_pcr s h read_at leases now answer pcr ≡ (do
      assigned ← assigned_to_this_replica h read_at leases (item_of pcr)
      if_assigned answer (make_cert s now pcr) assigned)
unfolding handle_pcr
handle_pcr-pending s h read_at leases now answer pcr (named, unsettled) =
    let t = (eq_iff pcr.signer_name signer_name).1 named in ground arith

-- A pending request that is found is never lost: where an item of the queue is worked off without a nil
-- dereference, either a settled request is written for it, the API server takes that write, and the item is
-- forgotten, or the item is put back on the queue.
pub process_next_work_item-kept :
    (s : Impl) (h : Hasher) (read_at : ℕ) (leases : Option (List Lease)) (now : ℕ)
    (answer : PodCertificateRequest → Option String) (namespace name : String)
    (lister : String → String → Answer PodCertificateRequest) (pcr : PodCertificateRequest)
    (w : Worked)
    → lister namespace name ≡ found pcr
    → IsPending pcr
    → process_next_work_item s h read_at leases now answer (some (namespace, name)) lister ≡ some w
    → ((new : PodCertificateRequest) × (w.written ≡ some new)
        × (any is_settled new.conditions ≡ true)
        × (answer new ≡ none)
        × In forget w.steps)
      ⊎ In add_rate_limited w.steps
unfolding process_next_work_item
process_next_work_item-kept s h read_at leases now answer namespace name lister pcr w e pending
      worked =
    let run = rw e at worked in
    let (handled, e1, e2) = bind-cases (handle_pcr s h read_at leases now answer pcr) _ w run in
    let (assigned, a1, a2) =
      bind-cases (assigned_to_this_replica h read_at leases (item_of pcr)) _ handled
        (sym (handle_pcr-pending s h read_at leases now answer pcr pending) ∙ e1) in
    by_assigned assigned a2 e2
  where
    Kept : Worked → Type 0
    Kept v =
        ((new : PodCertificateRequest) × (v.written ≡ some new)
          × (any is_settled new.conditions ≡ true)
          × (answer new ≡ none)
          × In forget v.steps)
        ⊎ In add_rate_limited v.steps

    by_answer :
        (o : Option String) (new : PodCertificateRequest)
        → answer new ≡ o
        → any is_settled new.conditions ≡ true
        → Kept (after (record { written = some new; returned = status_update_error o }))
    by_answer none new e settled = inl (new, refl, settled, e, inl refl)
    by_answer (some msg) new e settled = inr (inl refl)

    by_result :
        (g : Got PodCertificateRequest)
        → make_cert s now pcr ≡ some g
        → Kept (after (write_status answer g))
    by_result (error msg) e = inr (inl refl)
    by_result (got new) e =
        let (seconds, chain, f, same) = make_cert-status s now pcr new e in
        by_answer (answer new) new refl (subst (λ z. any is_settled z.conditions ≡ true) same refl)

    by_assigned :
        (b : Bool) {handled : Handled}
        → if_assigned answer (make_cert s now pcr) b ≡ some handled
        → some (after handled) ≡ some w
        → Kept w
    by_assigned false {handled} a b =
        subst Kept (some_inj b) (subst (λ z. Kept (after z)) (some_inj a) (inr (inl refl)))
    by_assigned true {handled} a b =
        let (g, g1, g2) = bind-cases (make_cert s now pcr) _ handled a in
        subst Kept (some_inj b) (subst (λ z. Kept (after z)) (some_inj g2) (by_result g g1))

-- Where some replica is live and the holders of the leases have names, MakeCert returns for a pending
-- request and all replicas read the same leases, exactly one name of a replica writes the new status; any
-- other replica writes nothing and reports that the request is not assigned to it; and once the new
-- status is read, no replica writes to it again.
pub handle_pcr-once :
    (s : Impl) (read_at : ℕ) (leases : List Lease) (xs : List String) (now : ℕ)
    (answer : PodCertificateRequest → Option String) (pcr new : PodCertificateRequest)
    → live_replicas read_at leases ≡ some xs
    → xs ≢ []
    → All (λ r. r ≢ "") xs
    → IsPending pcr
    → make_cert s now pcr ≡ some (got new)
    → (r : String) × In r xs
      × ((h : Hasher)
          → (h.replica_name ≡ r
              → handle_pcr s h read_at (some leases) now answer pcr
                ≡ some (record { written = some new; returned = status_update_error (answer new) }))
            × (h.replica_name ≢ r
                → handle_pcr s h read_at (some leases) now answer pcr ≡ some not_mine)
            × ((l : Option (List Lease)) (at later : ℕ)
                → handle_pcr s h at l later answer new ≡ some nothing_to_do))
handle_pcr-once s read_at leases xs now answer pcr new e live named pending made =
    let (r, i, once) =
      assigned_exactly_once (λ h. read_at) (λ h. leases) (λ h. xs) xs (item_of pcr) (λ h. e)
        (λ h r. (λ j. j, λ j. j)) live named in
    let (seconds, chain, f, same) = make_cert-status s now pcr new made in
    let settled = subst (λ z. any is_settled z.conditions ≡ true) same refl in
    (
      r,
      i,
      λ h.
          let run = handle_pcr-pending s h read_at (some leases) now answer pcr pending in
          (
            λ mine. run ∙ here h ((once h).1 mine),
            λ other.
                run
                ∙ elsewhere h (assigned-returns read_at leases xs (item_of pcr) h e)
                    (λ t. other ((once h).0 t)),
            λ l at later. handle_pcr-settled s h at l later answer new settled,
          ),
    )
  where
    elsewhere :
        (h : Hasher)
        → ((b : Bool) × (assigned_to_this_replica h read_at (some leases) (item_of pcr) ≡ some b))
        → (assigned_to_this_replica h read_at (some leases) (item_of pcr) ≢ some true)
        → (do
          assigned ← assigned_to_this_replica h read_at (some leases) (item_of pcr)
          if_assigned answer (make_cert s now pcr) assigned)
          ≡ some not_mine
    elsewhere h (false, q) n = rw q
    elsewhere h (true, q) n = absurd (n q)

    here :
        (h : Hasher)
        → assigned_to_this_replica h read_at (some leases) (item_of pcr) ≡ some true
        → (do
          assigned ← assigned_to_this_replica h read_at (some leases) (item_of pcr)
          if_assigned answer (make_cert s now pcr) assigned)
          ≡ some (record { written = some new; returned = status_update_error (answer new) })
    here h q = rw (q, made)
