-- ===== src/Signer/Bounds.antt =====
-- The times in a certificate's status: MakeCert of
-- pkg/infra/agentidentity/agenticidentitysigner/agenticidentitysigner.go.
use kube_agentic_networking.Common.{
  some_inj, bind-cases, ap, sym, inr, inl, ◌∷◌, ◌⊎◌, ℕ, ◌+◌, ◌-◌, ◌*◌, ◌≤◌, ◌<◌, ◌≡◌, ◌↔◌, some,
  arith, String, List, [],
}
use kube_agentic_networking.Api.{Got, got, error}
use kube_agentic_networking.Rendezvous.{second}
use kube_agentic_networking.Signer.{
  Impl, PodCertificateRequest, Template, Ca, minute, hour, requested_lifetime, lifetime,
  template_of, make_cert, with_certificate, encode_chain, sign,
}

-- The product with a second does not overflow, for an int32 of seconds.
pub requested_lifetime-exact :
    (seconds : ℕ) → seconds < 2147483648 → requested_lifetime seconds ≡ seconds * second
unfolding requested_lifetime
requested_lifetime-exact seconds small = omega arith

lifetime_lem :
    (seconds : ℕ)
    → seconds < 2147483648
    → (lifetime seconds ≤ seconds * second)
      × (lifetime seconds ≤ 24 * hour)
      × ((lifetime seconds ≡ seconds * second) ⊎ (lifetime seconds ≡ 24 * hour))
      × ((12 * hour ≤ lifetime seconds) ↔ (43200 ≤ seconds))
unfolding lifetime
lifetime_lem seconds small = rw (requested_lifetime-exact seconds small) (ground arith)

sign-status :
    (s : Impl) (pcr : PodCertificateRequest) (template : Template) (cas : List Ca)
    (key : Got String) (new : PodCertificateRequest)
    → sign s pcr template cas key ≡ some (got new)
    → (chain : String) × (with_certificate pcr template chain ≡ new)
sign-status s pcr template cas (error msg) new h = absurd (cc)
sign-status s pcr template [] (got key) new h = absurd (cc)
sign-status s pcr template (ca ∷ cas) (got key) new h =
    encoded (s.create_certificate template ca.root_certificate key ca.signing_key) (some_inj h)
  where
    encoded :
        (g : Got String)
        → encode_chain s pcr template ca g ≡ got new
        → (chain : String) × (with_certificate pcr template chain ≡ new)
    encoded (error msg) e = absurd (cc)
    encoded (got der) e = (_, got_inj e)
      where
        got_inj :
            {a b : PodCertificateRequest}
            → ◌≡◌ {A = Got PodCertificateRequest} (got a) (got b)
            → a ≡ b
        got_inj q = cc

-- What a request for `seconds` that is issued becomes.
pub make_cert-status :
    (s : Impl) (now : ℕ) (pcr : PodCertificateRequest) (new : PodCertificateRequest)
    → make_cert s now pcr ≡ some (got new)
    → (seconds : ℕ) × (chain : String) × (pcr.max_expiration_seconds ≡ some seconds)
      × (with_certificate pcr (template_of s now pcr seconds) chain ≡ new)
unfolding make_cert
make_cert-status s now pcr new h =
    let (seconds, e, signed) = bind-cases pcr.max_expiration_seconds _ (got new) h in
    let (chain, same) = sign-status s pcr (template_of s now pcr seconds) s.cas _ new signed in
    (seconds, chain, e, same)

-- The validity in the status of a request.
abbrev pub IsValid : ℕ → ℕ → (start refresh end : ℕ) → Type 0
IsValid now seconds start refresh end =
    (start + 2 * minute ≡ now)
    × (end ≤ start + seconds * second)
    × (end ≤ start + 24 * hour)
    × ((end ≡ start + seconds * second) ⊎ (end ≡ start + 24 * hour))
    × (refresh + 12 * hour ≡ end)
    × ((start ≤ refresh) ↔ (43200 ≤ seconds))

-- Where MakeCert returns a request and the clock is 12 hours and 2 minutes or more past the zero time, the
-- request asked for a number of seconds; if that number is below 2^31, the new status is valid from 2
-- minutes before the clock for the seconds asked for or 24 hours, whichever is less, its refresh begins 12
-- hours before its end, and that is not before its start exactly where at least 43200 seconds, 12 hours,
-- were asked for.
pub make_cert-IsValid :
    (s : Impl) (now : ℕ) (pcr : PodCertificateRequest) (new : PodCertificateRequest)
    → make_cert s now pcr ≡ some (got new)
    → 12 * hour + 2 * minute ≤ now
    → (seconds : ℕ) × (start : ℕ) × (refresh : ℕ) × (end : ℕ) × (pcr.max_expiration_seconds
        ≡ some seconds)
      × (new.not_before ≡ some start)
      × (new.begin_refresh_at ≡ some refresh)
      × (new.not_after ≡ some end)
      × (seconds < 2147483648 → IsValid now seconds start refresh end)
unfolding template_of
make_cert-IsValid s now pcr new h late =
    let (seconds, chain, e, same) = make_cert-status s now pcr new h in
    (
      seconds,
      _,
      _,
      _,
      e,
      sym (ap (λ z. z.not_before) same),
      sym (ap (λ z. z.begin_refresh_at) same),
      sym (ap (λ z. z.not_after) same),
      λ small. valid seconds (lifetime seconds) (lifetime_lem seconds small),
    )
  where
    valid :
        (seconds life : ℕ)
        → (life ≤ seconds * second)
          × (life ≤ 24 * hour)
          × ((life ≡ seconds * second) ⊎ (life ≡ 24 * hour))
          × ((12 * hour ≤ life) ↔ (43200 ≤ seconds))
        → IsValid now seconds
            (now - 2 * minute)
            (now - 2 * minute + life - 12 * hour)
            (now - 2 * minute + life)
    valid seconds life (a, b, c, d) = (
      omega arith,
      omega arith,
      omega arith,
      elim c [ inl x ↦ inl (omega arith) | inr x ↦ inr (omega arith) ],
      omega arith,
      (λ x. d.0 (omega arith), λ x. let y = d.1 x in omega arith),
    )
