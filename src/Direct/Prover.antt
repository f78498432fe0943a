-- ===== src/Direct/Prover.antt =====
-- The client as the `BagProver` of the proof checks, and what it makes of the endpoints that the
-- database gives.
use mytonprovider_agent.Common.{
  ℕ, ◌+◌, ◌≡◌, ◌≢◌, refl, ap, sym, ◌∙◌, Option, none, some, List, [], ◌∷◌, ◌++◌, Text, is_empty,
  All, All-append, arith, Bool-cases, inl, inr,
}
use mytonprovider_agent.Domain.{ProviderEndpoint, ReasonCode, ContractProviderRelation, ProofResult}
use mytonprovider_agent.Jobs.{Ctx}
use mytonprovider_agent.World.{World, ok, err, Result}
use mytonprovider_agent.Ports.{BagProver}
use mytonprovider_agent.Proof.{Proof}
use mytonprovider_agent.Proof.Provider.{
  proof_result, fill_reason, next_fails, check_sample, check_endpoint, check_provider,
}
use mytonprovider_agent.Postgres.{Server}
use mytonprovider_agent.Postgres.Endpoints.{load_fresh, load_fresh-keyless}
use mytonprovider_agent.Direct.{Network, check_header, check_piece, verify}

check_header_log :
    (net : Network) (addr : Text) (bag over header : List ℕ) (w : World)
    → (check_header net addr bag over header w).1.log ≡ w.log
unfolding check_header
check_header_log net addr bag over header w = ground arith

check_piece_log :
    (net : Network) (addr bag_id : Text) (w : World) → (check_piece net addr bag_id w).1.log ≡ w.log
unfolding check_piece
check_piece_log net addr bag_id w = ground (arith, check_header_log net addr)

pub verify_log :
    (net : Network) (ep : ProviderEndpoint) (bag_id : Text) (w : World)
    → (verify net ep bag_id w).1.log ≡ w.log
unfolding verify
verify_log net ep bag_id w = ground (arith, check_piece_log net)

check_header_db :
    (net : Network) (addr : Text) (bag over header : List ℕ) (w : World)
    → (check_header net addr bag over header w).1.db ≡ w.db
unfolding check_header
check_header_db net addr bag over header w = ground arith

check_piece_db :
    (net : Network) (addr bag_id : Text) (w : World) → (check_piece net addr bag_id w).1.db ≡ w.db
unfolding check_piece
check_piece_db net addr bag_id w = ground (arith, check_header_db net addr)

pub verify_db :
    (net : Network) (ep : ProviderEndpoint) (bag_id : Text) (w : World)
    → (verify net ep bag_id w).1.db ≡ w.db
unfolding verify
verify_db net ep bag_id w = ground (arith, check_piece_db net)

-- `BagProver`, as the use case takes it
abbrev pub bag_prover : Network → BagProver
bag_prover net = record {
  verify = verify net;
  verify_db = verify_db net;
  verify_log = verify_log net;
}

verify_keyless :
    (net : Network) (ep : ProviderEndpoint) (bag_id : Text) (w : World)
    → ep.storage.public_key ≡ []
    → verify net ep bag_id w ≡ (ReasonCode.ip_not_found, w)
unfolding verify
verify_keyless net ep bag_id w e = ground (arith, e)

abbrev pub IsUnproved : ProofResult → Type 0
IsUnproved r = r.reason ≢ ReasonCode.valid_storage_proof

module _ (p : Proof) (s : Server) (net : Network)
    (proves : (ep : ProviderEndpoint) (bag : Text) (w : World)
      → p.prover.verify ep bag w ≡ verify net ep bag w)
    (loads : (pubkey : Text) (max_age : ℕ) (w : World)
      → p.endpoint_repo.load_fresh pubkey max_age w ≡ load_fresh s pubkey max_age w) where
  reason_unproved :
      (ep : ProviderEndpoint) (bag : Text) (w : World)
      → ep.storage.public_key ≡ []
      → (p.prover.verify ep bag w).0 ≢ ReasonCode.valid_storage_proof
  reason_unproved ep bag w e = rw (proves ep bag w, verify_keyless net ep bag w e) (λ x. cc x)

  check_sample-IsUnproved :
      (ctx : Ctx) (ep : ProviderEndpoint) (time threshold fails : ℕ)
      (sample : List ContractProviderRelation) (results : List ProofResult) (w : World)
      → ep.storage.public_key ≡ []
      → All IsUnproved results
      → All IsUnproved (check_sample p ctx ep time threshold fails sample results w).0
  unfolding check_sample
  check_sample-IsUnproved ctx ep time threshold fails [] results w e h = h
  check_sample-IsUnproved ctx ep time threshold fails (sc ∷ rest) results w e h =
      let w1 : World = record w { tick = w.tick + 1 } in
      let a = p.prover.verify ep sc.bag_id w1 in
      let skipped : All IsUnproved
          (results ++ proof_result ReasonCode.unavailable_provider time sc ∷ []) =
        All-append IsUnproved results _ h ((λ x. cc x), tt) in
      let verified : All IsUnproved (results ++ proof_result a.0 (p.clock a.1.tick) sc ∷ []) =
        All-append IsUnproved results _ h (reason_unproved ep sc.bag_id w1 e, tt) in
      ground (
        arith,
        h,
        skipped,
        verified,
        check_sample-IsUnproved ctx ep time threshold fails rest
            (results ++ proof_result ReasonCode.unavailable_provider time sc ∷ []) w1 e skipped,
        check_sample-IsUnproved ctx ep time threshold (next_fails a.0 fails) rest
            (results ++ proof_result a.0 (p.clock a.1.tick) sc ∷ [])
            (record a.1 { tick = a.1.tick + 1 + 1 }) e verified,
      )

  fill_reason-IsUnproved :
      (time : ℕ) (contracts : List ContractProviderRelation)
      → All IsUnproved (fill_reason contracts ReasonCode.ip_not_found time)
  unfolding fill_reason
  fill_reason-IsUnproved time [] = tt
  fill_reason-IsUnproved time (c ∷ cs) = ((λ x. cc x), fill_reason-IsUnproved time cs)

  check_endpoint-IsUnproved :
      (ctx : Ctx) (contracts : List ContractProviderRelation) (r : Result (Option ProviderEndpoint))
      (w : World)
      → ((ep : ProviderEndpoint) → r ≡ ok (some ep) → ep.storage.public_key ≡ [])
      → All IsUnproved (check_endpoint p ctx contracts r w).0
  unfolding check_endpoint
  check_endpoint-IsUnproved ctx contracts (ok none) w h = fill_reason-IsUnproved _ contracts
  check_endpoint-IsUnproved ctx contracts (err x) w h = fill_reason-IsUnproved _ contracts
  check_endpoint-IsUnproved ctx contracts (ok (some ep)) w h =
      elim (Bool-cases (is_empty ep.storage.ip)) [
        | inl no_ip ↦ rw no_ip (fill_reason-IsUnproved _ contracts)
        | inr has_ip ↦ rw has_ip (check_sample-IsUnproved ctx ep _ _ _ _ [] _ (h ep refl) tt)
      ]

  -- With the endpoints that `LoadFresh` reads from the database and the prover that the agent runs,
  -- no check of a provider ever gives a valid storage proof: the public key of the storage node,
  -- without which `Verify` stops at once, is not among the columns read.
  pub check_provider-IsUnproved :
      (ctx : Ctx) (pubkey : Text) (contracts : List ContractProviderRelation) (w : World)
      → All IsUnproved (check_provider p ctx pubkey contracts w).0
  unfolding check_provider
  check_provider-IsUnproved ctx pubkey contracts w =
      check_endpoint-IsUnproved ctx contracts _ _ λ ep e.
        load_fresh-keyless s pubkey p.cfg.endpoint_max_age w ep
          (ap (λ x. x.0) (sym (loads pubkey p.cfg.endpoint_max_age w)) ∙ e)
