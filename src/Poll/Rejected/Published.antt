-- ===== src/Poll/Rejected/Published.antt =====
-- What `UpdateRejectedContracts` publishes, against where each relation stands.
use mathlib.Core.Path.{fun_ext}
use mytonprovider_agent.Common.{
  ℕ, ◌+◌, ◌≡◌, refl, ap, ◌∙◌, Option, none, some, List, [], ◌∷◌, Text, select, arrange,
}
use mytonprovider_agent.Common.Dict.{Dict, lookup, get_or, keys}
use mytonprovider_agent.Domain.{ContractProviderRelation, ContractOnChainState}
use mytonprovider_agent.Jobs.{
  Ctx, job_id_from, inspect_contracts, cycle_inspect_contracts, InspectContractsResult,
}
use mytonprovider_agent.World.{World, Act, ok, ask, wrapping, ◌>>=◌}
use mytonprovider_agent.World.Actions.Ensures.{bind_ok}
use mytonprovider_agent.Publisher.Laws.{after_publish, publish_result_lem}
use mytonprovider_agent.Poll.{Poll}
use mytonprovider_agent.Poll.Rejected.{
  is_rejected, skipped_addrs, bag_sizes, state_infos, verdict, rejected_relations,
  publish_inspection, inspect_relations, update_rejected_contracts,
}
use mytonprovider_agent.Poll.Rejected.Checkpoint.{state_infos-IsReadOnly}
use mytonprovider_agent.Poll.Rejected.Standing.{
  state_of, standing_in, standing, by_state, get_or-bag_sizes, Inspected, state_infos-Inspected,
}

-- The addresses that are inspected, in the order in which the map is ranged over.
abbrev pub inspected : Poll → List ContractProviderRelation → World → List Text
inspected p relations w = arrange (p.range_order w.tick) (keys (bag_sizes relations []))

-- The result, told by where each relation stands, if the states are looked at from tick `t` on.
abbrev pub described :
    (ℕ → ℕ) → ℕ → List ContractProviderRelation → List ContractOnChainState → InspectContractsResult
described clock t relations states = record {
  rejected = select (λ rel. is_rejected (standing clock t relations states rel)) relations;
  skipped = skipped_addrs states;
}

module _ (p : Poll) where
  stands_alone :
      (size : ℕ) (o : Option (ℕ × ContractOnChainState)) (rel : ContractProviderRelation)
      → by_state p size o none rel ≡ standing_in p.clock size o rel
  unfolding standing_in
  stands_alone size none rel = refl
  stands_alone size (some s) rel = refl

  verdict_stands :
      (relations : List ContractProviderRelation) (states : List ContractOnChainState) (w : World)
      (i : Inspected p (bag_sizes relations []) states [] w) (rel : ContractProviderRelation)
      → verdict i.out rel ≡ standing p.clock w.tick relations states rel
  unfolding standing lookup
  verdict_stands relations states w i rel =
      i.exact rel
      ∙ stands_alone (get_or rel.contract_addr 0 (bag_sizes relations []))
          (state_of w.tick rel.contract_addr states) rel
      ∙ ap (λ size. standing_in p.clock size (state_of w.tick rel.contract_addr states) rel)
          (get_or-bag_sizes rel.contract_addr relations [])

  rejected-described :
      (relations : List ContractProviderRelation) (states : List ContractOnChainState) (w : World)
      (i : Inspected p (bag_sizes relations []) states [] w)
      → rejected_relations i.out relations ≡ (described p.clock w.tick relations states).rejected
  unfolding rejected_relations
  rejected-described relations states w i =
      ap (λ test. select test relations)
        (fun_ext (λ rel. ap is_rejected (verdict_stands relations states w i rel)))

  module _ (ctx : Ctx) (r : ContractProviderRelation) (rs : List ContractProviderRelation) where
    -- the message, as `PublishResult` leaves it in the log
    abbrev message_at : InspectContractsResult → World → World
    message_at result =
        after_publish p.publisher p.cfg.inspect_contracts_stream (job_id_from ctx)
          cycle_inspect_contracts (inspect_contracts result)

    published :
        (result : InspectContractsResult) (w : World)
        → (wrapping "usecase.poll.UpdateRejectedContracts" (publish_inspection p ctx result) w).1
          ≡ message_at result w
    unfolding wrapping publish_inspection
    published result w =
        ap (λ o. o.1)
          (publish_result_lem p.publisher p.cfg.inspect_contracts_stream (job_id_from ctx)
            cycle_inspect_contracts (inspect_contracts result) w)

    -- the rest of the cycle, from the states on and from the order of the addresses on
    abbrev from_states : List ContractOnChainState → Act (Unit {0})
    from_states states = state_infos p (bag_sizes (r ∷ rs) []) states [] >>= λ infos.
        wrapping "usecase.poll.UpdateRejectedContracts" (
          publish_inspection p ctx (record {
            rejected = rejected_relations infos (r ∷ rs);
            skipped = skipped_addrs states;
          }))

    abbrev from_order : List ℕ → Act (Unit {0})
    from_order order =
        p.inspector.inspect_providers (arrange order (keys (bag_sizes (r ∷ rs) []))) >>= from_states

    after_states :
        (states : List ContractOnChainState) (w : World)
        → (let sizes : Dict ℕ = bag_sizes (r ∷ rs) [] in
            (w' : World) × ((state_infos p sizes states [] w).1 ≡ w')
            × (w'.log ≡ w.log)
            × ((from_states states w).1 ≡ message_at (described p.clock w.tick (r ∷ rs) states) w'))
    after_states states w =
        let sizes = bag_sizes (r ∷ rs) [] in
        let i = state_infos-Inspected p sizes states [] w in
        let w' = (state_infos p sizes states [] w).1 in
        (
          w',
          refl,
          (state_infos-IsReadOnly p sizes states []).same_log w,
          ap (λ o. o.1) (bind_ok (state_infos p sizes states []) _ i.out w i.done)
              ∙ published _ w'
              ∙ ap
                  (λ rejected.
                    message_at (record { rejected = rejected; skipped = skipped_addrs states }) w')
                  (rejected-described (r ∷ rs) states w i),
        )

    -- If the database gives these relations, at least one, and the inspector these states, then
    -- UpdateRejectedContracts makes one write, the message that carries exactly the relations which
    -- those states reject, in their order, and the addresses whose inspection failed. A relation is
    -- rejected if its contract has no state, or if the last state of its contract did not fail and
    -- has no provider with the relation's key, or only such as have run out of balance at the time
    -- at which the clock is read for them: once for each provider of each state, in order.
    pub update_rejected_contracts_refines :
        (states : List ContractOnChainState) (w : World)
        → (p.contract_repo.get_active_relations w).0 ≡ ok (r ∷ rs)
        → (let w1 : World = (p.contract_repo.get_active_relations w).1 in
            (p.inspector.inspect_providers
              (inspected p (r ∷ rs) w1)
              (record w1 { tick = w1.tick + 1 })).0
            ≡ ok states)
        → (let w1 : World = (p.contract_repo.get_active_relations w).1 in
            let w3 : World =
              (p.inspector.inspect_providers
                (inspected p (r ∷ rs) w1)
                (record w1 { tick = w1.tick + 1 })).1 in
            (w' : World) × (w'.log ≡ w.log)
            × ((update_rejected_contracts p ctx w).1
                ≡ after_publish p.publisher p.cfg.inspect_contracts_stream
                    (job_id_from ctx)
                    cycle_inspect_contracts
                    (inspect_contracts (described p.clock w3.tick (r ∷ rs) states))
                    w'))
    unfolding update_rejected_contracts inspect_relations
    update_rejected_contracts_refines states w loaded found =
        let w1 = (p.contract_repo.get_active_relations w).1 in
        let w2 : World = record w1 { tick = w1.tick + 1 } in
        let addrs = inspected p (r ∷ rs) w1 in
        let w3 = (p.inspector.inspect_providers addrs w2).1 in
        let (w', at, same_log, done) = after_states states w3 in
        (
          w',
          same_log
              ∙ (p.inspector.inspect_reads addrs).same_log w2
              ∙ p.contract_repo.relations_reads.same_log w,
          ap (λ o. o.1)
                (bind_ok p.contract_repo.get_active_relations (inspect_relations p ctx) (r ∷ rs) w
                  loaded)
              ∙ ap (λ o. o.1)
                  (bind_ok (ask (λ t. ok (p.range_order t))) from_order (p.range_order w1.tick) w1
                    (unfold ask in refl))
              ∙ ap (λ o. o.1)
                  (bind_ok (p.inspector.inspect_providers addrs) from_states states w2 found)
              ∙ done,
        )
