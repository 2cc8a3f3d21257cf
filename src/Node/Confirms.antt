-- ===== src/Node/Confirms.antt =====
-- core/coordinator/component.go with pkg/coordinator: milestones that are sent by `sendBlock`.
use inx_coordinator.Base.{ℕ, some, List, [], ok, ◌≡◌, refl, sym, ◌∙◌, ap}
use inx_coordinator.Coordinator.Types.{Milestone, Block, World, Env}
use inx_coordinator.Coordinator.Hoare.{Ends-ok}
use inx_coordinator.Coordinator.Operations.{issue_milestone}
use inx_coordinator.Coordinator.Safety.{next_index, issue_milestone-Ends}
use inx_coordinator.Coordinator.Sent.{create_milestone-payload}
use inx_coordinator.Node.Send.{Answers, send_block}
use inx_coordinator.Node.Closes.{HasArrived, send_block-Settles}

module _ {F : Type 0} (node : Answers (Block F)) (env : Env F) where
  -- The environment in which blocks are sent by `sendBlock`.
  abbrev pub with_node : Env F
  with_node = record env { send_block = λ block index. (send_block node block index []).0 }

  -- A block with a milestone of the index was taken, became solid and was confirmed under the ID.
  pub record Confirmed (index id : ℕ) : Type 0 where
    pub block : Block F
    pub milestone : Milestone F
    pub carries : block.payload ≡ some milestone
    pub index_eq : milestone.index ≡ index
    pub arrives : HasArrived node block (some index) id

  -- When `IssueMilestone` with `sendBlock` returns an ID, the node has taken a block with a
  -- milestone of the next index under this ID, the block became solid, and that milestone was
  -- confirmed; the ID is the coordinator's latest one.
  pub issue_milestone-Confirmed :
      (parents : List ℕ) (w v : World F) (id : ℕ)
      → issue_milestone with_node parents w ≡ (ok id, v)
      → Confirmed (next_index w) id × (v.state.latest_milestone_block_id ≡ id)
  issue_milestone-Confirmed parents w v id q =
      let (issued, e) = Ends-ok (issue_milestone-Ends with_node parents w) q in
      let s = issued.sent in
      let returned : s.block_id ≡ id =
        sym (ap (λ t. t.latest_milestone_block_id) s.state_eq) ∙ sym e in
      (
        record {
          block = issued.block;
          milestone = _;
          carries = create_milestone-payload with_node _ issued.block issued.creates;
          index_eq = refl;
          arrives =
              ((send_block-Settles node issued.block (some (next_index w))).1 id).0
                (s.sends ∙ ap ok returned);
        },
        sym e,
      )
