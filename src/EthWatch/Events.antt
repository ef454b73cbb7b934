-- ===== src/EthWatch/Events.antt =====
-- Which events reach the queue of priority operations.
use qs_react_native_zksync.Prelude.{
  ℕ, ◌+◌, ◌-◌, ◌≡◌, ◌≤◌, ◌<◌, ◌⊎◌, refl, ap, sym, ◌∙◌, subst, arith, inl, inr, none, some, List, [],
  false,
}
use qs_react_native_zksync.HashMap
use qs_react_native_zksync.HashMap.{HashMap}
use qs_react_native_zksync.HashMap.Laws.{IsUnique}
use qs_react_native_zksync.Block.{PriorityOp}
use qs_react_native_zksync.EthWatch.{
  ReceivedPriorityOp, EthState, Watch, is_outdated, sift_outdated_ops, insert_all,
  restore_state_from_eth, process_new_blocks,
}
use qs_react_native_zksync.EthWatch.Received.{
  Reports, received, Named, get-sift_none, get-sift_kept, get-sift_fresh, get-sift_old,
  get-insert_all, insert_all-misses, process_inv, restore_inv,
}

module _ (happened : ℕ → PriorityOp → Type 0) (from to now : ℕ) where
  -- Every event of the blocks from one to another stands in the queue, as received now.
  abbrev pub QueuesEvents : HashMap ReceivedPriorityOp → Type 0
  QueuesEvents queue =
      (b : ℕ) (op : PriorityOp)
      → happened b op
      → from ≤ b
      → b ≤ to
      → HashMap.get op.serial_id queue ≡ some (received now op)

  -- What stands under the id is an event of these blocks, as received now.
  abbrev pub FromEvent : ℕ → HashMap ReceivedPriorityOp → Type 0
  FromEvent id queue =
      (b : ℕ) × (op : PriorityOp) × happened b op
      × (from ≤ b)
      × (b ≤ to)
      × (op.serial_id ≡ id)
      × (HashMap.get id queue ≡ some (received now op))

  -- Every operation that is not outdated stays as it is, unless an event of these blocks has its id.
  abbrev pub KeepsFresh : HashMap ReceivedPriorityOp → HashMap ReceivedPriorityOp → Type 0
  KeepsFresh queue queue' =
      (id : ℕ) (r : ReceivedPriorityOp)
      → HashMap.get id queue ≡ some r
      → is_outdated now r ≡ false
      → FromEvent id queue' ⊎ (HashMap.get id queue' ≡ some r)

  -- All that is not an event of these blocks is an operation of the queue that is not outdated.
  abbrev pub OnlyFresh : HashMap ReceivedPriorityOp → HashMap ReceivedPriorityOp → Type 0
  OnlyFresh queue queue' =
      (id : ℕ) (r : ReceivedPriorityOp)
      → HashMap.get id queue' ≡ some r
      → FromEvent id queue' ⊎ ((HashMap.get id queue ≡ some r) × (is_outdated now r ≡ false))

-- Every event with the id lies in the blocks above one and up to another.
abbrev pub OnlyBetween : (ℕ → PriorityOp → Type 0) → ℕ → ℕ → ℕ → Type 0
OnlyBetween happened id above to =
    (b : ℕ) (op : PriorityOp) → happened b op → op.serial_id ≡ id → (above < b) × (b ≤ to)

module _ (happened : ℕ → PriorityOp → Type 0) (w : Watch) (reports : Reports happened w.logs) where
  listed_event :
      (now from to id : ℕ) (es : List (ℕ × PriorityOp)) (m : HashMap ReceivedPriorityOp)
      → w.logs from (some to) ≡ some es
      → FromEvent happened from to now id (insert_all now es m)
        ⊎ ((Named id es → ⊥) × (HashMap.get id (insert_all now es m) ≡ HashMap.get id m))
  listed_event now from to id es m asked = elim (get-insert_all now id es m) [
    | inr others ↦ inr others
    | inl (b, op, l, is, e) ↦
        let (event, low, high) = reports.sound from to es b op asked l in
        inl (b, op, event, low, high, is, e)
  ]

  insert_all-QueuesEvents :
      (now from to : ℕ) (es : List (ℕ × PriorityOp)) (m : HashMap ReceivedPriorityOp)
      → w.logs from (some to) ≡ some es
      → QueuesEvents happened from to now (insert_all now es m)
  insert_all-QueuesEvents now from to es m asked b op event low high =
      elim (listed_event now from to op.serial_id es m asked) [
        | inl (c, o, other, _, _, is, e) ↦
            e ∙ ap (λ o. some (received now o)) (reports.serial c b o op other event is)
        | inr (others, _) ↦
            absurd (others (b, op, reports.complete from to es b op asked event low high, refl))
      ]

  -- Where the node reports the events of the blocks that it is asked for, serial ids are unique, and the
  -- queue holds each id once, processing new blocks puts every event in the queue that the new blocks confirm, from the block
  -- after the last that was confirmed before, with the time of receipt. Under every other id, an
  -- operation that is not outdated stays as it is, and nothing else is in the queue.
  pub process_new_blocks-Queued :
      (now last : ℕ) (st st' : EthState)
      → IsUnique st.priority_queue
      → process_new_blocks w now last st ≡ some st'
      → (let from = (st.last_ethereum_block + 1) - w.number_of_confirmations_for_event in
          let to = last - w.number_of_confirmations_for_event in
          QueuesEvents happened from to now st'.priority_queue
          × KeepsFresh happened from to now st.priority_queue st'.priority_queue
          × OnlyFresh happened from to now st.priority_queue st'.priority_queue
          × (st'.last_ethereum_block ≡ last))
  process_new_blocks-Queued now last st st' unique h =
      let (es, asked, queue, done) = process_inv w now last st st' h in
      let from = (st.last_ethereum_block + 1) - w.number_of_confirmations_for_event in
      let to = last - w.number_of_confirmations_for_event in
      let kept = sift_outdated_ops now st.priority_queue in
      (
        subst (QueuesEvents happened from to now) (sym queue)
            (insert_all-QueuesEvents now from to es kept asked),
        subst (KeepsFresh happened from to now st.priority_queue) (sym queue) (λ id r e fresh.
            elim (listed_event now from to id es kept asked) [
              | inl event ↦ inl event
              | inr (_, same) ↦ inr (same ∙ get-sift_kept now id r st.priority_queue e fresh)
            ]),
        subst (OnlyFresh happened from to now st.priority_queue) (sym queue) (λ id r e.
            elim (listed_event now from to id es kept asked) [
              | inl event ↦ inl event
              | inr (_, same) ↦
                  let stays : HashMap.get id kept ≡ some r = sym same ∙ e in
                  inr (
                    get-sift_old now id r st.priority_queue unique stays,
                    get-sift_fresh now id r st.priority_queue stays,
                  )
            ]),
        done,
      )

  -- After a start at block `last`, an operation is missing from the queue whose events all lie in the
  -- blocks that are confirmed once but not twice, above `last` less twice the confirmations and up to
  -- `last` less the confirmations: restoring does not read these blocks, and processing later blocks
  -- does not either.
  pub restore_state_from_eth_misses :
      (now last later next : ℕ) (st st' : EthState) (id : ℕ)
      → restore_state_from_eth w now last ≡ some st
      → process_new_blocks w later next st ≡ some st'
      → w.number_of_confirmations_for_event ≤ last
      → OnlyBetween happened id
          ((last - w.number_of_confirmations_for_event) - w.number_of_confirmations_for_event)
          (last - w.number_of_confirmations_for_event)
      → HashMap.get id st'.priority_queue ≡ none
  restore_state_from_eth_misses now last later next st st' id h g enough gap =
      let (es, asked, queue, at_last) = restore_inv w now last st h in
      let (fs, asked', queue', _) = process_inv w later next st st' g in
      let first : HashMap.get id st.priority_queue ≡ none =
        ap (HashMap.get id) queue
        ∙ insert_all-misses now id es []
            (λ b op l same.
              let (event, from, to) = reports.sound _ _ es b op asked l in
              let (above, _) = gap b op event same in omega arith)
            (unfold HashMap.get in refl) in
      ap (HashMap.get id) queue'
      ∙ insert_all-misses later id fs (sift_outdated_ops later st.priority_queue)
          (λ b op l same.
            let (event, from, to) = reports.sound _ _ fs b op asked' l in
            let (_, below) = gap b op event same in omega (arith, at_last))
          (get-sift_none later id st.priority_queue first)
