-- ===== src/EthWatch/Received.antt =====
-- The loops over the events that are received and over the operations that are outdated.
use qs_react_native_zksync.Prelude.{
  ℕ, ◌+◌, ◌-◌, ◌≡◌, ◌≢◌, ◌≤◌, ◌⊎◌, refl, ap, ◌∙◌, arith, inl, inr, none, some, Option-cases, List,
  [], ◌∷◌, false, Bool-cases, eq_cases,
}
use qs_react_native_zksync.HashMap
use qs_react_native_zksync.HashMap.{HashMap}
use qs_react_native_zksync.HashMap.Laws.{get-insert, IsUnique}
use qs_react_native_zksync.Block.{PriorityOp}
use qs_react_native_zksync.EthWatch.{
  ReceivedPriorityOp, EthState, Watch, Logs, is_outdated, sift_outdated_ops, insert_all,
  restore_state_from_eth, process_new_blocks, get_unconfirmed_ops, priority_expiration,
}

-- An event of a list.
abbrev pub Listed : ℕ → PriorityOp → List (ℕ × PriorityOp) → Type 0
Listed b op [] = ⊥
Listed b op (e ∷ es) = (e ≡ (b, op)) ⊎ Listed b op es

-- The node reports exactly the events of the blocks that it is asked for, and no two operations have
-- the same serial id.
pub record Reports (happened : ℕ → PriorityOp → Type 0) (logs : Logs) : Type 0 where
  pub complete :
      (from to : ℕ) (es : List (ℕ × PriorityOp)) (b : ℕ) (op : PriorityOp)
      → logs from (some to) ≡ some es
      → happened b op
      → from ≤ b
      → b ≤ to
      → Listed b op es
  pub sound :
      (from to : ℕ) (es : List (ℕ × PriorityOp)) (b : ℕ) (op : PriorityOp)
      → logs from (some to) ≡ some es
      → Listed b op es
      → happened b op × (from ≤ b) × (b ≤ to)
  pub serial :
      (b b' : ℕ) (op op' : PriorityOp)
      → happened b op
      → happened b' op'
      → op.serial_id ≡ op'.serial_id
      → op ≡ op'

-- An operation as it is received.
abbrev pub received : ℕ → PriorityOp → ReceivedPriorityOp
received now op = record { op = op; received_at = now }

pub get-sift_none :
    (now id : ℕ) (m : HashMap ReceivedPriorityOp)
    → HashMap.get id m ≡ none
    → HashMap.get id (sift_outdated_ops now m) ≡ none
unfolding sift_outdated_ops HashMap.get
get-sift_none now id [] h = refl
get-sift_none now id ((i, r) ∷ m) h = ground (arith, get-sift_none now id m)

pub get-sift_kept :
    (now id : ℕ) (r : ReceivedPriorityOp) (m : HashMap ReceivedPriorityOp)
    → HashMap.get id m ≡ some r
    → is_outdated now r ≡ false
    → HashMap.get id (sift_outdated_ops now m) ≡ some r
unfolding sift_outdated_ops HashMap.get
get-sift_kept now id r [] h fresh = absurd (ground arith)
get-sift_kept now id r ((i, q) ∷ m) h fresh = ground (arith, get-sift_kept now id r m)

pub get-sift_fresh :
    (now id : ℕ) (r : ReceivedPriorityOp) (m : HashMap ReceivedPriorityOp)
    → HashMap.get id (sift_outdated_ops now m) ≡ some r
    → is_outdated now r ≡ false
unfolding sift_outdated_ops HashMap.get
get-sift_fresh now id r [] h = absurd (ground arith)
get-sift_fresh now id r ((i, q) ∷ m) h = ground (arith, get-sift_fresh now id r m)

pub get-sift_old :
    (now id : ℕ) (r : ReceivedPriorityOp) (m : HashMap ReceivedPriorityOp)
    → IsUnique m
    → HashMap.get id (sift_outdated_ops now m) ≡ some r
    → HashMap.get id m ≡ some r
unfolding sift_outdated_ops HashMap.get
get-sift_old now id r [] u h = absurd (ground arith)
get-sift_old now id r ((i, q) ∷ m) (new, u) h = elim (eq_cases i id) [
  | inr n ↦ ground (arith, get-sift_old now id r m u)
  | inl e ↦ ground (arith, get-sift_none now i m new)
]

-- An event with the id in the list.
abbrev pub Named : ℕ → List (ℕ × PriorityOp) → Type 0
Named id es = (b : ℕ) × (op : PriorityOp) × Listed b op es × (op.serial_id ≡ id)

-- What stands under an id after the loop: the last event of the list with the id, or what stood there.
pub get-insert_all :
    (now id : ℕ) (es : List (ℕ × PriorityOp)) (m : HashMap ReceivedPriorityOp)
    → ((b : ℕ) × (op : PriorityOp) × Listed b op es
        × (op.serial_id ≡ id)
        × (HashMap.get id (insert_all now es m) ≡ some (received now op)))
      ⊎ ((Named id es → ⊥) × (HashMap.get id (insert_all now es m) ≡ HashMap.get id m))
unfolding insert_all
get-insert_all now id [] m = inr (λ l. l.2, refl)
get-insert_all now id ((b, op) ∷ es) m =
    let m' = HashMap.insert op.serial_id (received now op) m in
    elim (get-insert_all now id es m') [
      | inl (c, o, l, is, e) ↦ inl (c, o, inr l, is, e)
      | inr (others, e) ↦ elim (eq_cases op.serial_id id) [
        | inl same ↦
            inl (
              b,
              op,
              inl refl,
              same,
              ground (arith, get-insert op.serial_id id (received now op) m),
            )
        | inr differ ↦ inr (
          λ l. elim l.2 [
            | inl here ↦ absurd (differ (ap (λ (e : ℕ × PriorityOp). e.1.serial_id) here ∙ l.3))
            | inr later ↦ others (l.0, l.1, later, l.3)
          ],
          ground (arith, get-insert op.serial_id id (received now op) m),
        )
      ]
    ]

-- An id that no event has stays missing.
pub insert_all-misses :
    (now id : ℕ) (es : List (ℕ × PriorityOp)) (m : HashMap ReceivedPriorityOp)
    → ((b : ℕ) (op : PriorityOp) → Listed b op es → op.serial_id ≢ id)
    → HashMap.get id m ≡ none
    → HashMap.get id (insert_all now es m) ≡ none
unfolding insert_all
insert_all-misses now id [] m others h = h
insert_all-misses now id ((b, op) ∷ es) m others h =
    let new : ReceivedPriorityOp = record { op = op; received_at = now } in
    let differ : op.serial_id ≢ id = others b op (inl refl) in
    insert_all-misses now id es (HashMap.insert op.serial_id new m) (λ c o l. others c o (inr l))
      (ground (arith, get-insert op.serial_id id new m))

-- The runs of the code, from the node's answers.
pub process_inv :
    (w : Watch) (now last : ℕ) (st st' : EthState)
    → process_new_blocks w now last st ≡ some st'
    → (es : List (ℕ × PriorityOp)) × (w.logs
          ((st.last_ethereum_block + 1) - w.number_of_confirmations_for_event)
          (some (last - w.number_of_confirmations_for_event))
        ≡ some es)
      × (st'.priority_queue ≡ insert_all now es (sift_outdated_ops now st.priority_queue))
      × (st'.last_ethereum_block ≡ last)
unfolding process_new_blocks
process_inv w now last st st' h =
    let from = (st.last_ethereum_block + 1) - w.number_of_confirmations_for_event in
    let to = last - w.number_of_confirmations_for_event in
    elim (Bool-cases (w.stores_withdrawals from to)) [
      | inr e ↦ absurd (ground arith)
      | inl e ↦ elim (Option-cases (w.logs from (some to))) [
        | inl f ↦ absurd (ground arith)
        | inr (es, f) ↦ elim (Option-cases (get_unconfirmed_ops w last)) [
          | inl g ↦ absurd (ground arith)
          | inr (us, g) ↦ (es, f, ground arith, ground arith)
        ]
      ]
    ]

pub restore_inv :
    (w : Watch) (now last : ℕ) (st : EthState)
    → restore_state_from_eth w now last ≡ some st
    → (let c = w.number_of_confirmations_for_event in
        (es : List (ℕ × PriorityOp)) × (w.logs
            (((last - c) - c) - priority_expiration)
            (some ((last - c) - c))
          ≡ some es)
        × (st.priority_queue ≡ insert_all now es [])
        × (st.last_ethereum_block ≡ last))
unfolding restore_state_from_eth
restore_inv w now last st h =
    let c = w.number_of_confirmations_for_event in
    let to = (last - c) - c in
    elim (Option-cases (get_unconfirmed_ops w (last - c))) [
      | inl g ↦ absurd (ground arith)
      | inr (us, g) ↦ elim (Bool-cases (w.stores_withdrawals (to - priority_expiration) to)) [
        | inr e ↦ absurd (ground arith)
        | inl e ↦ elim (Option-cases (w.logs (to - priority_expiration) (some to))) [
          | inl f ↦ absurd (ground arith)
          | inr (es, f) ↦ (es, f, ground arith, ground arith)
        ]
      ]
    ]
