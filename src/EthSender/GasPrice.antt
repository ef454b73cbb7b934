-- ===== src/EthSender/GasPrice.antt =====
-- The statistics against the history of samples, and the bounds of a price.
use qs_react_native_zksync.Prelude.{
  ℕ, ◌+◌, ◌-◌, ◌*◌, ◌/◌, ◌≡◌, ◌≤◌, ◌<◌, ◌⊎◌, refl, ap, sym, ◌∙◌, subst, arith, inl, inr, none, some,
  Option, Option-cases, List-cases, List, [], ◌∷◌, ◌++◌, length, length-append, drop, Bool-cases,
  leb, ltb, zero, suc,
}
use qs_react_native_zksync.Gas.{done}
use qs_react_native_zksync.EthSender.GasAdjuster
use qs_react_native_zksync.EthSender.GasAdjuster.{
  GasStatistics, u256_mod, u256_add, u256_sub, u256_mul, u256_div, pop_sample, add_sample, scale_up,
  limit_max, scaled_price, get_gas_price,
}

abbrev pub sum : List ℕ → ℕ
sum [] = 0
sum (x ∷ xs) = x + sum xs

-- The last ten of a history, the oldest first.
abbrev pub last_ten : List ℕ → List ℕ
last_ten prices = drop (length prices - 10) prices

-- The samples are the last ten of the history, and the sum is theirs.
pub record Samples (history : List ℕ) (st : GasStatistics) : Type 0 where
  pub window : st.samples ≡ last_ten history
  pub total : st.current_sum ≡ sum st.samples

sum-append : (xs ys : List ℕ) → sum (xs ++ ys) ≡ sum xs + sum ys
sum-append [] ys = omega arith
sum-append (x ∷ xs) ys = ground (arith, sum-append xs ys)

pub new-Samples : (limit : ℕ) → Samples [] (GasAdjuster.new limit)
unfolding GasAdjuster.new
new-Samples limit = record { window = refl; total = refl }

length-drop : (n : ℕ) (xs : List ℕ) → length (drop n xs) ≡ length xs - n
length-drop zero xs = omega arith
length-drop (suc n) [] = omega arith
length-drop (suc n) (x ∷ xs) = ground (arith, length-drop n xs)

drop-append : (n : ℕ) (xs ys : List ℕ) → n ≤ length xs → drop n (xs ++ ys) ≡ drop n xs ++ ys
drop-append zero xs ys h = refl
drop-append (suc n) [] ys h = absurd (omega arith)
drop-append (suc n) (x ∷ xs) ys h = drop-append n xs ys (omega arith)

drop-suc :
    (n : ℕ) (xs : List ℕ) {x : ℕ} {rest : List ℕ} → drop n xs ≡ x ∷ rest → drop (suc n) xs ≡ rest
drop-suc zero [] h = absurd (ground arith)
drop-suc zero (y ∷ xs) h = ground arith
drop-suc (suc n) [] h = absurd (ground arith)
drop-suc (suc n) (y ∷ xs) h = drop-suc n xs h

-- The window of a history that is not full grows, and one that is full moves on.
last_ten-grows :
    (history : List ℕ) (price : ℕ)
    → length history < 10
    → last_ten (history ++ price ∷ []) ≡ last_ten history ++ price ∷ []
last_ten-grows history price few =
    let longer = length-append history (price ∷ []) in
    let at_zero : length (history ++ price ∷ []) - 10 ≡ 0 = omega arith in
    let at_zero' : length history - 10 ≡ 0 = omega arith in
    ap (λ n. drop n (history ++ price ∷ [])) at_zero
    ∙ ap (λ n. drop n history ++ price ∷ []) (sym at_zero')

last_ten-moves :
    (history : List ℕ) (price : ℕ) {x : ℕ} {rest : List ℕ}
    → 10 ≤ length history
    → last_ten history ≡ x ∷ rest
    → last_ten (history ++ price ∷ []) ≡ rest ++ price ∷ []
last_ten-moves history price many e =
    let longer = length-append history (price ∷ []) in
    let next : length (history ++ price ∷ []) - 10 ≡ suc (length history - 10) = omega arith in
    ap (λ n. drop n (history ++ price ∷ [])) next
    ∙ drop-append (suc (length history - 10)) history (price ∷ []) (omega arith)
    ∙ ap (λ rest. rest ++ price ∷ []) (drop-suc (length history - 10) history e)

pop_sample_few : (st : GasStatistics) → length st.samples < 10 → pop_sample st ≡ some st
unfolding pop_sample
pop_sample_few st few = elim (List-cases st.samples) [
  | inl e ↦ ground arith
  | inr (x, rest, e) ↦ ground arith
]

pop_sample_full :
    (st : GasStatistics) (x : ℕ) (rest : List ℕ)
    → st.samples ≡ x ∷ rest
    → st.current_sum ≡ x + sum rest
    → 10 ≤ length st.samples
    → pop_sample st ≡ some (record st { samples = rest; current_sum = sum rest })
unfolding pop_sample u256_sub
pop_sample_full st x rest e sums full = ground arith

add_popped :
    (price : ℕ) (st popped : GasStatistics)
    → pop_sample st ≡ some popped
    → popped.current_sum + price < u256_mod
    → add_sample price st
      ≡ some (record popped {
        samples = popped.samples ++ price ∷ [];
        current_sum = popped.current_sum + price;
      })
unfolding add_sample u256_add
add_popped price st popped e small = ground arith

-- A sample is added without a panic where the sum stays below 2 ^ 256, and the samples are the last ten
-- of the history with it, and the sum is theirs; the limit stays.
pub add_sample-Samples :
    (history : List ℕ) (price : ℕ) (st : GasStatistics)
    → Samples history st
    → st.current_sum + price < u256_mod
    → (st' : GasStatistics) × (add_sample price st ≡ some st')
      × Samples (history ++ price ∷ []) st'
      × (st'.current_max_price ≡ st.current_max_price)
add_sample-Samples history price st h small =
    let size = length-drop (length history - 10) history in
    let same_size : length st.samples ≡ length (last_ten history) = ap length h.window in
    elim (Bool-cases (leb 10 (length history))) [
      | inr few ↦ (
        record st { samples = st.samples ++ price ∷ []; current_sum = st.current_sum + price },
        add_popped price st st (pop_sample_few st (ground arith)) small,
        record {
          window =
              ap (λ w. w ++ price ∷ []) h.window
              ∙ sym (last_ten-grows history price (ground arith));
          total = ground (arith, sum-append st.samples (price ∷ []), h.total);
        },
        refl,
      )
      | inl many ↦ elim (List-cases st.samples) [
        | inl none_yet ↦ absurd (ground arith)
        | inr (x, rest, e) ↦
            let popped : GasStatistics = record st { samples = rest; current_sum = sum rest } in
            let sums : st.current_sum ≡ x + sum rest = h.total ∙ ap sum e in
            (
              record popped { samples = rest ++ price ∷ []; current_sum = sum rest + price },
              add_popped price st popped (pop_sample_full st x rest e sums (ground arith))
                  (omega arith),
              record {
                window = sym (last_ten-moves history price (ground arith) (sym h.window ∙ e));
                total = ground (arith, sum-append rest (price ∷ []));
              },
              refl,
            )
      ]
    ]

scale_up-greatest :
    (old network p : ℕ)
    → scale_up old network ≡ some p
    → (network ≤ p) × (old * 115 / 100 ≤ p) × ((p ≡ network) ⊎ (p ≡ old * 115 / 100))
unfolding scale_up u256_mul u256_div
scale_up-greatest old network p h = elim (Bool-cases (ltb (old * 115 / 100) network)) [
  | inl e ↦ (ground arith, ground arith, inl (ground arith))
  | inr e ↦ (ground arith, ground arith, inr (ground arith))
]

-- The price that is wanted: that of the network for a new transaction, and the greater of that and
-- 15% above the old price, rounded down, for one that is stuck.
abbrev pub Wanted : ℕ → Option ℕ → ℕ → Type 0
Wanted network none price = price ≡ network
Wanted network (some old) price =
    (network ≤ price) × (old * 115 / 100 ≤ price) × ((price ≡ network) ⊎ (price ≡ old * 115 / 100))

-- The lesser of two prices.
abbrev pub Least : ℕ → ℕ → ℕ → Type 0
Least a b price = (price ≤ a) × (price ≤ b) × ((price ≡ a) ⊎ (price ≡ b))

limit_max-Least :
    (wanted : ℕ) (st : GasStatistics) → Least wanted st.current_max_price (limit_max wanted st)
unfolding limit_max
limit_max-Least wanted st = elim (Bool-cases (ltb wanted st.current_max_price)) [
  | inl e ↦ (ground arith, ground arith, inl (ground arith))
  | inr e ↦ (ground arith, ground arith, inr (ground arith))
]

-- A price that is given is the lesser of the limit and the price that is wanted: for a new transaction
-- the price of the network, and for one that is stuck the greater of the price of the network and 15%
-- more than it had, rounded down.
pub get_gas_price-bounds :
    (network price : ℕ) (old : Option ℕ) (st : GasStatistics)
    → get_gas_price (some network) old st ≡ done price
    → (wanted : ℕ) × Wanted network old wanted × Least wanted st.current_max_price price
unfolding get_gas_price scaled_price
get_gas_price-bounds network price none st h =
    let is : limit_max network st ≡ price = ground arith in
    (network, refl, subst (Least network st.current_max_price) is (limit_max-Least network st))
get_gas_price-bounds network price (some o) st h = elim (Option-cases (scale_up o network)) [
  | inl e ↦ absurd (ground arith)
  | inr (p, e) ↦
      let is : limit_max p st ≡ price = ground arith in
      (
        p,
        scale_up-greatest o network p e,
        subst (Least p st.current_max_price) is (limit_max-Least p st),
      )
]
