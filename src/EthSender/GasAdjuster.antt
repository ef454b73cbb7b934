-- ===== src/EthSender/GasAdjuster.antt =====
-- gas_adjuster/mod.rs: the gas price of a transaction and its limit. The arithmetic of `U256` panics
-- on overflow, which is `none` here. The clock, the network's price and the scale factor, multiplied
-- by 100 and rounded, are arguments.
use qs_react_native_zksync.Prelude.{
  ℕ, ◌+◌, ◌-◌, ◌*◌, ◌/◌, ◌^◌, Bool, true, false, Option, none, some, List, [], ◌∷◌, ◌++◌, length,
  ltb, leb, ◌==◌, if◌then◌else◌, and_then,
}
use qs_react_native_zksync.Gas.{Outcome, done, refused, crash}

abbrev pub u256_mod : ℕ
u256_mod = 2 ^ 256

unfoldable pub u256_add : ℕ → ℕ → Option ℕ
u256_add a b = if ltb (a + b) u256_mod then some (a + b) else none

unfoldable pub u256_sub : ℕ → ℕ → Option ℕ
u256_sub a b = if leb b a then some (a - b) else none

unfoldable pub u256_mul : ℕ → ℕ → Option ℕ
u256_mul a b = if ltb (a * b) u256_mod then some (a * b) else none

-- a division by zero panics
unfoldable pub u256_div : ℕ → ℕ → Option ℕ
u256_div a b = if b == 0 then none else some (a / b)

pub record GasStatistics : Type 0 where
  pub samples : List ℕ
  pub current_sum : ℕ
  pub current_max_price : ℕ

abbrev pub gas_price_samples_amount : ℕ
gas_price_samples_amount = 10

unfoldable pub new : ℕ → GasStatistics
new initial_max_price = record {
  samples = [];
  current_sum = 0;
  current_max_price = initial_max_price;
}

-- the oldest sample, where there are enough, taken out
unfoldable pub pop_sample : GasStatistics → Option GasStatistics
unfolding u256_sub
pop_sample st = elim st.samples [
  | [] ↦ if leb gas_price_samples_amount 0 then none else some st
  | popped_price ∷ rest ↦
      if leb gas_price_samples_amount (length st.samples)
      then and_then (u256_sub st.current_sum popped_price)
          (λ sum. some (record st { samples = rest; current_sum = sum }))
      else some st
]

unfoldable pub add_sample : ℕ → GasStatistics → Option GasStatistics
unfolding pop_sample u256_add
add_sample price st = and_then (pop_sample st) (λ popped.
    and_then (u256_add popped.current_sum price)
      (λ sum. some (record popped { samples = popped.samples ++ price ∷ []; current_sum = sum })))

unfoldable pub update_limit : ℕ → GasStatistics → Option GasStatistics
unfolding u256_mul u256_div
update_limit multiplier st =
    if ltb (length st.samples) gas_price_samples_amount
    then some st
    else and_then (u256_div st.current_sum (length st.samples)) (λ average_price.
      and_then (u256_mul average_price multiplier) (λ scaled.
        and_then (u256_div scaled 100) (λ limit. some (record st { current_max_price = limit }))))

unfoldable pub scale_up : ℕ → ℕ → Option ℕ
unfolding u256_mul u256_div
scale_up price_to_scale current_network_price = and_then (u256_mul price_to_scale 115) (λ scaled.
    and_then (u256_div scaled 100) (λ replacement_price. some (
      if ltb replacement_price current_network_price
      then current_network_price
      else replacement_price)))

unfoldable pub limit_max : ℕ → GasStatistics → ℕ
limit_max price st = if ltb price st.current_max_price then price else st.current_max_price

-- the price before the limit, of a new transaction or of one that is stuck
unfoldable pub scaled_price : ℕ → Option ℕ → Option ℕ
unfolding scale_up
scaled_price network_price none = some network_price
scaled_price network_price (some old_price) = scale_up old_price network_price

-- `refused` is the error of the network's answer.
unfoldable pub get_gas_price : Option ℕ → Option ℕ → GasStatistics → Outcome (Unit {0}) ℕ
unfolding scaled_price limit_max
get_gas_price network old_tx_gas_price st = elim network [
  | none ↦ refused tt
  | some network_price ↦ elim (scaled_price network_price old_tx_gas_price) [
    | none ↦ crash
    | some price ↦ done (limit_max price st)
  ]
]

unfoldable pub get_average_gas_price : ℕ → GasStatistics → Option ℕ
unfolding u256_mul u256_div
get_average_gas_price divider st =
    and_then (u256_mul st.current_max_price 100) (λ scaled. u256_div scaled divider)

-- a sample, where it is time for one and the network answers
unfoldable pub keep_sampled : Bool → Option ℕ → GasStatistics → Option GasStatistics
unfolding add_sample
keep_sampled false network st = some st
keep_sampled true none st = some st
keep_sampled true (some price) st = add_sample price st

-- The statistics, with the limit and the average for the database where it is time for them.
unfoldable pub keep_updated :
    Bool → Option ℕ → Bool → ℕ → GasStatistics → Option (GasStatistics × Option (ℕ × ℕ))
unfolding keep_sampled update_limit get_average_gas_price
keep_updated sample_due network limit_due multiplier st =
    and_then (keep_sampled sample_due network st) (λ sampled.
      if limit_due
      then and_then (update_limit multiplier sampled) (λ updated.
        and_then (get_average_gas_price multiplier updated)
          (λ average. some (updated, some (updated.current_max_price, average))))
      else some (sampled, none))
