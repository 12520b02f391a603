-- ===== src/Limits/Budget.antt =====
-- `BudgetController` of app/core/budget.py. The costs are floats of any kind: their sum and their
-- order are a parameter.
use ai_team_os.Prelude.{
  zero, suc, ◌<◌, ℕ, ◌+◌, ◌≤◌, ◌≡◌, Bool, true, false, not, ◌&&◌, ◌||◌, List, [], ◌∷◌,
  if◌then◌else◌, leb, ltb, arith, Result, ok, err, is_ok,
}

-- What the controller uses of the costs.
pub record Cost : Type 1 where
  pub Amount : Type 0
  pub add : Amount → Amount → Amount
  pub at_most : Amount → Amount → Bool
  pub exceeds : Amount → Amount → Bool

-- No amount is a NaN: one exceeds another exactly when it is not at most it.
abbrev pub IsOrdered : Cost → Type 0
IsOrdered c = (a b : c.Amount) → c.exceeds a b ≡ not (c.at_most a b)

pub record BudgetController (cost : Cost) : Type 0 where
  pub token_budget : ℕ
  pub cost_budget : cost.Amount
  pub used_tokens : ℕ
  pub used_cost : cost.Amount
  pub used_calls : ℕ
  pub max_calls : ℕ

-- The used amount and the limit of the exception.
pub data BudgetExceeded (cost : Cost) : Type 0 where
  subtask_allocation : ℕ → ℕ → BudgetExceeded cost
  tokens_exceeded : ℕ → ℕ → BudgetExceeded cost
  cost_exceeded : cost.Amount → cost.Amount → BudgetExceeded cost

abbrev pub sum : List ℕ → ℕ
sum [] = 0
sum (n ∷ ns) = n + sum ns

-- One call: its input tokens, output tokens and cost.
abbrev pub Use : Cost → Type 0
Use cost = ℕ × ℕ × cost.Amount

module _ (cost : Cost) where
  unfoldable pub allocate_subtasks :
      List ℕ → BudgetController cost → Result (BudgetExceeded cost) (Unit {0})
  allocate_subtasks allocations b =
      if ltb b.token_budget (sum allocations)
      then err (subtask_allocation (sum allocations) b.token_budget)
      else ok tt

  unfoldable pub can_call : ℕ → ℕ → cost.Amount → BudgetController cost → Bool
  can_call input_tokens output_tokens amount b =
      ltb b.used_calls b.max_calls
      && leb (b.used_tokens + input_tokens + output_tokens) b.token_budget
      && cost.at_most (cost.add b.used_cost amount) b.cost_budget

  -- The state after `record`, and whether it raises.
  unfoldable pub record_use :
      ℕ
      → ℕ
      → cost.Amount
      → BudgetController cost
      → BudgetController cost × Result (BudgetExceeded cost) (Unit {0})
  record_use input_tokens output_tokens amount b =
      let add_tokens = input_tokens + output_tokens in
      let tokens_over = ltb b.token_budget (b.used_tokens + add_tokens) in
      let cost_over = cost.exceeds (cost.add b.used_cost amount) b.cost_budget in
      if tokens_over || cost_over
      then (
        b,
        if tokens_over
            then err (tokens_exceeded (b.used_tokens + add_tokens) b.token_budget)
            else err (cost_exceeded (cost.add b.used_cost amount) b.cost_budget),
      )
      else (
        record b {
          used_tokens = b.used_tokens + add_tokens;
          used_cost = cost.add b.used_cost amount;
          used_calls = b.used_calls + 1;
        },
        ok tt,
      )

  -- What happens to the controller that the calls of `ModelGateway.chat` share: one asks for its
  -- estimate, and later the provider has answered it with its use, or has raised. Calls may overlap;
  -- `can_call` and `record` are one step each.
  pub data Event : Type 0 where
    ask : Use cost → Event
    answer : Use cost → Event
    fail : Event

  -- The controller, and the number of calls that are at the provider.
  abbrev pub Calls : Type 0
  Calls = BudgetController cost × ℕ

  -- One of at most so many callers asks: its call is made when `can_call` allows the estimate.
  unfoldable pub chat_ask : ℕ → Use cost → Calls → Calls
  unfolding can_call
  chat_ask callers (i, o, c) (b, busy) =
      if ltb busy callers && can_call i o c b then (b, busy + 1) else (b, busy)

  -- The use of an answered call is recorded.
  unfoldable pub chat_answer : Use cost → Calls → Calls
  unfolding record_use
  chat_answer (i, o, c) (b, zero) = (b, zero)
  chat_answer (i, o, c) (b, suc busy) = ((record_use i o c b).0, busy)

  abbrev pub event : ℕ → Event → Calls → Calls
  event callers (ask estimate) s = chat_ask callers estimate s
  event callers (answer used) s = chat_answer used s
  event callers fail (b, zero) = (b, zero)
  event callers fail (b, suc busy) = (b, busy)

  unfoldable pub events : ℕ → List Event → Calls → Calls
  events callers [] s = s
  events callers (e ∷ es) s = events callers es (event callers e s)

  -- Within the budget: the tokens, the cost and the calls.
  pub record IsWithin (b : BudgetController cost) : Type 0 where
    pub tokens : b.used_tokens ≤ b.token_budget
    pub amount : cost.at_most b.used_cost b.cost_budget ≡ true
    pub counted : b.used_calls ≤ b.max_calls

  abbrev pub HasLimitsOf : BudgetController cost → BudgetController cost → Type 0
  HasLimitsOf b a =
      (b.token_budget ≡ a.token_budget)
      × (b.cost_budget ≡ a.cost_budget)
      × (b.max_calls ≡ a.max_calls)

  -- A call that `can_call` allows is recorded when it uses what was estimated, and a use that is
  -- refused changes nothing.
  pub can_call-record_use :
      (input output : ℕ) (amount : cost.Amount) (b : BudgetController cost)
      → IsOrdered cost
      → (can_call input output amount b ≡ true → is_ok (record_use input output amount b).1 ≡ true)
        × (is_ok (record_use input output amount b).1 ≡ false
            → (record_use input output amount b).0 ≡ b)
  unfolding can_call record_use
  can_call-record_use i o c b ordered =
      let flip = ordered (cost.add b.used_cost c) b.cost_budget in
      (λ h. ground (arith, flip), λ h. ground (arith, flip))

  -- The budget, when calls may be at the provider.
  pub record IsBounded (callers : ℕ) (s : Calls) : Type 0 where
    pub tokens : s.0.used_tokens ≤ s.0.token_budget
    pub amount : cost.at_most s.0.used_cost s.0.cost_budget ≡ true
    pub counted : s.0.used_calls + s.1 < s.0.max_calls + callers
