-- ===== src/Ai/Pricing.antt =====
-- apps/api/app/ai/pricing.py: the grid of prices in micro-euros per million tokens, and the cost of
-- a call. Token counts are not negative; `max(a - b, 0)` is the truncated difference.
use blank.Prelude.{
  ℕ, ◌+◌, ◌-◌, ◌*◌, ◌/◌, ◌≤◌, ◌≡◌, refl, inl, inr, Bool, true, ◌&&◌, Option, none, some, List, [],
  ◌∷◌, String, str_eq, arith, leb, if◌then◌else◌, Option-cases, ap,
}

pub record ModelPrice : Type 0 where
  pub input_per_mtok : ℕ
  pub output_per_mtok : ℕ
  pub cached_input_per_mtok : ℕ

pub record TokenUsage : Type 0 where
  pub input_tokens : ℕ
  pub output_tokens : ℕ
  pub cached_tokens : ℕ

abbrev price : ℕ → ℕ → ℕ → ModelPrice
price input output cached = record {
  input_per_mtok = input;
  output_per_mtok = output;
  cached_input_per_mtok = cached;
}

abbrev pub prices : List ((String × String) × ModelPrice)
prices =
    (("mistral", "mistral-small-latest"), price 200000 600000 200000)
    ∷ (("mistral", "mistral-large-latest"), price 2000000 6000000 2000000)
    ∷ (("mistral", "mistral-embed"), price 100000 0 100000)
    ∷ (("anthropic", "claude-3-5-haiku-latest"), price 800000 4000000 80000)
    ∷ (("anthropic", "claude-3-5-sonnet-latest"), price 3000000 15000000 300000)
    ∷ (("openai", "gpt-4o-mini"), price 150000 600000 75000)
    ∷ (("openai", "gpt-4o"), price 2500000 10000000 1250000)
    ∷ (("openai", "text-embedding-3-small"), price 20000 0 20000)
    ∷ []

pub find_price : String → String → List ((String × String) × ModelPrice) → Option ModelPrice
find_price provider model [] = none
find_price provider model (((p, m), entry) ∷ grid) =
    if str_eq p provider && str_eq m model then some entry else find_price provider model grid

-- The sum before the division.
pub total_micro : ModelPrice → TokenUsage → ℕ
total_micro p usage =
    (usage.input_tokens - usage.cached_tokens) * p.input_per_mtok
    + usage.cached_tokens * p.cached_input_per_mtok
    + usage.output_tokens * p.output_per_mtok

pub price_of : Option ModelPrice → TokenUsage → ℕ
price_of none usage = 0
price_of (some p) usage = total_micro p usage / 1000000

pub estimate_cost : String → String → TokenUsage → ℕ
estimate_cost provider model usage = price_of (find_price provider model prices) usage

abbrev is_fair : List ((String × String) × ModelPrice) → Bool
is_fair [] = true
is_fair ((_, p) ∷ grid) = leb p.cached_input_per_mtok p.input_per_mtok && is_fair grid

-- In the grid a cached token never costs more than another input token.
cached_is_cheaper :
    (provider model : String) (grid : List ((String × String) × ModelPrice)) {p : ModelPrice}
    → is_fair grid ≡ true
    → find_price provider model grid ≡ some p
    → p.cached_input_per_mtok ≤ p.input_per_mtok
unfolding find_price
cached_is_cheaper provider model [] f e = cc
cached_is_cheaper provider model (((q, m), entry) ∷ grid) {p} f e =
    ground (arith, cached_is_cheaper provider model grid {p = p})

mul_mono : (a b c d : ℕ) → a ≤ b → c ≤ d → a * c ≤ b * d
mul_mono a b c d h k = grind arith

distrib : (a b c : ℕ) → (a + b) * c ≡ a * c + b * c
distrib a b c = grind arith

div_mono : (a b : ℕ) → a ≤ b → a / 1000000 ≤ b / 1000000
div_mono a b h = omega arith

total_micro_mono :
    (p : ModelPrice) (usage more : TokenUsage)
    → usage.input_tokens ≤ more.input_tokens
    → usage.output_tokens ≤ more.output_tokens
    → more.cached_tokens ≤ usage.cached_tokens
    → usage.cached_tokens ≤ usage.input_tokens
    → p.cached_input_per_mtok ≤ p.input_per_mtok
    → total_micro p usage ≤ total_micro p more
unfolding total_micro
total_micro_mono p usage more input output cached among cheaper =
    let a = usage.input_tokens in
    let b = more.input_tokens in
    let k = usage.cached_tokens in
    let j = more.cached_tokens in
    let pi = p.input_per_mtok in
    let pc = p.cached_input_per_mtok in
    let po = p.output_per_mtok in
    let outputs = mul_mono usage.output_tokens more.output_tokens po po output (omega arith) in
    let inputs = mul_mono ((a - k) + (k - j)) (b - j) pi pi (omega arith) (omega arith) in
    let dearer = mul_mono (k - j) (k - j) pc pi (omega arith) cheaper in
    let left = distrib (a - k) (k - j) pi in
    let right = distrib j (k - j) pc in
    let whole : k ≡ j + (k - j) = omega arith in
    let spread : k * pc ≡ (j + (k - j)) * pc = ap (λ (t : ℕ). t * pc) whole in omega arith

-- A call never costs more than the same call with fewer cached tokens, and costs no less with more
-- output; cached tokens are among the input.
pub estimate_cost_mono :
    (provider model : String) (usage more : TokenUsage)
    → usage.input_tokens ≤ more.input_tokens
    → usage.output_tokens ≤ more.output_tokens
    → more.cached_tokens ≤ usage.cached_tokens
    → usage.cached_tokens ≤ usage.input_tokens
    → estimate_cost provider model usage ≤ estimate_cost provider model more
unfolding estimate_cost price_of
estimate_cost_mono provider model usage more input output cached among =
    elim (Option-cases (find_price provider model prices)) [
      | inl unknown ↦ ground arith
      | inr (p, listed) ↦
          let cheaper = cached_is_cheaper provider model prices refl listed in
          rw listed (div_mono _ _ (total_micro_mono p usage more input output cached among cheaper))
    ]
