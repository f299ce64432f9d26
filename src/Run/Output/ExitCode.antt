-- ===== src/Run/Output/ExitCode.antt =====
-- crates/prek/src/run.rs, `HookRunOutput::append`: the combined exit code.
use Prim.Native.Nat.{bit_or, bit_or-bitwise, digits}
use prek.Prelude.{ℕ, zero, suc, ◌/◌, ◌≤◌, ◌≡◌, refl, max, arith, ◌↔◌, ◌++◌}
use prek.Run.Output.{HookRunOutput, append}

abbrev or_digits : ℕ → ℕ → ℕ → ℕ
or_digits n a b = digits (λ b. b) max n a b

or_digits_zero : (n a b : ℕ) → a ≤ n → or_digits n a b ≡ 0 → (a ≡ 0) × (b ≡ 0)
or_digits_zero zero a b h e = omega arith
or_digits_zero (suc n) zero b h e = omega arith
or_digits_zero (suc n) (suc a) b h e =
    let low : or_digits n (suc a / 2) (b / 2) ≡ 0 = omega arith in
    omega (arith, or_digits_zero n (suc a / 2) (b / 2) (omega arith) low)

-- An exit code that is combined from two is 0 only if both are.
pub bit_or_zero : (a b : ℕ) → bit_or a b ≡ 0 → (a ≡ 0) × (b ≡ 0)
bit_or_zero a b h = or_digits_zero a a b (omega arith) (omega (arith, bit_or-bitwise a b))

-- The exit code that is combined from two outputs is 0 exactly if both are.
pub append_zero_iff :
    (a b : HookRunOutput) → ((append a b).exit_code ≡ 0) ↔ ((a.exit_code ≡ 0) × (b.exit_code ≡ 0))
unfolding append
append_zero_iff a b = (λ h. bit_or_zero _ _ h, λ h. rw (h.0, h.1))

pub output-append : (a b : HookRunOutput) → (append a b).output ≡ a.output ++ b.output
unfolding append
output-append a b = refl
