-- ===== src/Prelude/Modular.antt =====
-- Congruence of natural numbers, and the laws of powers.
use Prim.Native.Nat.{ℕ, zero, suc, ◌+◌, ◌*◌, ◌%◌, ◌/◌, ◌^◌}
use mathlib.Core.Path.{◌≡◌, sym, ap, ◌∙◌, ◌≡⟨◌⟩◌, ◌∎}
use native.Mathlib.Nat.{
  add-mul-mod_self_left, mod-add-div, mul_comm, pow-zero, pow-suc, add-mod, one-mul,
}
use native.Mathlib.Omega.{arith}

-- a and b leave the same remainder by n.
abbrev pub Congruent : ℕ → ℕ → ℕ → Type 0
Congruent n a b = a % n ≡ b % n

pub mod-mul-mod : (a b n : ℕ) → (a % n * b) % n ≡ (a * b) % n
mod-mul-mod a b n =
    (a % n * b) % n
    ≡⟨ sym (add-mul-mod_self_left (a % n * b) n (a / n * b)) ⟩ (a % n * b + n * (a / n * b)) % n
    ≡⟨ ap (λ t. t % n) (omega (arith, ap (λ (t : ℕ). t * b) (mod-add-div a n))) ⟩ (a * b) % n ∎

pub mul-mod-mod : (a b n : ℕ) → (a * (b % n)) % n ≡ (a * b) % n
mul-mod-mod a b n = rw (mul_comm a (b % n), mul_comm a b) (mod-mul-mod b a n)

pub mul_congr : (n a b c d : ℕ) → Congruent n a b → Congruent n c d → Congruent n (a * c) (b * d)
mul_congr n a b c d p q =
    (a * c) % n
    ≡⟨ sym (mod-mul-mod a c n) ∙ ap (λ t. (t * c) % n) p ∙ mod-mul-mod b c n ⟩ (b * c) % n
    ≡⟨ sym (mul-mod-mod b c n) ∙ ap (λ t. (b * t) % n) q ∙ mul-mod-mod b d n ⟩ (b * d) % n ∎

pub add_congr : (n a b c d : ℕ) → Congruent n a b → Congruent n c d → Congruent n (a + c) (b + d)
add_congr n a b c d p q = rw (add-mod a c n, p, q) (sym (add-mod b d n))

pub pow_congr : (n k a b : ℕ) → Congruent n a b → Congruent n (a ^ k) (b ^ k)
pow_congr n zero a b p = rw (pow-zero a, pow-zero b)
pow_congr n (suc k) a b p =
    rw (pow-suc a k, pow-suc b k) (mul_congr n (a ^ k) (b ^ k) a b (pow_congr n k a b p) p)

pub pow-add : (a j k : ℕ) → a ^ (j + k) ≡ a ^ j * a ^ k
pow-add a zero k = rw (pow-zero a, one-mul) (ap (λ t. a ^ t) {x = 0 + k} {y = k} (omega arith))
pow-add a (suc j) k =
    ap (λ t. a ^ t) {x = suc j + k} {y = suc (j + k)} (omega arith)
    ∙ rw (pow-suc a (j + k), pow-suc a j, pow-add a j k) (omega arith)

pub pow-mul : (a j k : ℕ) → a ^ (j * k) ≡ (a ^ j) ^ k
pow-mul a j zero =
    rw (pow-zero (a ^ j)) (ap (λ t. a ^ t) {x = j * 0} {y = 0} (omega arith) ∙ pow-zero a)
pow-mul a j (suc k) =
    ap (λ t. a ^ t) {x = j * suc k} {y = j * k + j} (omega arith)
    ∙ pow-add a (j * k) j
    ∙ rw (pow-suc (a ^ j) k, pow-mul a j k)

pub mul-pow : (a b k : ℕ) → (a * b) ^ k ≡ a ^ k * b ^ k
mul-pow a b zero = rw (pow-zero (a * b), pow-zero a, pow-zero b)
mul-pow a b (suc k) = rw (pow-suc (a * b) k, pow-suc a k, pow-suc b k, mul-pow a b k) (omega arith)
