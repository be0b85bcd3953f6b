-- ===== src/ConvEncode/Registers.antt =====
-- The encoder of lib/conv_encode27_aux.cc, which keeps its registers in the bits of a number, gives the
-- bits of the reference.
use Prim.Native.Nat.{bit_or, bit_xor}
use mathlib.Core.Path.{ap₂}
use gr_ccsds.Prelude.{
  ℕ, zero, suc, ◌+◌, ◌-◌, ◌*◌, ◌/◌, ◌%◌, ◌^◌, ◌≤◌, ◌<◌, ◌≡◌, refl, sym, ap, ◌∙◌, Bool, true, false,
  List, [], ◌∷◌, ◌++◌, append-nil, append_assoc, take, length, ◌==◌, if◌then◌else◌, arith, IsByte,
}
use gr_ccsds.Prelude.Merged.{bit_or-add}
use gr_ccsds.Prelude.BitLists.{bits_of, bits_of-high, bits_of-join, bits_of-mod}
use gr_ccsds.ConvEncode.Defs.{Code, taps, output_bit, encode_rounds, encode}
use gr_ccsds.ConvEncode.Reference.{dot, coded_bit, coded, memory_after}

-- The `k` registers from the `t`-th on.
unfoldable pub registers : ℕ → ℕ → ℕ → List ℕ
registers zero t state = []
registers (suc k) t state = state / 2 ^ (7 + t) % 2 ∷ registers k (t + 1) state

-- The six bits before the current one.
abbrev pub memory : ℕ → List ℕ
memory state = registers 6 1 state

flip :
    (out q w : ℕ)
    → out < 2
    → q < 2
    → w < 2
    → (if w == 1 then bit_xor out (if q == 1 then 1 else 0) else out) ≡ (out + q * w) % 2
flip zero zero zero ho hq hw = refl
flip zero zero (suc zero) ho hq hw = refl
flip zero (suc zero) zero ho hq hw = refl
flip zero (suc zero) (suc zero) ho hq hw = refl
flip (suc zero) zero zero ho hq hw = refl
flip (suc zero) zero (suc zero) ho hq hw = refl
flip (suc zero) (suc zero) zero ho hq hw = refl
flip (suc zero) (suc zero) (suc zero) ho hq hw = refl
flip (suc (suc out)) q w ho hq hw = absurd (omega arith)
flip zero (suc (suc q)) w ho hq hw = absurd (omega arith)
flip (suc zero) (suc (suc q)) w ho hq hw = absurd (omega arith)
flip zero zero (suc (suc w)) ho hq hw = absurd (omega arith)
flip zero (suc zero) (suc (suc w)) ho hq hw = absurd (omega arith)
flip (suc zero) zero (suc (suc w)) ho hq hw = absurd (omega arith)
flip (suc zero) (suc zero) (suc (suc w)) ho hq hw = absurd (omega arith)

taps-dot :
    (k t poly state out : ℕ)
    → t + k ≡ 7
    → out < 2
    → taps k t poly state out ≡ (out + dot (bits_of k poly) (registers k t state)) % 2
unfolding taps bits_of registers
taps-dot zero t poly state out h lt = omega arith
taps-dot (suc k) t poly state out h lt =
    let w = state / 2 ^ (7 + t) % 2 in
    let q = poly / 2 ^ k % 2 in
    let place : 6 - t ≡ k = omega arith in
    let flipped = flip out q w lt (omega arith) (omega arith) in
    let rest = dot (bits_of k poly) (registers k (t + 1) state) in
    ap
      (λ e.
        taps k (t + 1) poly state
          (if w == 1 then bit_xor out (if poly / 2 ^ e % 2 == 1 then 1 else 0) else out))
      place
    ∙ ap (taps k (t + 1) poly state) flipped
    ∙ taps-dot k (t + 1) poly state ((out + q * w) % 2) (omega arith) (omega arith)
    ∙ omega arith

output_bit-coded_bit :
    (invert : Bool) (poly state : ℕ)
    → output_bit invert poly state ≡ coded_bit invert poly (state / 2 ^ 7 % 2 ∷ memory state)
unfolding registers
output_bit-coded_bit invert poly state =
    let d = dot (bits_of 7 poly) (state / 2 ^ 7 % 2 ∷ memory state) in
    ap (λ out. (if invert then bit_xor out 1 else out) % 2)
      (taps-dot 7 0 poly state 0 refl (omega arith))
    ∙ turned invert d
  where
    turned :
        (b : Bool) (d : ℕ)
        → (if b then bit_xor ((0 + d) % 2) 1 else (0 + d) % 2) % 2 ≡ ((if b then 1 else 0) + d) % 2
    turned true d =
        ap (λ x. x % 2) (flip ((0 + d) % 2) 1 1 (omega arith) (omega arith) (omega arith))
        ∙ omega arith
    turned false d = omega arith

six-eq :
    {a b c d e f a' b' c' d' e' f' : ℕ}
    → a ≡ a'
    → b ≡ b'
    → c ≡ c'
    → d ≡ d'
    → e ≡ e'
    → f ≡ f'
    → List.◌∷◌ a (b ∷ c ∷ d ∷ e ∷ f ∷ []) ≡ a' ∷ b' ∷ c' ∷ d' ∷ e' ∷ f' ∷ []
six-eq ha hb hc hd he hf =
    ap₂ ◌∷◌ ha (ap₂ ◌∷◌ hb (ap₂ ◌∷◌ hc (ap₂ ◌∷◌ hd (ap₂ ◌∷◌ he (ap₂ ◌∷◌ hf refl)))))

-- The current bit becomes the newest of the memory.
memory-shift : (state : ℕ) → memory (state * 2 % 2 ^ 15) ≡ take 6 (state / 2 ^ 7 % 2 ∷ memory state)
unfolding registers
memory-shift state =
    six-eq (omega arith) (omega arith) (omega arith) (omega arith) (omega arith) (omega arith)

take-append_less {ℓ} :
    {A : Type ℓ} (k : ℕ) (xs ys : List A) → k ≤ length xs → take k (xs ++ ys) ≡ take k xs
take-append_less zero xs ys h = refl
take-append_less (suc k) [] ys h = absurd (omega arith)
take-append_less (suc k) (x ∷ xs) ys h = ap (λ l. x ∷ l) (take-append_less k xs ys (omega arith))

input-shift :
    (k state : ℕ) → k ≤ 7 → take k (bits_of 8 (state * 2 % 2 ^ 15)) ≡ take k (bits_of 7 state)
unfolding bits_of
input-shift k state h =
    let high : state * 2 % 2 ^ 15 ≡ state % 2 ^ 14 * 2 ^ 1 + 0 = omega arith in
    ap (λ y. take k (bits_of 8 y)) high
    ∙ ap (take k) (bits_of-join 7 1 (state % 2 ^ 14) 0 (omega arith))
    ∙ take-append_less k (bits_of 7 (state % 2 ^ 14)) (bits_of 1 0) h
    ∙ ap (take k) (bits_of-mod 7 14 state (omega arith))

-- Two bits that are shifted in.
bits_of-push_two :
    (n x a b : ℕ)
    → n ≤ 14
    → a < 2
    → b < 2
    → bits_of (n + 2) (bit_or (bit_or (x * 2 ^ 2 % 2 ^ 16) (a * 2)) b) ≡ bits_of n x ++ a ∷ b ∷ []
unfolding bits_of
bits_of-push_two n x a b h ha hb =
    let high : x * 2 ^ 2 % 2 ^ 16 ≡ x % 2 ^ 14 * 2 ^ 2 = omega arith in
    let twice : x % 2 ^ 14 * 2 ^ 2 + a * 2 ≡ (x % 2 ^ 14 * 2 + a) * 2 ^ 1 = omega arith in
    let pair : (x % 2 ^ 14 * 2 + a) * 2 ^ 1 + b ≡ x % 2 ^ 14 * 2 ^ 2 + (a * 2 + b) = omega arith in
    ap (bits_of (n + 2)) (
      ap (λ y. bit_or (bit_or y (a * 2)) b) high
      ∙ ap (λ y. bit_or y b) (bit_or-add 2 (x % 2 ^ 14) (a * 2) (omega arith) ∙ twice)
      ∙ bit_or-add 1 (x % 2 ^ 14 * 2 + a) b hb
      ∙ pair)
    ∙ bits_of-join n 2 (x % 2 ^ 14) (a * 2 + b) (omega arith)
    ∙ ap₂ ◌++◌ (bits_of-mod n 14 x h) (ap₂ ◌∷◌ (omega arith) (ap₂ ◌∷◌ (omega arith) refl))

encode_rounds-coded :
    (c : Code) (k m out state : ℕ)
    → k ≤ 8
    → m + 2 * k ≤ 16
    → let (out', state') = encode_rounds c k out state in
      (bits_of (m + 2 * k) out'
        ≡ bits_of m out ++ coded c (memory state) (take k (bits_of 8 state)))
      × (memory state' ≡ memory_after (memory state) (take k (bits_of 8 state)))
unfolding encode_rounds coded memory_after bits_of
encode_rounds-coded c zero m out state hk hm =
    let none_more : m + 2 * 0 ≡ m = omega arith in
    (ap (λ n. bits_of n out) none_more ∙ sym (append-nil (bits_of m out)), refl)
encode_rounds-coded c (suc k) m out state hk hm =
    let x = state / 2 ^ 7 % 2 in
    let bit1 = output_bit c.invert_c1 c.poly_c1 state in
    let bit2 = output_bit c.invert_c2 c.poly_c2 state in
    let out' = bit_or (bit_or (out * 2 ^ 2 % 2 ^ 16) (bit1 * 2)) bit2 in
    let state' = state * 2 % 2 ^ 15 in
    let (bits, after) = encode_rounds-coded c k (m + 2) out' state' (omega arith) (omega arith) in
    let count : m + 2 * suc k ≡ m + 2 + 2 * k = omega arith in
    let pushed = bits_of-push_two m out bit1 bit2 (omega arith) (omega arith) (omega arith) in
    let few : k ≤ 7 = omega arith in
    (
      ap (λ n. bits_of n (encode_rounds c k out' state').0) count
          ∙ bits
          ∙ ap₂ ◌++◌
              (pushed
                ∙ ap₂ (λ a b. bits_of m out ++ a ∷ b ∷ [])
                    (output_bit-coded_bit c.invert_c1 c.poly_c1 state)
                    (output_bit-coded_bit c.invert_c2 c.poly_c2 state))
              (ap₂ (coded c) (memory-shift state) (input-shift k state few))
          ∙ append_assoc (bits_of m out)
              (coded_bit c.invert_c1 c.poly_c1 (x ∷ memory state)
                ∷ coded_bit c.invert_c2 c.poly_c2 (x ∷ memory state)
                ∷ [])
              (coded c (take 6 (x ∷ memory state)) (take k (bits_of 7 state))),
      after ∙ ap₂ memory_after (memory-shift state) (input-shift k state few),
    )

registers-low : (q b : ℕ) → IsByte b → memory (q * 2 ^ 8 + b) ≡ memory (q * 2 ^ 8)
unfolding registers
registers-low q b h =
    six-eq (omega arith) (omega arith) (omega arith) (omega arith) (omega arith) (omega arith)

registers-clean : (state : ℕ) → memory (state % 2 ^ 15 / 2 ^ 8 * 2 ^ 8) ≡ memory state
unfolding registers
registers-clean state =
    six-eq (omega arith) (omega arith) (omega arith) (omega arith) (omega arith) (omega arith)

whole_input : (s : ℕ) → take 8 (bits_of 8 s) ≡ bits_of 8 s
unfolding bits_of
whole_input s = refl

pub encode-coded :
    (c : Code) (state b : ℕ)
    → state % 2 ^ 8 ≡ 0
    → IsByte b
    → let (out, state') = encode c state b in
      (bits_of 16 out ≡ coded c (memory state) (bits_of 8 b))
      × (memory state' ≡ memory_after (memory state) (bits_of 8 b))
      × (state' % 2 ^ 8 ≡ 0)
unfolding encode coded bits_of
encode-coded c state b clean h =
    let q = state / 2 ^ 8 in
    let whole : state ≡ q * 2 ^ 8 = omega arith in
    let s = bit_or state b in
    let read : s ≡ q * 2 ^ 8 + b = ap (λ x. bit_or x b) whole ∙ bit_or-add 8 q b (omega arith) in
    let same_memory : memory s ≡ memory state =
      ap memory read ∙ registers-low q b h ∙ ap memory (sym whole) in
    let same_input : bits_of 8 s ≡ bits_of 8 b = ap (bits_of 8) read ∙ bits_of-high 8 q b in
    let (bits, after) = encode_rounds-coded c 8 0 0 s (omega arith) (omega arith) in
    let (out, state') = encode_rounds c 8 0 s in
    (
      bits ∙ ap₂ (coded c) same_memory (whole_input s ∙ same_input),
      registers-clean state' ∙ after ∙ ap₂ memory_after same_memory (whole_input s ∙ same_input),
      omega arith,
    )
