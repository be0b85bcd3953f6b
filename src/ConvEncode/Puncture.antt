-- ===== src/ConvEncode/Puncture.antt =====
-- The puncturing of lib/conv_encode27_aux.cc keeps the bits that the pattern keeps.
use Prim.Native.Nat.{bit_or}
use mathlib.Core.Path.{ap₂}
use gr_ccsds.Prelude.{
  ℕ, zero, suc, ◌+◌, ◌-◌, ◌*◌, ◌/◌, ◌%◌, ◌^◌, ◌≤◌, ◌<◌, ◌≡◌, refl, sym, ap, subst, ◌∙◌, false,
  Bool-cases, inl, inr, List, [], ◌∷◌, ◌++◌, append-nil, append_assoc, length, get_or, arith,
}
use gr_ccsds.Prelude.Merged.{bit_or-add}
use gr_ccsds.Prelude.BitLists.{bits_of, length-bits_of, bits_of-join, bits_of-mod}
use gr_ccsds.ConvEncode.Defs.{
  PunctT, unpunctured, ecss_23, ecss_34, ecss_56, ecss_78, get_pattern, get_pattern_len,
  puncture_rounds, puncture, select_bits,
}
use gr_ccsds.ConvEncode.Reference.{kept, count_after, kept-true, kept-false, length-kept-le}

-- A bit that is shifted in.
pub bits_of-push :
    (n x b : ℕ)
    → n ≤ 15
    → b < 2
    → bits_of (n + 1) (bit_or (x * 2 % 2 ^ 16) b) ≡ bits_of n x ++ b ∷ []
unfolding bits_of
bits_of-push n x b h lt =
    let high : x * 2 % 2 ^ 16 ≡ x % 2 ^ 15 * 2 ^ 1 = omega arith in
    let bit : b / 1 % 2 ≡ b = omega arith in
    ap (bits_of (n + 1)) (ap (λ y. bit_or y b) high ∙ bit_or-add 1 (x % 2 ^ 15) b lt)
    ∙ bits_of-join n 1 (x % 2 ^ 15) b lt
    ∙ ap₂ (λ l d. l ++ d ∷ []) (bits_of-mod n 15 x h) bit

pub record IsPunctured (p : PunctT) (num count : ℕ) (bits before : List ℕ) (result : ℕ × ℕ × ℕ)
    : Type 0 where
  pub same_bits : bits_of result.1 result.0 ≡ before ++ kept p count bits
  pub same_count : result.2 ≡ count_after p count bits
  pub few : result.1 ≤ num + length bits

puncture_rounds-IsPunctured :
    (p : PunctT) (k i input out num count : ℕ)
    → i + k ≡ 16
    → num ≤ i
    → IsPunctured p num count
        (bits_of k input)
        (bits_of num out)
        (puncture_rounds p k i input out num count)
unfolding puncture_rounds kept count_after bits_of
puncture_rounds-IsPunctured p zero i input out num count h le = record {
  same_bits = sym (append-nil (bits_of num out));
  same_count = refl;
  few = omega arith;
}
puncture_rounds-IsPunctured p (suc k) i input out num count h le =
    let bit = input / 2 ^ k % 2 in
    let place : 15 - i ≡ k = omega arith in
    let next = (count + 1) % get_pattern_len p in
    elim (Bool-cases (get_or (get_pattern p) count false)) [
      | inl keeps ↦
          let out' = bit_or (out * 2 % 2 ^ 16) (input / 2 ^ (15 - i) % 2) in
          let rest =
            puncture_rounds-IsPunctured p k (i + 1) input out' (num + 1) next (omega arith)
              (omega arith) in
          let pushed : bits_of (num + 1) out' ≡ bits_of num out ++ bit ∷ [] =
            ap (λ e. bits_of (num + 1) (bit_or (out * 2 % 2 ^ 16) (input / 2 ^ e % 2))) place
            ∙ bits_of-push num out bit (omega arith) (omega arith) in
          rw keeps (record {
            same_bits =
                rest.same_bits
                ∙ ap (λ l. l ++ kept p next (bits_of k input)) pushed
                ∙ append_assoc (bits_of num out) (bit ∷ []) (kept p next (bits_of k input))
                ∙ ap (λ l. bits_of num out ++ l)
                    (sym (kept-true p count bit (bits_of k input) keeps));
            same_count = rest.same_count;
            few = omega (arith, rest.few);
          })
      | inr drops ↦
          let rest =
            puncture_rounds-IsPunctured p k (i + 1) input out num next (omega arith)
              (omega arith) in
          rw drops (record {
            same_bits =
                rest.same_bits
                ∙ ap (λ l. bits_of num out ++ l)
                    (sym (kept-false p count bit (bits_of k input) drops));
            same_count = rest.same_count;
            few = omega (arith, rest.few);
          })
    ]

punctured-le :
    (p : PunctT) (encoded count : ℕ)
    → count < get_pattern_len p
    → let (bits, num, count') = puncture p encoded count in 8 ≤ num
unfolding bits_of
punctured-le p encoded count h =
    let r = puncture_rounds-IsPunctured p 16 0 encoded 0 0 count (omega arith) (omega arith) in
    let (bits, num, count') = puncture p encoded count in
    subst (λ n. 8 ≤ n) (ap length (sym r.same_bits) ∙ length-bits_of num bits)
      (length-kept-le p count (bits_of 16 encoded) h refl)

pub select_bits-IsPunctured :
    (p : PunctT) (encoded count : ℕ)
    → count < get_pattern_len p
    → IsPunctured p 0 count (bits_of 16 encoded) [] (select_bits p encoded count)
      × (8 ≤ (select_bits p encoded count).1)
unfolding select_bits kept count_after bits_of
select_bits-IsPunctured unpunctured encoded zero h =
    (record { same_bits = refl; same_count = refl; few = omega arith }, omega arith)
select_bits-IsPunctured unpunctured encoded (suc count) h = absurd (omega arith)
select_bits-IsPunctured ecss_23 encoded count h = (
  puncture_rounds-IsPunctured ecss_23 16 0 encoded 0 0 count (omega arith) (omega arith),
  punctured-le ecss_23 encoded count h,
)
select_bits-IsPunctured ecss_34 encoded count h = (
  puncture_rounds-IsPunctured ecss_34 16 0 encoded 0 0 count (omega arith) (omega arith),
  punctured-le ecss_34 encoded count h,
)
select_bits-IsPunctured ecss_56 encoded count h = (
  puncture_rounds-IsPunctured ecss_56 16 0 encoded 0 0 count (omega arith) (omega arith),
  punctured-le ecss_56 encoded count h,
)
select_bits-IsPunctured ecss_78 encoded count h = (
  puncture_rounds-IsPunctured ecss_78 16 0 encoded 0 0 count (omega arith) (omega arith),
  punctured-le ecss_78 encoded count h,
)
