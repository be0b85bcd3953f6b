-- ===== src/ConvEncode/Work.antt =====
-- general_work and its calls in turn: nothing of the reference's bits is lost, doubled or moved.
use native.Mathlib.Nat.{mul_assoc, mul-div-mul_right as mul_div_mul}
use mathlib.Core.Path.{ap₂}
use gr_ccsds.Prelude.{
  ℕ, zero, suc, ◌+◌, ◌-◌, ◌*◌, ◌/◌, ◌%◌, ◌^◌, ◌≤◌, ◌≡◌, refl, sym, ap, subst, ◌∙◌, ◌⊎◌, inl, inr,
  List, [], ◌∷◌, ◌++◌, append-nil, append_assoc, Text, All, IsByte, length, length-append,
  ltb-cases, arith,
}
use gr_ccsds.Prelude.BitLists.{
  bits_of, bits_in, bits_in-append, pow-add, two_pow-pos, bits_of-split, bits_of-mod,
}
use gr_ccsds.ConvEncode.Defs.{
  ConvEncode, encode_punct, put_bytes, keep_bits, encode_bytes, general_work, run,
}
use gr_ccsds.ConvEncode.Bytes.{held, held-IsFilled, IsFilled, upper, held-upper, upper-IsFilled}
use gr_ccsds.ConvEncode.Stream.{IsReady, ahead, pending, IsWork, round-IsKept}

join-IsWork :
    {e e' e'' : ConvEncode} {room room' : ℕ} (input out unread rest left : Text)
    → bits_in out ++ pending e' unread ≡ pending e input
    → length out + room' ≤ room
    → IsWork e' room' unread e'' rest left
    → IsWork e room input e'' (out ++ rest) left
join-IsWork {e'' = e''} input out unread rest left same fits h = record {
  ready = h.ready;
  same_bits =
      ap (λ l. l ++ pending e'' left) (bits_in-append out rest)
      ∙ append_assoc (bits_in out) (bits_in rest) (pending e'' left)
      ∙ ap (λ l. bits_in out ++ l) h.same_bits
      ∙ same;
  bytes = h.bytes;
  fits = omega (arith, length-append out rest, h.fits);
}

idle-IsWork :
    (e : ConvEncode) (room : ℕ) (s : Text) → IsReady e → All IsByte s → IsWork e room s e [] s
idle-IsWork e room s h bytes = record {
  ready = h;
  same_bits = refl;
  bytes = bytes;
  fits = omega arith;
}

pub encode_bytes-IsWork :
    (e : ConvEncode) (room : ℕ) (s : Text)
    → IsReady e
    → (room ≡ 0) ⊎ (e.buffer_count ≤ 7)
    → All IsByte s
    → let (e', out, unread) = encode_bytes e room s in IsWork e room s e' out unread
unfolding encode_bytes
encode_bytes-IsWork e room [] h few bytes = idle-IsWork e room [] h bytes
encode_bytes-IsWork e zero (b ∷ s) h few bytes = idle-IsWork e 0 (b ∷ s) h bytes
encode_bytes-IsWork e (suc room) (b ∷ s) h few (byte, bytes) =
    let (e1, bits, num) = encode_punct e b in
    let (out, left) = put_bytes (suc room) e.buffer e.buffer_count bits num in
    let e' = keep_bits e1 bits left in
    let small : e.buffer_count ≤ 7 = elim few [ inl none ↦ absurd (omega arith) | inr le ↦ le ] in
    let (ready, same, fits, rest_few, _) = round-IsKept e room b s h small byte in
    let few' : (suc room - length out ≡ 0) ⊎ (e'.buffer_count ≤ 7) = elim rest_few [
      | inl all ↦ inl (omega arith)
      | inr le ↦ inr le
    ] in
    join-IsWork (b ∷ s) out s _ _ same (omega arith)
      (encode_bytes-IsWork e' (suc room - length out) s ready few' bytes)

-- The first byte of the buffer.
abbrev first_out : ConvEncode → ConvEncode
first_out e = record e { buffer = e.buffer * 2 ^ 8 % 2 ^ 16; buffer_count = e.buffer_count - 8 }

first_out-IsReady :
    (e : ConvEncode) (s : Text)
    → IsReady e
    → 8 ≤ e.buffer_count
    → IsReady (first_out e)
      × (bits_in (e.buffer / 2 ^ 8 % 2 ^ 8 ∷ []) ++ pending (first_out e) s ≡ pending e s)
first_out-IsReady e s h many =
    let v = h.filled.value in
    let n = e.buffer_count in
    let c = n - 8 in
    let whole : 8 + c ≡ n = omega arith in
    let width : 16 - n + 8 ≡ 16 - c = omega arith in
    let byte : c + (16 - n) ≡ 8 = omega (arith, h.few) in
    let shifted : e.buffer * 2 ^ 8 % 2 ^ 16 ≡ upper v c =
      ap (λ b. b * 2 ^ 8 % 2 ^ 16) h.filled.aligned
      ∙ ap (λ x. x % 2 ^ 16)
          (mul_assoc v (2 ^ (16 - n)) (2 ^ 8)
            ∙ ap (λ x. v * x) (sym (pow-add (16 - n) 8) ∙ ap (λ k. 2 ^ k) width)) in
    let front : e.buffer / 2 ^ 8 ≡ v / 2 ^ c =
      ap (λ b. b / 2 ^ 8) h.filled.aligned
      ∙ ap (λ x. v * 2 ^ (16 - n) / x) (ap (λ k. 2 ^ k) (sym byte) ∙ pow-add c (16 - n))
      ∙ mul_div_mul v (2 ^ c) (two_pow-pos (16 - n)) in
    let first_bits : bits_of 8 (e.buffer / 2 ^ 8 % 2 ^ 8) ≡ bits_of 8 (v / 2 ^ c) =
      bits_of-mod 8 8 (e.buffer / 2 ^ 8) (omega arith) ∙ ap (bits_of 8) front in
    let small : c ≤ 16 = omega (arith, h.few) in
    let rest_bits : held (e.buffer * 2 ^ 8 % 2 ^ 16) c ≡ bits_of c v =
      ap (λ b. held b c) shifted ∙ held-upper v c small in
    let parts : held e.buffer n ≡ bits_of 8 (v / 2 ^ c) ++ bits_of c v =
      held-IsFilled e.buffer n h.filled ∙ ap (λ k. bits_of k v) (sym whole) ∙ bits_of-split 8 c v in
    (
      record {
        filled = subst (λ b. IsFilled b c) (sym shifted) (upper-IsFilled v c small);
        few = omega (arith, h.few);
        clean = h.clean;
        counted = h.counted;
      },
      ap (λ l. l ++ pending (first_out e) s) (append-nil (bits_of 8 (e.buffer / 2 ^ 8 % 2 ^ 8)))
          ∙ ap₂ (λ l r. l ++ (r ++ ahead e (bits_in s))) first_bits rest_bits
          ∙ sym (append_assoc (bits_of 8 (v / 2 ^ c)) (bits_of c v) (ahead e (bits_in s)))
          ∙ ap (λ l. l ++ ahead e (bits_in s)) (sym parts),
    )

pub general_work-IsWork :
    (e : ConvEncode) (room : ℕ) (s : Text)
    → IsReady e
    → All IsByte s
    → let (e', out, unread) = general_work e room s in IsWork e room s e' out unread
unfolding general_work
general_work-IsWork e zero s h bytes = elim (ltb-cases e.buffer_count 8) [
  | inl (test, few) ↦ rw test (encode_bytes-IsWork e 0 s h (inl refl) bytes)
  | inr (test, many) ↦ rw test (idle-IsWork e 0 s h bytes)
]
general_work-IsWork e (suc room) s h bytes = elim (ltb-cases e.buffer_count 8) [
  | inl (test, few) ↦ rw test (encode_bytes-IsWork e (suc room) s h (inr (omega arith)) bytes)
  | inr (test, many) ↦
      let (ready, same) = first_out-IsReady e s h many in
      rw test (
        join-IsWork s (e.buffer / 2 ^ 8 % 2 ^ 8 ∷ []) s _ _ same (omega arith)
          (encode_bytes-IsWork (first_out e) room s ready (inr (omega (arith, h.few))) bytes))
]

pub run-IsWork :
    (e : ConvEncode) (rooms : List ℕ) (s : Text)
    → IsReady e
    → All IsByte s
    → let (e', out, unread) = run e rooms s in
      IsReady e' × (bits_in out ++ pending e' unread ≡ pending e s) × All IsByte unread
unfolding run
run-IsWork e [] s h bytes = (h, refl, bytes)
run-IsWork e (room ∷ rooms) s h bytes =
    let (e', out, unread) = general_work e room s in
    let one = general_work-IsWork e room s h bytes in
    let (e'', rest, left) = run e' rooms unread in
    let (ready, same, left_bytes) = run-IsWork e' rooms unread one.ready one.bytes in
    (
      ready,
      ap (λ l. l ++ pending e'' left) (bits_in-append out rest)
          ∙ append_assoc (bits_in out) (bits_in rest) (pending e'' left)
          ∙ ap (λ l. bits_in out ++ l) same
          ∙ one.same_bits,
      left_bytes,
    )
