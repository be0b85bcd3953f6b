-- ===== src/ConvEncode/Complete.antt =====
-- The calls of general_work held against the reference of the code.
use gr_ccsds.Prelude.{
  ℕ, zero, suc, ◌-◌, ◌*◌, ◌≤◌, ◌<◌, ◌≡◌, refl, sym, ap, ◌∙◌, inl, inr, List, [], ◌∷◌, ◌++◌,
  append-nil, Text, All, IsByte, length, arith,
}
use gr_ccsds.Prelude.BitLists.{bits_of, bits_in}
use gr_ccsds.ConvEncode.Defs.{
  PunctT, unpunctured, ecss_23, ecss_34, ecss_56, ecss_78, get_pattern_len, make_code, ConvEncode,
  make, encode_punct, put_bytes, keep_bits, encode_bytes, general_work, run,
}
use gr_ccsds.ConvEncode.Reference.{coded, kept}
use gr_ccsds.ConvEncode.Bytes.{held, zero-IsFilled}
use gr_ccsds.ConvEncode.Registers.{registers}
use gr_ccsds.ConvEncode.Stream.{IsReady, ahead, pending, round-IsKept}
use gr_ccsds.ConvEncode.Work.{general_work-IsWork, run-IsWork}

make-IsReady : (c1 c2 : ℕ) (p : PunctT) → IsReady (make c1 c2 p)
make-IsReady c1 c2 p = record {
  filled = zero-IsFilled;
  few = omega arith;
  clean = refl;
  counted = pattern_some p;
}
  where
    pattern_some : (p : PunctT) → 0 < get_pattern_len p
    pattern_some unpunctured = omega arith
    pattern_some ecss_23 = omega arith
    pattern_some ecss_34 = omega arith
    pattern_some ecss_56 = omega arith
    pattern_some ecss_78 = omega arith

-- What the reference gives for bytes, from a memory of zeros and the start of the pattern.
abbrev pub reference : ℕ → ℕ → PunctT → Text → List ℕ
reference c1 c2 p s = kept p 0 (coded (make_code c1 c2 p) (0 ∷ 0 ∷ 0 ∷ 0 ∷ 0 ∷ 0 ∷ []) (bits_in s))

make-pending : (c1 c2 : ℕ) (p : PunctT) (s : Text) → pending (make c1 c2 p) s ≡ reference c1 c2 p s
unfolding bits_of registers
make-pending c1 c2 p s = refl

-- However the calls of a new encoder cut its output, with whatever room: the bits of the bytes that it put
-- out, then those that its buffer holds, and then those that the reference gives, from where the encoder
-- stands, for the bytes it has not read, are the bits that the reference gives for all bytes.
pub run-reference :
    (c1 c2 : ℕ) (p : PunctT) (rooms : List ℕ) (s : Text)
    → All IsByte s
    → let (e, out, unread) = run (make c1 c2 p) rooms s in
      bits_in out ++ (held e.buffer e.buffer_count ++ ahead e (bits_in unread))
      ≡ reference c1 c2 p s
run-reference c1 c2 p rooms s bytes =
    let (ready, same, _) = run-IsWork (make c1 c2 p) rooms s (make-IsReady c1 c2 p) bytes in
    same ∙ make-pending c1 c2 p s

encode_bytes-all :
    (e : ConvEncode) (room : ℕ) (s : Text)
    → IsReady e
    → e.buffer_count ≤ 7
    → All IsByte s
    → 2 * length s < room
    → let (e', out, unread) = encode_bytes e room s in (unread ≡ []) × (e'.buffer_count ≤ 7)
unfolding encode_bytes
encode_bytes-all e room [] h few bytes enough = (refl, few)
encode_bytes-all e zero (b ∷ s) h few bytes enough = absurd (omega arith)
encode_bytes-all e (suc room) (b ∷ s) h few (byte, bytes) enough =
    let (e1, bits, num) = encode_punct e b in
    let (out, left) = put_bytes (suc room) e.buffer e.buffer_count bits num in
    let e' = keep_bits e1 bits left in
    let (ready, same, fits, rest_few, short) = round-IsKept e room b s h few byte in
    let few' : e'.buffer_count ≤ 7 = elim rest_few [
      | inl all ↦ absurd (omega (arith, all))
      | inr le ↦ le
    ] in
    encode_bytes-all e' (suc room - length out) s ready few' bytes (omega arith)

-- One call of a new encoder with room for more than two bytes for each byte of the input reads all of it;
-- its output is then the bits of the reference, cut into bytes, and less than a byte stays in the buffer.
pub general_work_complete :
    (c1 c2 : ℕ) (p : PunctT) (room : ℕ) (s : Text)
    → All IsByte s
    → 2 * length s < room
    → let (e, out, unread) = general_work (make c1 c2 p) room s in
      (unread ≡ [])
      × (bits_in out ++ held e.buffer e.buffer_count ≡ reference c1 c2 p s)
      × (e.buffer_count ≤ 7)
unfolding general_work coded kept
general_work_complete c1 c2 p zero s bytes enough = absurd (omega arith)
general_work_complete c1 c2 p (suc room) s bytes enough =
    let ready = make-IsReady c1 c2 p in
    let (all, few) =
      encode_bytes-all (make c1 c2 p) (suc room) s ready (omega arith) bytes enough in
    let (e, out, unread) = general_work (make c1 c2 p) (suc room) s in
    let same = (general_work-IsWork (make c1 c2 p) (suc room) s ready bytes).same_bits in
    (
      all,
      ap (λ l. bits_in out ++ l) (sym (append-nil (held e.buffer e.buffer_count)))
          ∙ ap (λ u. bits_in out ++ pending e u) (sym all)
          ∙ same
          ∙ make-pending c1 c2 p s,
      few,
    )
