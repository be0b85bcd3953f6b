-- ===== src/ConvEncode/Stream.antt =====
-- The encoder over its calls: what it puts out, what its buffer holds and what the reference gives for the
-- input that it has not read.
use mathlib.Core.Path.{ap₂}
use gr_ccsds.Prelude.{
  ℕ, suc, ◌+◌, ◌-◌, ◌/◌, ◌%◌, ◌^◌, ◌≤◌, ◌<◌, ◌≡◌, refl, sym, ap, subst, ◌∙◌, ◌⊎◌, inl, inr, List,
  [], ◌∷◌, ◌++◌, append-nil, append_assoc, Text, All, IsByte, length, length-append, ltb-cases,
  arith,
}
use gr_ccsds.Prelude.BitLists.{bits_of, bits_in, length-bits_of, length-bits_in}
use gr_ccsds.ConvEncode.Defs.{
  PunctT, get_pattern_len, ConvEncode, encode, select_bits, encode_punct, Left, put_bytes,
  keep_bits,
}
use gr_ccsds.ConvEncode.Reference.{
  coded, memory_after, kept, count_after, coded-append, kept-append,
}
use gr_ccsds.ConvEncode.Bytes.{
  held, held-zero, IsFilled, held-upper, upper-IsFilled, put_bytes-IsCut,
}
use gr_ccsds.ConvEncode.Puncture.{select_bits-IsPunctured}
use gr_ccsds.ConvEncode.Registers.{memory, encode-coded}

pub record IsReady (e : ConvEncode) : Type 0 where
  pub filled : IsFilled e.buffer e.buffer_count
  pub few : e.buffer_count ≤ 15
  pub clean : e.state % 2 ^ 8 ≡ 0
  pub counted : e.punct_count < get_pattern_len e.code.punct_type

-- What the reference gives for bytes, from the memory and the place in the pattern that the encoder has.
abbrev pub ahead : ConvEncode → List ℕ → List ℕ
ahead e bits = kept e.code.punct_type e.punct_count (coded e.code (memory e.state) bits)

-- The bits that are still to be put out: those in the buffer, and those of the bytes not yet read.
abbrev pub pending : ConvEncode → Text → List ℕ
pending e s = held e.buffer e.buffer_count ++ ahead e (bits_in s)

pub record IsEncoded (e : ConvEncode) (b : ℕ) (e' : ConvEncode) (bits num : ℕ) : Type 0 where
  pub same_bits : bits_of num bits ≡ ahead e (bits_of 8 b)
  pub later : (xs : List ℕ) → ahead e (bits_of 8 b ++ xs) ≡ bits_of num bits ++ ahead e' xs
  pub ready : IsReady e'
  pub byte : 8 ≤ num
  pub two_bytes : num ≤ 16

count_after-lt :
    (p : PunctT) (count : ℕ) (xs : List ℕ)
    → count < get_pattern_len p
    → count_after p count xs < get_pattern_len p
unfolding count_after
count_after-lt p count [] h = h
count_after-lt p count (x ∷ xs) h =
    count_after-lt p ((count + 1) % get_pattern_len p) xs (omega arith)

encode_punct-IsEncoded :
    (e : ConvEncode) (b : ℕ)
    → IsReady e
    → IsByte b
    → let (e', bits, num) = encode_punct e b in IsEncoded e b e' bits num
unfolding encode_punct
encode_punct-IsEncoded e b h byte =
    let p = e.code.punct_type in
    let (out, state) = encode e.code e.state b in
    let (encoded, remembered, clean) = encode-coded e.code e.state b h.clean byte in
    let (punctured, enough) = select_bits-IsPunctured p out e.punct_count h.counted in
    let (bits, num, count) = select_bits p out e.punct_count in
    let e' = (encode_punct e b).0 in
    let same : bits_of num bits ≡ ahead e (bits_of 8 b) =
      punctured.same_bits ∙ ap (kept p e.punct_count) encoded in
    let moved : count ≡ count_after p e.punct_count (coded e.code (memory e.state) (bits_of 8 b)) =
      punctured.same_count ∙ ap (count_after p e.punct_count) encoded in
    record {
      same_bits = same;
      later = λ xs.
          ap (kept p e.punct_count) (coded-append e.code (memory e.state) (bits_of 8 b) xs)
          ∙ kept-append p e.punct_count (coded e.code (memory e.state) (bits_of 8 b))
              (coded e.code (memory_after (memory e.state) (bits_of 8 b)) xs)
          ∙ ap₂ ◌++◌ (sym same)
              (ap₂ (λ n m. kept p n (coded e.code m xs)) (sym moved) (sym remembered));
      ready = record {
        filled = h.filled;
        few = h.few;
        clean = clean;
        counted =
            subst (λ n. n < get_pattern_len p) (sym moved)
              (count_after-lt p e.punct_count _ h.counted);
      };
      byte = enough;
      two_bytes = omega (arith, punctured.few, length-bits_of 16 out);
    }

pub record IsKept (e : ConvEncode) (bits : ℕ) (left : Left) (e' : ConvEncode) : Type 0 where
  pub ready : IsReady e'
  pub same_bits :
      held e'.buffer e'.buffer_count
      ≡ held left.buffer left.buffer_count ++ bits_of left.num_bits_out bits
  pub smaller : e'.buffer_count ≤ left.buffer_count + left.num_bits_out
  pub same_ahead : (xs : List ℕ) → ahead e' xs ≡ ahead e xs

keep_bits-IsKept :
    (e : ConvEncode) (bits : ℕ) (left : Left)
    → IsReady e
    → IsFilled left.buffer left.buffer_count
    → left.buffer_count ≡ 0
    → left.num_bits_out ≤ 15
    → IsKept e bits left (keep_bits e bits left)
unfolding bits_of
keep_bits-IsKept e bits left h filled none_held few = elim (ltb-cases 0 left.num_bits_out) [
  | inl (test, some_left) ↦ rw test (record {
    ready = record {
      filled = upper-IsFilled bits left.num_bits_out (omega arith);
      few = few;
      clean = h.clean;
      counted = h.counted;
    };
    same_bits =
        held-upper bits left.num_bits_out (omega arith)
        ∙ ap (λ l. l ++ bits_of left.num_bits_out bits)
            (sym (ap (held left.buffer) none_held ∙ held-zero left.buffer));
    smaller = omega arith;
    same_ahead = λ xs. refl;
  })
  | inr (test, none_left) ↦ rw test (record {
    ready = record { filled = filled; few = omega arith; clean = h.clean; counted = h.counted };
    same_bits =
        let nothing : left.num_bits_out ≡ 0 = omega arith in
        sym (
          ap (λ n. held left.buffer left.buffer_count ++ bits_of n bits) nothing
          ∙ append-nil (held left.buffer left.buffer_count));
    smaller = omega arith;
    same_ahead = λ xs. refl;
  })
]

pub record IsWork (e : ConvEncode) (room : ℕ) (input : Text) (e' : ConvEncode) (out unread : Text)
    : Type 0 where
  pub ready : IsReady e'
  pub same_bits : bits_in out ++ pending e' unread ≡ pending e input
  pub bytes : All IsByte unread
  pub fits : length out ≤ room

-- One round of the outer loop.
pub round-IsKept :
    (e : ConvEncode) (room b : ℕ) (s : Text)
    → IsReady e
    → e.buffer_count ≤ 7
    → IsByte b
    → let (e1, bits, num) = encode_punct e b in
      let (out, left) = put_bytes (suc room) e.buffer e.buffer_count bits num in
      let e' = keep_bits e1 bits left in
      IsReady e'
      × (bits_in out ++ pending e' s ≡ pending e (b ∷ s))
      × (length out ≤ suc room)
      × ((length out ≡ suc room) ⊎ (e'.buffer_count ≤ 7))
      × (length out ≤ 2)
unfolding encode_punct
round-IsKept e room b s h few byte =
    let (e1, bits, num) = encode_punct e b in
    let coding = encode_punct-IsEncoded e b h byte in
    let cut =
      put_bytes-IsCut (suc room) e.buffer e.buffer_count bits num h.filled few coding.two_bytes in
    let (out, left) = put_bytes (suc room) e.buffer e.buffer_count bits num in
    let (none_held, fewer) = cut.emptied (omega arith) (omega (arith, coding.byte)) in
    let keeping =
      keep_bits-IsKept e1 bits left coding.ready cut.filled none_held
        (omega (arith, coding.two_bytes)) in
    (
      keeping.ready,
      ap (λ l. bits_in out ++ l) (ap₂ ◌++◌ keeping.same_bits (keeping.same_ahead (bits_in s)))
          ∙ sym (append_assoc (bits_in out) _ (ahead e1 (bits_in s)))
          ∙ ap (λ l. l ++ ahead e1 (bits_in s)) cut.same_bits
          ∙ append_assoc (held e.buffer e.buffer_count) (bits_of num bits) (ahead e1 (bits_in s))
          ∙ ap (λ l. held e.buffer e.buffer_count ++ l) (sym (coding.later (bits_in s))),
      cut.fits,
      elim cut.all_used [ inl all ↦ inl all | inr small ↦ inr (omega (arith, keeping.smaller)) ],
      omega (
        arith,
        ap length cut.same_bits,
        length-append (bits_in out)
            (held left.buffer left.buffer_count ++ bits_of left.num_bits_out bits),
        length-bits_in out,
        length-append (held e.buffer e.buffer_count) (bits_of num bits),
        length-bits_of e.buffer_count (e.buffer / 2 ^ (16 - e.buffer_count)),
        length-bits_of num bits,
        coding.two_bytes,
      ),
    )
