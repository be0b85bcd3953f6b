-- ===== src/Crc16/Laws.antt =====
-- What the receiver may rely on: a frame made by `gen_and_append_crc16` passes, and no other does.
use gr_ccsds.Prelude.{
  ℕ, ◌+◌, ◌-◌, ◌*◌, ◌/◌, ◌%◌, ◌≤◌, ◌<◌, ◌≡◌, refl, ap, sym, ◌∙◌, ◌↔◌, Bool, true, false, [], ◌∷◌,
  ◌++◌, Text, IsByte, All, All-drop, ok, ◌>>=◌, length, length-append, take, drop, take-append-drop,
  length-drop, arith, ltb, ◌==◌, ==_iff, lt→ltb,
}
use gr_ccsds.Prelude.Int.{ℤ, pos}
use mathlib.Core.Logic.{◌⊎◌, inl, inr}
use mathlib.Core.Path.{ap₂, subst}
use native.Mathlib.Decide.{dec_lt}
use gr_ccsds.Crc16.Defs.{
  low_word, pack_word, unpack_word, all_but_two, last_two, gen_and_append_crc16, check_crc16,
}

-- What the documentation says of the two functions that are not code of the repository: the
-- checksum has 16 bits, and `hexint` returns a mask below 2^31 as it is.
pub record IsDocumented (crc16 : Text → ℕ) (hexint : ℕ → ℤ) : Type 0 where
  pub word : (s : Text) → crc16 s < 65536
  pub small_mask : (n : ℕ) → n < 2147483648 → hexint n ≡ pos n

take-length-append : (s t : Text) → take (length s) (s ++ t) ≡ s
take-length-append [] t = refl
take-length-append (c ∷ s) t = ap (λ r. c ∷ r) (take-length-append s t)

drop-length-append : (s t : Text) → drop (length s) (s ++ t) ≡ t
drop-length-append [] t = refl
drop-length-append (c ∷ s) t = drop-length-append s t

-- The two slices of a text that ends in two bytes.
all_but_two-append : (s : Text) (a b : ℕ) → all_but_two (s ++ a ∷ b ∷ []) ≡ s
all_but_two-append s a b =
    let e : length (s ++ a ∷ b ∷ []) - 2 ≡ length s = omega (arith, length-append s (a ∷ b ∷ [])) in
    ap (λ n. take n (s ++ a ∷ b ∷ [])) e ∙ take-length-append s _

last_two-append : (s : Text) (a b : ℕ) → last_two (s ++ a ∷ b ∷ []) ≡ a ∷ b ∷ []
last_two-append s a b =
    let e : length (s ++ a ∷ b ∷ []) - 2 ≡ length s = omega (arith, length-append s (a ∷ b ∷ [])) in
    ap (λ n. drop n (s ++ a ∷ b ∷ [])) e ∙ drop-length-append s _

-- A text that `check_crc16` does not refuse for its length ends in two bytes.
two_of_length : (t : Text) → length t ≡ 2 → (a : ℕ) × (b : ℕ) × (t ≡ a ∷ b ∷ [])
two_of_length [] h = absurd (omega arith)
two_of_length (a ∷ []) h = absurd (omega arith)
two_of_length (a ∷ b ∷ []) h = (a, b, refl)
two_of_length (a ∷ b ∷ c ∷ t) h = absurd (omega arith)

split_two : (s : Text) → 2 ≤ length s → (a : ℕ) × (b : ℕ) × (s ≡ all_but_two s ++ a ∷ b ∷ [])
split_two s h =
    let (a, b, e) = two_of_length (last_two s) (length-drop (length s - 2) s ∙ omega arith) in
    (a, b, sym (take-append-drop (length s - 2) s) ∙ ap (λ t. all_but_two s ++ t) e)

-- The check of a text that ends in two bytes compares the checksum of the rest with their value.
module _ (crc16 : Text → ℕ) where
  check_crc16-append :
      (s : Text) (a b : ℕ) → check_crc16 crc16 (s ++ a ∷ b ∷ []) ≡ ok (crc16 s == a * 256 + b, s)
  unfolding check_crc16 unpack_word
  check_crc16-append s a b =
      let long : ltb (length (s ++ a ∷ b ∷ [])) 2 ≡ false =
        ground (arith, length-append s (a ∷ b ∷ [])) in
      rw (long, all_but_two-append s a b, last_two-append s a b)

  check_crc16_short : (s : Text) → length s < 2 → check_crc16 crc16 s ≡ ok (false, [])
  unfolding check_crc16
  check_crc16_short s h = ground arith

  -- `check_crc16` raises for no input: a text with fewer than two bytes is answered by
  -- (False, ''), and any other by a Boolean and the text without its last two bytes.
  pub check_crc16_total :
      (s : Text)
      → ((length s < 2) × (check_crc16 crc16 s ≡ ok (false, [])))
        ⊎ ((2 ≤ length s) × (valid : Bool) × (check_crc16 crc16 s ≡ ok (valid, all_but_two s)))
  check_crc16_total s = elim (dec_lt (length s) 2) [
    | yes h ↦ inl (h, check_crc16_short s h)
    | no h ↦
        let (a, b, e) = split_two s (omega arith) in
        inr (
          omega arith,
          crc16 (all_but_two s) == a * 256 + b,
          ap (check_crc16 crc16) e ∙ check_crc16-append (all_but_two s) a b,
        )
  ]

  module _ (hexint : ℕ → ℤ) (doc : IsDocumented crc16 hexint) where
    -- Under the documented behaviour the two bytes are those of the checksum.
    gen_crc16_lem :
        (s : Text)
        → gen_and_append_crc16 crc16 hexint s ≡ ok (s ++ (crc16 s / 256) ∷ (crc16 s % 256) ∷ [])
    unfolding gen_and_append_crc16 pack_word low_word
    gen_crc16_lem s =
        let fits : crc16 s < 65536 = doc.word s in
        let small : crc16 s % 65536 ≡ crc16 s = omega arith in
        let short : ltb (crc16 s) 65536 ≡ true = lt→ltb _ _ fits in
        rw (doc.small_mask (crc16 s) (omega arith)) (rw small (rw short refl))

    -- Under the documented behaviour of `crc16` and `hexint`: a text to which the sender appended the
    -- checksum is accepted, and comes back as it was.
    pub check-gen_crc16 :
        (s : Text) → (gen_and_append_crc16 crc16 hexint s >>= check_crc16 crc16) ≡ ok (true, s)
    check-gen_crc16 s =
        let exact : (crc16 s == crc16 s / 256 * 256 + crc16 s % 256) ≡ true = ground arith in
        rw (gen_crc16_lem s)
          (check_crc16-append s (crc16 s / 256) (crc16 s % 256) ∙ ap (λ b. ok (b, s)) exact)

    -- The two bytes of a text whose checksum they spell are the ones that the sender appends.
    gen_of_value :
        (m : Text) (a b : ℕ)
        → a < 256
        → b < 256
        → crc16 m ≡ a * 256 + b
        → gen_and_append_crc16 crc16 hexint m ≡ ok (m ++ a ∷ b ∷ [])
    gen_of_value m a b ha hb e =
        let high : crc16 m / 256 ≡ a = omega arith in
        let low : crc16 m % 256 ≡ b = omega arith in
        gen_crc16_lem m ∙ ap₂ (λ (x y : ℕ). ok (m ++ x ∷ y ∷ [])) high low

    accepted :
        (s m : Text)
        → 2 ≤ length s
        → All IsByte s
        → check_crc16 crc16 s ≡ ok (true, m)
        → gen_and_append_crc16 crc16 hexint m ≡ ok s
    accepted s m long bytes h =
        let (a, b, e) = two_of_length (last_two s) (length-drop (length s - 2) s ∙ omega arith) in
        let both : All IsByte (a ∷ b ∷ []) = subst (All IsByte) e (All-drop IsByte _ s bytes) in
        let whole : s ≡ all_but_two s ++ a ∷ b ∷ [] =
          sym (take-append-drop (length s - 2) s) ∙ ap (λ t. all_but_two s ++ t) e in
        let result =
          sym (check_crc16-append (all_but_two s) a b) ∙ sym (ap (check_crc16 crc16) whole) ∙ h in
        let same : all_but_two s ≡ m = cc result in
        let valid : (crc16 (all_but_two s) == a * 256 + b) ≡ true = cc result in
        let value : crc16 m ≡ a * 256 + b = sym (ap crc16 same) ∙ (==_iff _ _).0 valid in
        gen_of_value m a b both.0 both.1.0 value
        ∙ ap ok (ap (λ t. t ++ a ∷ b ∷ []) (sym same) ∙ sym whole)

    -- Under the documented behaviour of `crc16` and `hexint`: of the texts of bytes the receiver
    -- accepts exactly those that the sender makes; `s` is accepted with the message `m` when, and
    -- only when, `s` is `m` with its checksum.
    pub check_crc16_iff :
        (s m : Text)
        → All IsByte s
        → (check_crc16 crc16 s ≡ ok (true, m)) ↔ (gen_and_append_crc16 crc16 hexint m ≡ ok s)
    check_crc16_iff s m bytes = (
      λ h. elim (dec_lt (length s) 2) [
        | yes short ↦ cc (check_crc16_short s short)
        | no long ↦ accepted s m (omega arith) bytes h
      ],
      λ h. rw h at (check-gen_crc16 m),
    )
