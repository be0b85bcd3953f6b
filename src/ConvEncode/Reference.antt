-- ===== src/ConvEncode/Reference.antt =====
-- The convolutional code as its standard describes it, on a stream of single bits: what the encoder is
-- held against.
use gr_ccsds.Prelude.{
  ℕ, zero, suc, ◌+◌, ◌*◌, ◌%◌, ◌≤◌, ◌<◌, ◌≡◌, refl, ap, subst, sym, ◌⊎◌, inl, inr, ◌∙◌, Bool, true,
  false, ◌&&◌, &&-eq-true, List, [], ◌∷◌, ◌++◌, take, length, get_or, leb, leb→le, if◌then◌else◌,
  arith,
}
use gr_ccsds.Prelude.BitLists.{bits_of}
use gr_ccsds.ConvEncode.Defs.{
  PunctT, unpunctured, ecss_23, ecss_34, ecss_56, ecss_78, get_pattern, get_pattern_len, Code,
}

abbrev pub dot : List ℕ → List ℕ → ℕ
dot [] ws = 0
dot (p ∷ ps) [] = 0
dot (p ∷ ps) (w ∷ ws) = p * w + dot ps ws

-- One output for the current bit and the six before it, the newest first: the sum of those that the
-- polynomial takes, modulo two, turned around if it is to be inverted.
abbrev pub coded_bit : Bool → ℕ → List ℕ → ℕ
coded_bit invert poly window = ((if invert then 1 else 0) + dot (bits_of 7 poly) window) % 2

-- Two output bits for each bit, behind the bits of the memory.
unfoldable pub coded : Code → List ℕ → List ℕ → List ℕ
coded c memory [] = []
coded c memory (x ∷ xs) =
    coded_bit c.invert_c1 c.poly_c1 (x ∷ memory)
    ∷ coded_bit c.invert_c2 c.poly_c2 (x ∷ memory)
    ∷ coded c (take 6 (x ∷ memory)) xs

unfoldable pub memory_after : List ℕ → List ℕ → List ℕ
memory_after memory [] = memory
memory_after memory (x ∷ xs) = memory_after (take 6 (x ∷ memory)) xs

-- The bits that the pattern keeps, from its place `count` on.
unfoldable pub kept : PunctT → ℕ → List ℕ → List ℕ
kept p count [] = []
kept p count (x ∷ xs) =
    let rest = kept p ((count + 1) % get_pattern_len p) xs in
    if get_or (get_pattern p) count false then x ∷ rest else rest

unfoldable pub count_after : PunctT → ℕ → List ℕ → ℕ
count_after p count [] = count
count_after p count (x ∷ xs) = count_after p ((count + 1) % get_pattern_len p) xs

pub kept-true :
    (p : PunctT) (count x : ℕ) (xs : List ℕ)
    → get_or (get_pattern p) count false ≡ true
    → kept p count (x ∷ xs) ≡ x ∷ kept p ((count + 1) % get_pattern_len p) xs
unfolding kept
kept-true p count x xs h = rw h refl

pub kept-false :
    (p : PunctT) (count x : ℕ) (xs : List ℕ)
    → get_or (get_pattern p) count false ≡ false
    → kept p count (x ∷ xs) ≡ kept p ((count + 1) % get_pattern_len p) xs
unfolding kept
kept-false p count x xs h = rw h refl

pub coded-append :
    (c : Code) (memory xs ys : List ℕ)
    → coded c memory (xs ++ ys) ≡ coded c memory xs ++ coded c (memory_after memory xs) ys
unfolding coded memory_after
coded-append c memory [] ys = refl
coded-append c memory (x ∷ xs) ys =
    ap
      (λ l.
        coded_bit c.invert_c1 c.poly_c1 (x ∷ memory)
        ∷ coded_bit c.invert_c2 c.poly_c2 (x ∷ memory)
        ∷ l)
      (coded-append c (take 6 (x ∷ memory)) xs ys)

pub kept-append :
    (p : PunctT) (count : ℕ) (xs ys : List ℕ)
    → kept p count (xs ++ ys) ≡ kept p count xs ++ kept p (count_after p count xs) ys
unfolding kept count_after
kept-append p count [] ys = refl
kept-append p count (x ∷ xs) ys =
    elim (get_or (get_pattern p) count false)
      as (λ (b : Bool).
        (if b
          then x ∷ kept p ((count + 1) % get_pattern_len p) (xs ++ ys)
          else kept p ((count + 1) % get_pattern_len p) (xs ++ ys))
        ≡ (if b
            then x ∷ kept p ((count + 1) % get_pattern_len p) xs
            else kept p ((count + 1) % get_pattern_len p) xs)
          ++ kept p (count_after p ((count + 1) % get_pattern_len p) xs) ys) [
            | true ↦ ap (λ l. x ∷ l) (kept-append p ((count + 1) % get_pattern_len p) xs ys)
            | false ↦ kept-append p ((count + 1) % get_pattern_len p) xs ys
          ]

-- How many of `n` bits are kept.
unfoldable num_kept : PunctT → ℕ → ℕ → ℕ
num_kept p count zero = 0
num_kept p count (suc n) =
    let rest = num_kept p ((count + 1) % get_pattern_len p) n in
    if get_or (get_pattern p) count false then suc rest else rest

length-kept :
    (p : PunctT) (count : ℕ) (xs : List ℕ) → length (kept p count xs) ≡ num_kept p count (length xs)
unfolding kept num_kept
length-kept p count [] = refl
length-kept p count (x ∷ xs) =
    elim (get_or (get_pattern p) count false)
      as (λ (b : Bool).
        length (
          if b
          then x ∷ kept p ((count + 1) % get_pattern_len p) xs
          else kept p ((count + 1) % get_pattern_len p) xs)
        ≡ (if b
            then suc (num_kept p ((count + 1) % get_pattern_len p) (length xs))
            else num_kept p ((count + 1) % get_pattern_len p) (length xs))) [
              | true ↦ ap suc (length-kept p ((count + 1) % get_pattern_len p) xs)
              | false ↦ length-kept p ((count + 1) % get_pattern_len p) xs
            ]

-- The test of every place below `n`.
unfoldable keeps_byte : PunctT → ℕ → Bool
keeps_byte p zero = true
keeps_byte p (suc n) = leb 8 (num_kept p n 16) && keeps_byte p n

keeps_byte_sound :
    (p : PunctT) (n count : ℕ) → keeps_byte p n ≡ true → count < n → 8 ≤ num_kept p count 16
unfolding keeps_byte
keeps_byte_sound p zero count h lt = absurd (omega arith)
keeps_byte_sound p (suc n) count h lt =
    let (here, below) = &&-eq-true (leb 8 (num_kept p n 16)) (keeps_byte p n) h in
    elim (same_or_below count n lt) [
      | inl e ↦ subst (λ m. 8 ≤ num_kept p m 16) (sym e) (leb→le 8 (num_kept p n 16) here)
      | inr less ↦ keeps_byte_sound p n count below less
    ]
  where
    same_or_below : (m n : ℕ) → m < suc n → (m ≡ n) ⊎ (m < n)
    same_or_below m n h = ground arith

all_keep_byte : (p : PunctT) → keeps_byte p (get_pattern_len p) ≡ true
unfolding keeps_byte num_kept
all_keep_byte unpunctured = refl
all_keep_byte ecss_23 = refl
all_keep_byte ecss_34 = refl
all_keep_byte ecss_56 = refl
all_keep_byte ecss_78 = refl

-- Of 16 bits each pattern keeps at least eight, wherever it stands.
pub length-kept-le :
    (p : PunctT) (count : ℕ) (xs : List ℕ)
    → count < get_pattern_len p
    → length xs ≡ 16
    → 8 ≤ length (kept p count xs)
length-kept-le p count xs h e =
    subst (λ n. 8 ≤ n) (ap (num_kept p count) (sym e) ∙ sym (length-kept p count xs))
      (keeps_byte_sound p (get_pattern_len p) count (all_keep_byte p) h)
