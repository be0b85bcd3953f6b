-- ===== src/SortFrames/Ring.antt =====
-- The slots of the ring: where a frame stands, before and after the window moves.
use native.Mathlib.Nat.{mod-eq_of_lt, mod-eq-sub-mod, mod-lt}
use gr_ccsds.Prelude.{ℕ, ◌+◌, ◌-◌, ◌%◌, ◌≤◌, ◌<◌, ◌≡◌, ◌∙◌, ◌⊎◌, inl, inr, arith}
use gr_ccsds.SortFrames.Defs.{slot_index}

mod_once : (a w : ℕ) → w ≤ a → a < w + w → a % w ≡ a - w
mod_once a w le lt = mod-eq-sub-mod le ∙ mod-eq_of_lt (omega arith)

-- A frame stands before the current one's slot, or at the end of the ring.
slot_index-cases :
    (w o d : ℕ)
    → o < w
    → d ≤ w
    → ((d ≤ o) × (slot_index w o d ≡ o - d)) ⊎ ((o < d) × (slot_index w o d ≡ w + o - d))
unfolding slot_index
slot_index-cases w o d ho hd = elim (le_or_lt d o) [
  | inl h ↦ inl (h, mod_once (w + o - d) w (omega arith) (omega arith) ∙ omega arith)
  | inr h ↦ inr (h, mod-eq_of_lt (omega arith))
]
  where
    le_or_lt : (a b : ℕ) → (a ≤ b) ⊎ (b < a)
    le_or_lt a b = ground arith

pub slot_index-lt : (w o d : ℕ) → o < w → slot_index w o d < w
unfolding slot_index
slot_index-lt w o d ho = mod-lt (w + o - d) (omega arith)

-- Two frames of the window stand in different slots.
pub slot_index-injective :
    (w o d e : ℕ) → o < w → d < w → e < w → slot_index w o d ≡ slot_index w o e → d ≡ e
slot_index-injective w o d e ho hd he same = elim (slot_index-cases w o d ho (omega arith)) [
  | inl (a, p) ↦ elim (slot_index-cases w o e ho (omega arith)) [
    | inl (b, q) ↦ omega arith
    | inr (b, q) ↦ omega arith
  ]
  | inr (a, p) ↦ elim (slot_index-cases w o e ho (omega arith)) [
    | inl (b, q) ↦ omega arith
    | inr (b, q) ↦ omega arith
  ]
]

next_offset-cases :
    (w o : ℕ) → o < w → ((o + 1 < w) × ((o + 1) % w ≡ o + 1)) ⊎ ((o + 1 ≡ w) × ((o + 1) % w ≡ 0))
next_offset-cases w o ho = elim (lt_or_eq (o + 1) w (omega arith)) [
  | inl h ↦ inl (h, mod-eq_of_lt h)
  | inr h ↦ inr (h, mod_once (o + 1) w (omega arith) (omega arith) ∙ omega arith)
]
  where
    lt_or_eq : (a b : ℕ) → a ≤ b → (a < b) ⊎ (a ≡ b)
    lt_or_eq a b h = ground arith

pub next_offset-lt : (w o : ℕ) → o < w → (o + 1) % w < w
next_offset-lt w o ho = mod-lt (o + 1) (omega arith)

-- When the window moves, a frame in it keeps its slot.
pub slot_index_next :
    (w o d : ℕ) → o < w → d + 1 ≤ w → slot_index w ((o + 1) % w) (d + 1) ≡ slot_index w o d
slot_index_next w o d ho hd = elim (next_offset-cases w o ho) [
  | inl (a, p) ↦ rw p (elim (slot_index-cases w (o + 1) (d + 1) a hd) [
    | inl (b, q) ↦ elim (slot_index-cases w o d ho (omega arith)) [
      | inl (c, r) ↦ omega arith
      | inr (c, r) ↦ omega arith
    ]
    | inr (b, q) ↦ elim (slot_index-cases w o d ho (omega arith)) [
      | inl (c, r) ↦ omega arith
      | inr (c, r) ↦ omega arith
    ]
  ])
  | inr (a, p) ↦ rw p (elim (slot_index-cases w 0 (d + 1) (omega arith) hd) [
    | inl (b, q) ↦ elim (slot_index-cases w o d ho (omega arith)) [
      | inl (c, r) ↦ omega arith
      | inr (c, r) ↦ omega arith
    ]
    | inr (b, q) ↦ elim (slot_index-cases w o d ho (omega arith)) [
      | inl (c, r) ↦ omega arith
      | inr (c, r) ↦ omega arith
    ]
  ])
]

-- The current frame stands at the offset.
pub slot_index_current : (w o : ℕ) → o < w → slot_index w o 0 ≡ o
slot_index_current w o ho = elim (slot_index-cases w o 0 ho (omega arith)) [
  | inl (a, p) ↦ omega arith
  | inr (a, p) ↦ omega arith
]

-- So does, by the same computation, a frame that is a whole window before it.
pub slot_index_window : (w o : ℕ) → o < w → slot_index w o w ≡ o
slot_index_window w o ho = elim (slot_index-cases w o w ho (omega arith)) [
  | inl (a, p) ↦ omega arith
  | inr (a, p) ↦ omega arith
]
