-- ===== src/FrameSync/Count.antt =====
-- `rx_callback` of python/bpsk_frame_sync.py: the frames received, and those whose first two bytes are
-- the number 16912.
use mathlib.Core.Path.{ap₂}
use gr_ccsds.Prelude.{
  ℕ, ◌+◌, ◌*◌, ◌≤◌, ◌≡◌, ◌∙◌, List, [], ◌∷◌, Text, All, IsByte, Result, ok, err, struct_error,
  ◌>>=◌, take, length, starts_with, ◌==◌, if◌then◌else◌, arith,
}

pub record Counts : Type 0 where
  pub n_rcvd : ℕ
  pub n_right : ℕ

-- As `main` sets them.
abbrev pub initial_counts : Counts
initial_counts = record { n_rcvd = 0; n_right = 0 }

-- struct.unpack('!H', s)
unfoldable pub unpack_number : Text → Result ℕ
unpack_number (a ∷ b ∷ []) = ok (a * 256 + b)
unpack_number _ = err struct_error

-- The two counters, for the number of a frame.
unfoldable pub count_frame : ℕ → Counts → Counts
count_frame pktno c = record {
  n_rcvd = c.n_rcvd + 1;
  n_right = if pktno == 16912 then c.n_right + 1 else c.n_right;
}

-- rx_callback(ok, payload)
unfoldable pub count_payload : Text → Counts → Result Counts
count_payload payload c = do pktno ← unpack_number (take 2 payload); ok (count_frame pktno c)

-- The callback for each payload in turn, as the thread of the queue calls it.
unfoldable pub count_payloads : List Text → Counts → Result Counts
count_payloads [] c = ok c
count_payloads (payload ∷ rest) c = do c' ← count_payload payload c; count_payloads rest c'

-- The payloads that begin with the bytes 0x42 and 0x10.
unfoldable pub right_ones : List Text → ℕ
right_ones [] = 0
right_ones (p ∷ ps) = (if starts_with p (0x42 ∷ 0x10 ∷ []) then 1 else 0) + right_ones ps

abbrev pub IsFrame : Text → Type 0
IsFrame p = (2 ≤ length p) × All IsByte p

count_payload_lem :
    (p : Text) (c : Counts)
    → IsFrame p
    → count_payload p c
      ≡ ok (record {
        n_rcvd = c.n_rcvd + 1;
        n_right = c.n_right + (if starts_with p (0x42 ∷ 0x10 ∷ []) then 1 else 0);
      })
unfolding count_payload unpack_number count_frame
count_payload_lem [] c h = absurd (omega arith)
count_payload_lem (a ∷ []) c h = absurd (omega arith)
count_payload_lem (a ∷ b ∷ p) c h = let (_, (ha, (hb, _))) = h in ground arith

abbrev pub counted : ℕ → ℕ → Result Counts
counted received right = ok (record { n_rcvd = received; n_right = right })

-- The callback accepts any frames of at least two bytes; it counts each of them, and separately those
-- that begin with the bytes 0x42 and 0x10.
pub count_payloads_lem :
    (ps : List Text) (c : Counts)
    → All IsFrame ps
    → count_payloads ps c
      ≡ ok (record { n_rcvd = c.n_rcvd + length ps; n_right = c.n_right + right_ones ps })
unfolding count_payloads right_ones
count_payloads_lem [] c h = ap₂ counted (omega arith) (omega arith)
count_payloads_lem (p ∷ ps) c h =
    rw (count_payload_lem p c h.0)
      (count_payloads_lem ps _ h.1 ∙ ap₂ counted (omega arith) (omega arith))
