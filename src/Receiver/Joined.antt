-- ===== src/Receiver/Joined.antt =====
-- How the stages are joined: every queue is filled by one block and read once, and every stage is made
-- with the sizes that the options and the stages before it say.
use gr_ccsds.Prelude.{
  subst, sym, ◌+◌, ◌<◌, ◌≡◌, inl, inr, refl, ◌∙◌, Option, none, some, Bool, true, false, ◌||◌, List,
  [], ◌∷◌, ◌++◌, append-nil, Text, Result, ok, arith, Bool-cases, if◌then◌else◌,
}
use gr_ccsds.Prelude.Int.{ℤ, pos, ◌-ℤ◌}
use gr_ccsds.BitText.Defs.{hexstr2int}
use gr_ccsds.Receiver.Flow.{Queue, Flow, >>=-run}
use gr_ccsds.Receiver.Marker.{Options, Encoder, marker_of, floor_div}
use gr_ccsds.Receiver.Blocks.{vit27_decode, pdr, reed_solomon}
use gr_ccsds.Receiver.ReceivePath.{
  no_frame_sync, with_frame_sync, optional, path_given, record_frames, consume, receive_path,
}
use gr_ccsds.Receiver.Queues.{
  writers, readers, one_if, message_sizes, writers_last, readers_last, sizes_last, Pending, Gives,
}
use gr_ccsds.Receiver.Stages.{
  Untouched, pdr-Pending, reed_solomon-Pending, vit27_decode-Pending, no_frame_sync-Pending,
  with_frame_sync-Pending, optional-Pending,
}

-- Every queue is filled by one block and read once: by one block, or by the watcher.
abbrev pub OneToOne : Flow → Type 0
OneToOne w =
    (j : Queue)
    → j < w.queues
    → (writers j w.blocks ≡ 1) × (readers j w.blocks + one_if w.watched j ≡ 1)

-- What the finished graph is: its queues are joined, and its stages have the sizes `ds`.
abbrev pub Joined : List ℤ → ℤ → Result (Unit {0} × Flow) → Type 0
Joined ds n r =
    (w : Flow) × (r ≡ ok (tt, w))
    × OneToOne w
    × (message_sizes w.blocks ≡ ds)
    × (w.message_bits ≡ n)

record_frames-Joined :
    (ds : List ℤ) (n : ℤ) (path : Option Text) (q : Queue) (w : Flow)
    → Pending ds n q w
    → Joined ds n (record_frames path q w)
unfolding record_frames
record_frames-Joined ds n path q w p = (
  _,
  refl,
  (λ j h. (
    simp writers_last (ground (arith, p.filled j)),
    simp readers_last (rw p.unwatched (ground (arith, p.drained j))),
  )),
  simp (sizes_last, append-nil, p.sizes),
  p.bits,
)

consume-Joined :
    (ds : List ℤ) (n : ℤ) (o : Options) (q : Queue) (w : Flow)
    → (o.inspect_queue || path_given o.to_file) ≡ true
    → Pending ds n q w
    → Joined ds n (consume o q w)
unfolding consume
consume-Joined ds n o q w given p = elim (Bool-cases o.inspect_queue) [
  | inl e ↦ (
    record w { watched = some q },
    rw e refl,
    (λ j h. (ground (arith, p.filled j), ground (arith, p.drained j))),
    p.sizes,
    p.bits,
  )
  | inr e ↦
      let path : path_given o.to_file ≡ true = ground arith in
      rw (e, path) (record_frames-Joined ds n o.to_file q w p)
]

-- The flow graph before the receive path is made.
abbrev pub untouched : ℤ → Flow
untouched bits = record { queues = 0; blocks = []; edges = []; watched = none; message_bits = bits }

untouched-Untouched : (n : ℤ) → Untouched n (untouched n)
unfolding writers readers message_sizes
untouched-Untouched n = record {
  no_sizes = refl;
  bits = refl;
  unwatched = refl;
  none_made = refl;
  none_filled = λ j. refl;
  none_read = λ j. refl;
}

-- The size of a message behind the Viterbi decoder, which halves the number of symbols.
abbrev pub decoded_bits : Options → ℤ → ℤ
decoded_bits o n = if o.viterbi27 then floor_div n 2 else n

-- The sizes of the stages that are turned on: frame sync, Viterbi decoder, de-randomiser, Reed-Solomon
-- decoder.
abbrev pub sync_sizes : Options → List ℤ
sync_sizes o = if o.frame_sync then o.frame_syms ∷ o.asm_syms ∷ [] else []

abbrev pub viterbi_sizes : Options → ℤ → List ℤ
viterbi_sizes o code = if o.viterbi27 then o.frame_syms ∷ code ∷ pos o.code_length ∷ [] else []

abbrev pub stage_sizes : Options → ℤ → ℤ → List ℤ
stage_sizes o code n =
    ((sync_sizes o ++ viterbi_sizes o code) ++ (if o.derandomise then n ∷ [] else []))
    ++ (if o.reed_solomon then n ∷ [] else [])

same_if : (b : Bool) (n : ℤ) → (if b then n else n) ≡ n
same_if true n = refl
same_if false n = refl

first_stage :
    (encode : Encoder) (o : Options) (n : ℤ) (m : Text × ℤ) (b : Bool)
    → (b ≡ true → marker_of encode o ≡ ok m)
    → Gives
        (if b then o.frame_syms ∷ o.asm_syms ∷ [] else [])
        n
        ((if b then with_frame_sync encode o else no_frame_sync) (untouched n))
first_stage encode o n m true hm =
    with_frame_sync-Pending n encode o m (untouched n) (hm refl) (untouched-Untouched n)
first_stage encode o n m false hm = no_frame_sync-Pending n (untouched n) (untouched-Untouched n)

-- The size of a message behind all stages.
abbrev pub last_bits : Options → ℤ → ℤ
last_bits o n = if o.reed_solomon then decoded_bits o n -ℤ pos 1280 else decoded_bits o n

-- The stages leave one queue that is not read yet, and the rest of the receive path is made for it.
stages-Pending :
    (encode : Encoder) (o : Options) (n : ℤ) (m : Text × ℤ) (code : ℤ)
    → (o.frame_sync ≡ true → marker_of encode o ≡ ok m)
    → (o.viterbi27 ≡ true → hexstr2int o.access_code ≡ ok code)
    → (q : Queue) × (w : Flow) × (receive_path encode o (untouched n) ≡ consume o q w)
      × Pending (stage_sizes o code (decoded_bits o n)) (last_bits o n) q w
unfolding receive_path
stages-Pending encode o n m code hm hc =
    let k = decoded_bits o n in
    let s₀ = sync_sizes o in
    let s₁ = s₀ ++ viterbi_sizes o code in
    let s₂ : List ℤ = s₁ ++ (if o.derandomise then k ∷ [] else []) in
    let (q₀, w₀, e₀, p₀) = first_stage encode o n m o.frame_sync hm in
    let (q₁, w₁, e₁, p₁) =
      optional-Pending s₀ (o.frame_syms ∷ code ∷ pos o.code_length ∷ []) n (floor_div n 2)
        (vit27_decode o) q₀ w₀ o.viterbi27 (λ t. vit27_decode-Pending s₀ n o code q₀ w₀ (hc t) p₀)
        p₀ in
    let (q₂, w₂, e₂, p₂) =
      optional-Pending s₁ (k ∷ []) k k (pdr o) q₁ w₁ o.derandomise
        (λ _. pdr-Pending s₁ k o q₁ w₁ p₁) p₁ in
    let pending = subst (λ b. Pending s₂ b q₂ w₂) (same_if o.derandomise k) p₂ in
    let (q₃, w₃, e₃, p₃) =
      optional-Pending s₂ (k ∷ []) k (k -ℤ pos 1280) (reed_solomon o) q₂ w₂ o.reed_solomon
        (λ _. reed_solomon-Pending s₂ k o q₂ w₂ pending) pending in
    (
      q₃,
      w₃,
      >>=-run (if o.frame_sync then with_frame_sync encode o else no_frame_sync) _ (untouched n) e₀
          ∙ >>=-run (optional o.viterbi27 (vit27_decode o) q₀) _ w₀ e₁
          ∙ >>=-run (optional o.derandomise (pdr o) q₁) _ w₁ e₂
          ∙ >>=-run (optional o.reed_solomon (reed_solomon o) q₂) _ w₂ e₃,
      p₃,
    )

-- For every choice of stages, when the sync marker can be read (with the frame sync on), the access code
-- is a hexadecimal number `code` (with the Viterbi decoder on), and the frames have a place to go (the
-- monitor, or a file whose path is not empty): the receive path is built without an exception; each of
-- its queues is filled by one block and read once; the sizes that its stages are made with are, in
-- their order, the symbols of a frame and of a marker for the frame sync, the symbols of a frame, the
-- access code and its length in bits for the Viterbi decoder, and for the de-randomiser and the
-- Reed-Solomon decoder the bits of a message, halved if the Viterbi decoder is on; and
-- `message_bits` ends as that number, less 1280 behind a Reed-Solomon decoder.
pub receive_path-Joined :
    (encode : Encoder) (o : Options) (n : ℤ) (m : Text × ℤ) (code : ℤ)
    → (o.frame_sync ≡ true → marker_of encode o ≡ ok m)
    → (o.viterbi27 ≡ true → hexstr2int o.access_code ≡ ok code)
    → (o.inspect_queue || path_given o.to_file) ≡ true
    → Joined
        (stage_sizes o code (decoded_bits o n))
        (last_bits o n)
        (receive_path encode o (untouched n))
receive_path-Joined encode o n m code hm hc given =
    let (q, w, e, p) = stages-Pending encode o n m code hm hc in
    let sizes = stage_sizes o code (decoded_bits o n) in
    subst (Joined sizes (last_bits o n)) (sym e)
      (consume-Joined sizes (last_bits o n) o q w given p)

-- The graph has a queue that one block fills and that neither a block nor a watcher reads.
abbrev pub LeftUnread : Result (Unit {0} × Flow) → Type 0
LeftUnread r =
    (w : Flow) × (j : Queue) × (r ≡ ok (tt, w))
    × (j < w.queues)
    × (writers j w.blocks ≡ 1)
    × (readers j w.blocks ≡ 0)
    × (w.watched ≡ none)

consume-LeftUnread :
    (ds : List ℤ) (n : ℤ) (o : Options) (q : Queue) (w : Flow)
    → (o.inspect_queue || path_given o.to_file) ≡ false
    → Pending ds n q w
    → LeftUnread (consume o q w)
unfolding consume
consume-LeftUnread ds n o q w refused p =
    let no_watcher : o.inspect_queue ≡ false = ground arith in
    let no_path : path_given o.to_file ≡ false = ground arith in
    rw (no_watcher, no_path)
      (
        w,
        q,
        refl,
        p.made,
        ground (arith, p.filled q, p.made),
        ground (arith, p.drained q, p.made),
        p.unwatched,
      )

-- Without the monitor, with no file path or an empty one, and when the sync marker can be read (with the
-- frame sync on) and the access code is a hexadecimal number (with the Viterbi decoder on): the
-- receive path is built without an exception, with a queue that one block fills and that neither a
-- block nor a watcher reads.
pub receive_path-LeftUnread :
    (encode : Encoder) (o : Options) (n : ℤ) (m : Text × ℤ) (code : ℤ)
    → (o.frame_sync ≡ true → marker_of encode o ≡ ok m)
    → (o.viterbi27 ≡ true → hexstr2int o.access_code ≡ ok code)
    → (o.inspect_queue || path_given o.to_file) ≡ false
    → LeftUnread (receive_path encode o (untouched n))
receive_path-LeftUnread encode o n m code hm hc refused =
    let (q, w, e, p) = stages-Pending encode o n m code hm hc in
    subst LeftUnread (sym e) (consume-LeftUnread _ _ o q w refused p)
