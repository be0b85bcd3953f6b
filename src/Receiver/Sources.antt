-- ===== src/Receiver/Sources.antt =====
-- The source of samples leaves the queues of the receive path as they are.
use gr_ccsds.Prelude.{
  ◌≡◌, refl, sym, subst, ◌∙◌, none, some, Option-cases, Bool-cases, inl, inr, List, [], ◌∷◌, ◌++◌,
  append-nil, Text, codes, text_eq, lower, arith, if◌then◌else◌,
}
use gr_ccsds.Prelude.Int.{ℤ}
use gr_ccsds.Receiver.Flow.{
  Block, Flow, Build, >>=-run, bpsk_demod, mpsk_demod, file_sink, file_source, throttle,
  null_source, packed_to_unpacked_bb, unpacked_to_packed_bb,
}
use gr_ccsds.Receiver.Marker.{Options, Encoder}
use gr_ccsds.Receiver.ReceivePath.{receive_path}
use gr_ccsds.Receiver.Queues.{
  fills, reads, size_of, message_sizes, writers_last, readers_last, sizes_last,
}
use gr_ccsds.Receiver.Joined.{OneToOne, Joined}
use gr_ccsds.Receiver.Top.{live_source, recorded_source, no_source, my_top_block}

-- A flow graph whose queues are joined, with stages of the sizes `ds`.
abbrev Whole : List ℤ → ℤ → Flow → Type 0
Whole ds n w = OneToOne w × (message_sizes w.blocks ≡ ds) × (w.message_bits ≡ n)

-- A block that has to do with no queue.
abbrev IsApart : Block → Type 0
IsApart b = (fills b ≡ none) × (reads b ≡ none) × (size_of b ≡ [])

abbrev with_block : Flow → Block → Flow
with_block w b = record w { blocks = w.blocks ++ b ∷ [] }

Whole-make :
    (ds : List ℤ) (n : ℤ) (w : Flow) (b : Block)
    → IsApart b
    → Whole ds n w
    → Whole ds n (with_block w b)
Whole-make ds n w b (f, r, s) (one, sizes, bits) = (
  (λ j h. (
    writers_last j w.blocks b ∙ rw f (omega (arith, (one j h).0)),
    rw (readers_last j w.blocks b, r) (omega (arith, (one j h).1)),
  )),
  sizes_last w.blocks b ∙ rw s (append-nil _ ∙ sizes),
  bits,
)

Whole-three :
    (ds : List ℤ) (n : ℤ) (w : Flow) (a b c : Block)
    → IsApart a
    → IsApart b
    → IsApart c
    → Whole ds n w
    → Whole ds n (with_block (with_block (with_block w a) b) c)
Whole-three ds n w a b c ha hb hc h =
    Whole-make ds n (with_block (with_block w a) b) c hc
      (Whole-make ds n (with_block w a) b hb (Whole-make ds n w a ha h))

live_source-Joined :
    (now : Text) (o : Options) (ds : List ℤ) (n : ℤ) (w : Flow)
    → Whole ds n w
    → Joined ds n (live_source now o w)
unfolding live_source
live_source-Joined now o ds n w h = elim (Bool-cases (text_eq (lower o.sync) (codes "viterbi"))) [
  | inl e ↦
      let h₃ =
        Whole-three ds n w (mpsk_demod 2 o.centre_freq o.usrp_gain o.sps o.sym_rate)
          (file_sink (o.file_path ++ now ++ codes ".dat")) unpacked_to_packed_bb (refl, refl, refl)
          (refl, refl, refl) (refl, refl, refl) h in
      rw e (_, refl, h₃.0, h₃.1, h₃.2)
  | inr e ↦
      let h₃ =
        Whole-three ds n w (bpsk_demod o.centre_freq o.usrp_gain o.sps o.sym_rate)
          (file_sink (o.file_path ++ now ++ codes ".dat")) unpacked_to_packed_bb (refl, refl, refl)
          (refl, refl, refl) (refl, refl, refl) h in
      rw e (_, refl, h₃.0, h₃.1, h₃.2)
]

recorded_source-Joined :
    (path : Text) (o : Options) (ds : List ℤ) (n : ℤ) (w : Flow)
    → Whole ds n w
    → Joined ds n (recorded_source path o w)
unfolding recorded_source
recorded_source-Joined path o ds n w h =
    let h₃ =
      Whole-three ds n w (file_source path o.repeat_file) packed_to_unpacked_bb (throttle 1000000)
        (refl, refl, refl) (refl, refl, refl) (refl, refl, refl) h in
    (_, refl, h₃.0, h₃.1, h₃.2)

no_source-Joined : (ds : List ℤ) (n : ℤ) (w : Flow) → Whole ds n w → Joined ds n (no_source w)
unfolding no_source
no_source-Joined ds n w h =
    let h₁ = Whole-make ds n w null_source (refl, refl, refl) h in (_, refl, h₁.0, h₁.1, h₁.2)

abbrev source_of : Text → Options → Build (Unit {0})
source_of now o =
    if o.from_usrp
    then live_source now o
    else elim o.from_file [ none ↦ no_source | some path ↦ recorded_source path o ]

source_of-Joined :
    (now : Text) (o : Options) (ds : List ℤ) (n : ℤ) (w : Flow)
    → Whole ds n w
    → Joined ds n (source_of now o w)
unfolding live_source recorded_source
source_of-Joined now o ds n w h = elim (Bool-cases o.from_usrp) [
  | inl e ↦ rw e (live_source-Joined now o ds n w h)
  | inr e ↦ elim (Option-cases o.from_file) [
    | inl f ↦ rw (e, f) (no_source-Joined ds n w h)
    | inr (path, f) ↦ rw (e, f) (recorded_source-Joined path o ds n w h)
  ]
]

-- Whatever the source of samples, if the receive path is built with its queues joined then so is the
-- whole receiver, with the same stages: the demodulator, the recording of its output, the file and the
-- null source touch no queue.
pub my_top_block-Joined :
    (encode : Encoder) (now : Text) (o : Options) (ds : List ℤ) (n : ℤ) (start : Flow)
    → Joined ds n (receive_path encode o start)
    → Joined ds n (my_top_block encode now o start)
unfolding my_top_block
my_top_block-Joined encode now o ds n start (w, e, one, sizes, bits) =
    subst (Joined ds n) (sym (>>=-run (receive_path encode o) (λ _. source_of now o) start e))
      (source_of-Joined now o ds n w (one, sizes, bits))
