-- ===== src/Receiver/Stages.antt =====
-- Each stage of the receiver takes a pending queue over and leaves one of its own.
use gr_ccsds.Prelude.{
  sym, subst, ◌+◌, ◌≡◌, refl, ◌∙◌, none, Bool, true, false, List, [], ◌∷◌, ◌++◌, append-nil, Text,
  ok, arith, if◌then◌else◌,
}
use gr_ccsds.Prelude.Int.{ℤ, pos, ◌-ℤ◌}
use gr_ccsds.BitText.Defs.{hexstr2int}
use gr_ccsds.Receiver.Flow.{Queue, Flow, Build, lift, >>=-run, lift-run}
use gr_ccsds.Receiver.Marker.{Options, Encoder, marker_of, floor_div}
use gr_ccsds.Receiver.Blocks.{
  bpsk_frame_sync, frame_sync_blocks, viterbi_blocks, vit27_decode, pdr, reed_solomon,
}
use gr_ccsds.Receiver.ReceivePath.{no_frame_sync, with_frame_sync, optional}
use gr_ccsds.Receiver.Queues.{
  writers, readers, message_sizes, writers_last, readers_last, sizes_last, Pending, Gives,
}

pub pdr-Pending :
    (ds : List ℤ) (n : ℤ) (o : Options) (q : Queue) (w : Flow)
    → Pending ds n q w
    → Gives (ds ++ n ∷ []) n (pdr o q w)
unfolding pdr
pdr-Pending ds n o q w p = (
  _,
  _,
  refl,
  record {
    sizes = simp (sizes_last, append-nil, p.sizes, p.bits);
    bits = p.bits;
    made = omega arith;
    unwatched = p.unwatched;
    filled = λ j. simp writers_last (ground (arith, p.filled j));
    drained = λ j. simp readers_last (ground (arith, p.drained j));
  },
)

pub reed_solomon-Pending :
    (ds : List ℤ) (n : ℤ) (o : Options) (q : Queue) (w : Flow)
    → Pending ds n q w
    → Gives (ds ++ n ∷ []) (n -ℤ pos 1280) (reed_solomon o q w)
unfolding reed_solomon
reed_solomon-Pending ds n o q w p = (
  _,
  _,
  refl,
  record {
    sizes = simp (sizes_last, append-nil, p.sizes, p.bits);
    bits = rw p.bits refl;
    made = omega arith;
    unwatched = p.unwatched;
    filled = λ j. simp writers_last (ground (arith, p.filled j));
    drained = λ j. simp readers_last (ground (arith, p.drained j));
  },
)

viterbi_blocks-Pending :
    (ds : List ℤ) (n : ℤ) (o : Options) (code : ℤ) (q : Queue) (w : Flow)
    → Pending ds n q w
    → Gives
        (ds ++ o.frame_syms ∷ code ∷ pos o.code_length ∷ [])
        (floor_div n 2)
        (viterbi_blocks o q w.queues code (record w { queues = w.queues + 1 }))
unfolding viterbi_blocks
viterbi_blocks-Pending ds n o code q w p = (
  _,
  _,
  refl,
  record {
    sizes = simp (sizes_last, append-nil, p.sizes);
    bits = rw p.bits refl;
    made = omega arith;
    unwatched = p.unwatched;
    filled = λ j. simp writers_last (ground (arith, p.filled j));
    drained = λ j. simp readers_last (ground (arith, p.drained j));
  },
)

pub vit27_decode-Pending :
    (ds : List ℤ) (n : ℤ) (o : Options) (code : ℤ) (q : Queue) (w : Flow)
    → hexstr2int o.access_code ≡ ok code
    → Pending ds n q w
    → Gives
        (ds ++ o.frame_syms ∷ code ∷ pos o.code_length ∷ [])
        (floor_div n 2)
        (vit27_decode o q w)
unfolding vit27_decode
vit27_decode-Pending ds n o code q w e p = rw e (viterbi_blocks-Pending ds n o code q w p)

-- A flow graph to which nothing has been added that touches a queue.
pub record Untouched (n : ℤ) (w : Flow) : Type 0 where
  pub no_sizes : message_sizes w.blocks ≡ []
  pub bits : w.message_bits ≡ n
  pub unwatched : w.watched ≡ none
  pub none_made : w.queues ≡ 0
  pub none_filled : (j : Queue) → writers j w.blocks ≡ 0
  pub none_read : (j : Queue) → readers j w.blocks ≡ 0

pub no_frame_sync-Pending : (n : ℤ) (w : Flow) → Untouched n w → Gives [] n (no_frame_sync w)
unfolding no_frame_sync
no_frame_sync-Pending n w u = (
  _,
  _,
  refl,
  record {
    sizes = simp (sizes_last, append-nil, u.no_sizes);
    bits = u.bits;
    made = omega (arith, u.none_made);
    unwatched = u.unwatched;
    filled = λ j. simp writers_last (ground (arith, u.none_filled j, u.none_made));
    drained = λ j. simp readers_last (ground (arith, u.none_read j, u.none_made));
  },
)

frame_sync_blocks-Pending :
    (n : ℤ) (o : Options) (m : Text × ℤ) (w : Flow)
    → Untouched n w
    → Gives (o.frame_syms ∷ o.asm_syms ∷ []) n (frame_sync_blocks o m w)
unfolding frame_sync_blocks
frame_sync_blocks-Pending n o m w u = (
  _,
  _,
  refl,
  record {
    sizes = simp (sizes_last, u.no_sizes);
    bits = u.bits;
    made = omega (arith, u.none_made);
    unwatched = u.unwatched;
    filled = λ j. simp writers_last (ground (arith, u.none_filled j, u.none_made));
    drained = λ j. simp readers_last (ground (arith, u.none_read j, u.none_made));
  },
)

pub with_frame_sync-Pending :
    (n : ℤ) (encode : Encoder) (o : Options) (m : Text × ℤ) (w : Flow)
    → marker_of encode o ≡ ok m
    → Untouched n w
    → Gives (o.frame_syms ∷ o.asm_syms ∷ []) n (with_frame_sync encode o w)
unfolding with_frame_sync bpsk_frame_sync
with_frame_sync-Pending n encode o m w e u =
    let (q, w₁, e₁, p) = frame_sync_blocks-Pending n o m w u in
    let built : bpsk_frame_sync encode o w ≡ ok (q, w₁) =
      >>=-run (lift (marker_of encode o)) (frame_sync_blocks o) w (lift-run _ w e) ∙ e₁ in
    (
      q,
      _,
      >>=-run (bpsk_frame_sync encode o) _ w built,
      record {
        sizes = p.sizes;
        bits = p.bits;
        made = p.made;
        unwatched = p.unwatched;
        filled = p.filled;
        drained = p.drained;
      },
    )

-- A stage that is on or off: it appends its sizes to those of the stages before it, or nothing.
pub optional-Pending :
    (ds sizes : List ℤ) (n n' : ℤ) (stage : Queue → Build Queue) (q : Queue) (w : Flow) (b : Bool)
    → (b ≡ true → Gives (ds ++ sizes) n' (stage q w))
    → Pending ds n q w
    → Gives (ds ++ (if b then sizes else [])) (if b then n' else n) (optional b stage q w)
optional-Pending ds sizes n n' stage q w true h p = h refl
optional-Pending ds sizes n n' stage q w false h p =
    (q, w, refl, subst (λ l. Pending l n q w) (sym (append-nil ds)) p)
