-- ===== src/Receiver/Flow.antt =====
-- A flow graph under construction. Only the blocks of GNU Radio and of `ccsds_swig` that the receiver
-- instantiates are named, with their arguments; what they compute is not code of the repository.
use gr_ccsds.Prelude.{
  ℕ, ◌+◌, Option, some, Bool, List, [], ◌∷◌, ◌++◌, length, Text, Result, ok, err, ◌≡◌, refl,
}
use gr_ccsds.Prelude.Int.{ℤ}
use gr_ccsds.Config.Values.{Value}

-- A message queue, `gr.msg_queue()`, by the number of queues made before it.
abbrev pub Queue : Type 0
Queue = ℕ

pub data Block : Type 0 where
  -- the marker and the threshold
  correlate_access_code_bb : Text → ℤ → Block
  -- the queue that it fills, the symbols of a frame and of a marker
  framer_sink_dual : Queue → ℤ → ℤ → Block
  -- the queue that it fills, the symbols of a frame, the marker and its length
  viterbi27_bb : Queue → ℤ → ℤ → ℤ → Block
  -- the queue that it fills, the bits of a message, mask, seed, length
  randomiser_bb : Queue → ℤ → ℕ → ℕ → ℕ → Block
  -- the queue that it fills, the bits of a message
  rs_decode_bb : Queue → ℤ → Block
  message_source message_sink : Queue → Block
  -- the source of `ccsds_swig` for the messages of a queue
  msg_source : Queue → Block
  packed_to_unpacked_bb unpacked_to_packed_bb null_source : Block
  file_sink : Text → Block
  file_source : Text → Bool → Block
  -- the rate
  throttle : ℕ → Block
  -- the two demodulators: centre frequency, gain, samples per symbol, symbol rate; `mpsk_demod` takes
  -- the number of phases first
  bpsk_demod : Value → Value → ℤ → Value → Block
  mpsk_demod : ℕ → Value → Value → ℤ → Value → Block

-- A node of the graph: a hierarchical block, seen from inside or from outside, or the block that was
-- added after so many others.
pub data Node : Type 0 where
  frame_sync_node receive_path_node receiver_node : Node
  block : ℕ → Node

-- A connection, from a port to a port.
pub record Edge : Type 0 where
  pub source : Node
  pub source_port : ℕ
  pub target : Node
  pub target_port : ℕ

pub record Flow : Type 0 where
  pub queues : ℕ
  pub blocks : List Block
  pub edges : List Edge
  -- the queue that a watcher thread reads
  pub watched : Option Queue
  -- `options.message_bits`, which the hierarchical blocks change
  pub message_bits : ℤ

abbrev pub Build : Type 0 → Type 0
Build A = Flow → Result (A × Flow)

infixl 5 ◌>>=◌ ◌>>◌
abbrev pub ◌>>=◌ : {A B : Type 0} → Build A → (A → Build B) → Build B
◌>>=◌ m f w = elim (m w) [ err e ↦ err e | ok (a, w') ↦ f a w' ]

abbrev pub ◌>>◌ : {B : Type 0} → Build (Unit {0}) → Build B → Build B
m >> k = m >>= λ _. k

abbrev pub pure : {A : Type 0} → A → Build A
pure a w = ok (a, w)

abbrev pub lift : {A : Type 0} → Result A → Build A
lift r w = elim r [ err e ↦ err e | ok a ↦ ok (a, w) ]

-- gr.msg_queue()
abbrev pub msg_queue : Build Queue
msg_queue w = ok (w.queues, record w { queues = w.queues + 1 })

-- A block is made.
abbrev pub make : Block → Build Node
make b w = ok (block (length w.blocks), record w { blocks = w.blocks ++ b ∷ [] })

-- self.connect((source, source_port), (target, target_port))
abbrev pub connect : Node → ℕ → Node → ℕ → Build (Unit {0})
connect a i b j w = ok (
  tt,
  record w {
    edges = w.edges ++ record { source = a; source_port = i; target = b; target_port = j } ∷ [];
  },
)

abbrev pub watch : Queue → Build (Unit {0})
watch q w = ok (tt, record w { watched = some q })

abbrev pub get_bits : Build ℤ
get_bits w = ok (w.message_bits, w)

abbrev pub set_bits : ℤ → Build (Unit {0})
set_bits n w = ok (tt, record w { message_bits = n })

-- A step that returns hands its value and its flow graph to the rest.
pub >>=-run :
    {A B : Type 0} (m : Build A) (f : A → Build B) (w : Flow) {a : A} {w' : Flow}
    → m w ≡ ok (a, w')
    → (m >>= f) w ≡ f a w'
>>=-run m f w e = rw (e, ◌>>=◌) refl

pub lift-run : {A : Type 0} (r : Result A) (w : Flow) {a : A} → r ≡ ok a → lift r w ≡ ok (a, w)
lift-run r w e = rw (e, lift) refl
