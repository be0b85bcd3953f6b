-- ===== src/SortFrames/Sorting.antt =====
-- What the block is for, as long as all frame numbers are below the length of the window: what it sends
-- is, number by number, what it keeps of the frames of that number.
use mathlib.Core.Path.{ap₂}
use mathlib.Core.List.{flat_map}
use gr_ccsds.Prelude.{
  ℕ, zero, suc, ◌+◌, ◌-◌, ◌%◌, ◌^◌, ◌≤◌, ◌<◌, ◌≡◌, ◌≢◌, refl, sym, ap, subst, ◌∙◌, Option, none,
  some, Bool, true, false, List, [], ◌∷◌, ◌++◌, append-nil, append_assoc, length-replicate, All, ok,
  err, ◌>>=◌, leb, ◌==◌, ==_iff, if◌then◌else◌, arith,
}
use gr_ccsds.Prelude.Int.{ℤ}
use gr_ccsds.Pdu.Message.{Message, eof, no_pair, no_dict, pdu, Header, Payload}
use gr_ccsds.SortFrames.Defs.{
  lacks_score, get_frame_number, get_frame_score, index_of, Config, Duplicates, no_duplicates,
  SortFrames, make, put_duplicates, flush_frames, advance, keep, store_numbered, store_frame,
  store_frames,
}
use gr_ccsds.Prelude.Access.{get_or-replicate}
use gr_ccsds.SortFrames.Flush.{from, send_frames-agree, flat_map-none}
use gr_ccsds.SortFrames.Early.{Holds, advance-Reached, put_duplicates-Holds}

-- The frame has the number `n`.
abbrev pub has_number : Config → ℕ → Message → Bool
has_number c n (pdu h p) = elim (get_frame_number c h) [
  | ok number ↦ elim number [ none ↦ false | some k ↦ n == k ]
  | err e ↦ false
]
has_number c n m = false

abbrev pub score_of : Config → Message → Option ℤ
score_of c (pdu h p) = elim (get_frame_score c h) [ ok score ↦ score | err e ↦ none ]
score_of c m = none

-- What is kept of the frames with the number `n`, in turn.
unfoldable pub collected : Config → ℕ → List Message → Duplicates → Duplicates
collected c n [] d = d
collected c n (m ∷ ms) d =
    collected c n ms (if has_number c n m then keep c m (score_of c m) d else d)

-- The message is a frame with a number below the length of the window, and with a score where frames are
-- to have one.
abbrev pub IsEarly : Config → Message → Type 0
IsEarly c (pdu h p) =
    (n : ℕ) × (score : Option ℤ) × (get_frame_number c h ≡ ok (some n))
    × (get_frame_score c h ≡ ok score)
    × (lacks_score c score ≡ false)
    × (n < c.window)
IsEarly c m = ⊥

-- What the slots hold with one more frame.
abbrev kept_too : Config → Message → (ℕ → Duplicates) → ℕ → Duplicates
kept_too c m v k = if has_number c k m then keep c m (score_of c m) (v k) else v k

-- A frame is stored, and nothing is sent.
record Stored (c : Config) (v : ℕ → Duplicates) (r : SortFrames × List Message) : Type 0 where
  holds : Holds r.0 v
  silent : r.1 ≡ []
  same_config : r.0.config ≡ c

store_numbered-Stored :
    (s : SortFrames) (v w : ℕ → Duplicates) (m : Message) (n : ℕ) (score : Option ℤ)
    → Holds s v
    → s.config.window + s.config.window ≤ 2 ^ 64
    → n < s.config.window
    → w n ≡ keep s.config m score (v n)
    → ((k : ℕ) → k ≢ n → w k ≡ v k)
    → Stored s.config w (store_numbered s m n score)
unfolding store_numbered
store_numbered-Stored s v w m n score holds wide lt here others =
    let no_wrap : (n + s.config.window) % 2 ^ 64 ≡ n + s.config.window = omega (arith, lt) in
    let test : leb ((n + s.config.window) % 2 ^ 64) s.current_frame ≡ false =
      rw no_wrap (ground (arith, holds.early)) in
    let next = advance-Reached (n - s.current_frame) s v (omega (arith, holds.early)) holds in
    let reached : n ≤ (advance (n - s.current_frame) s).0.current_frame =
      omega (arith, next.reached) in
    let kept = ap (keep s.config m score) (next.holds.agree n reached) ∙ sym here in
    subst (Stored s.config w) (sym (ap₂ (by_test (advance (n - s.current_frame) s)) test kept))
      (record {
        holds =
            put_duplicates-Holds (advance (n - s.current_frame) s).0 v w n reached next.holds
              others;
        silent = next.silent;
        same_config = next.same_config;
      })
  where
    by_test : SortFrames × List Message → Bool → Duplicates → SortFrames × List Message
    by_test r b d = if b then (s, []) else (put_duplicates r.0 n d, r.1)

store_frame-numbered :
    (s : SortFrames) (h : Header) (p : Payload) (n : ℕ) (score : Option ℤ)
    → get_frame_number s.config h ≡ ok (some n)
    → get_frame_score s.config h ≡ ok score
    → lacks_score s.config score ≡ false
    → store_frame s (pdu h p) ≡ ok (store_numbered s (pdu h p) n score)
unfolding store_frame
store_frame-numbered s h p n score en es el = rw (en, es, el) refl

-- A frame is kept with those of its number only.
kept_too-numbered :
    (c : Config) (v : ℕ → Duplicates) (h : Header) (p : Payload) (n k : ℕ) (score : Option ℤ)
    → get_frame_number c h ≡ ok (some n)
    → get_frame_score c h ≡ ok score
    → kept_too c (pdu h p) v k ≡ (if k == n then keep c (pdu h p) score (v k) else v k)
kept_too-numbered c v h p n k score en es =
    let number : has_number c k (pdu h p) ≡ (k == n) = rw (has_number, en) refl in
    let scored : score_of c (pdu h p) ≡ score = rw (score_of, es) refl in
    ap₂ (λ b x. if b then keep c (pdu h p) x (v k) else v k) number scored

store_frame-Stored :
    (s : SortFrames) (v : ℕ → Duplicates) (m : Message)
    → Holds s v
    → s.config.window + s.config.window ≤ 2 ^ 64
    → IsEarly s.config m
    → (r : SortFrames × List Message) × (store_frame s m ≡ ok r)
      × Stored s.config (kept_too s.config m v) r
store_frame-Stored s v (pdu h p) holds wide (n, score, en, es, el, lt) = (
  store_numbered s (pdu h p) n score,
  store_frame-numbered s h p n score en es el,
  store_numbered-Stored s v (kept_too s.config (pdu h p) v) (pdu h p) n score holds wide lt
      (kept_too-numbered s.config v h p n n score en es
        ∙ same_number (keep s.config (pdu h p) score (v n)) (v n))
      (λ k differ.
        kept_too-numbered s.config v h p n k score en es
        ∙ other_number k differ (keep s.config (pdu h p) score (v k)) (v k)),
)
  where
    same_number : (d e : Duplicates) → (if n == n then d else e) ≡ d
    same_number d e = rw ((==_iff n n).1 refl) refl

    other_number : (k : ℕ) → k ≢ n → (d e : Duplicates) → (if k == n then d else e) ≡ e
    other_number k differ d e = let test : (k == n) ≡ false = ground (arith, differ) in rw test refl
store_frame-Stored s v eof holds wide early = absurd early
store_frame-Stored s v no_pair holds wide early = absurd early
store_frame-Stored s v (no_dict p) holds wide early = absurd early

flat_map-append :
    (v : ℕ → Duplicates) (i a b : ℕ)
    → flat_map (λ n. (v n).frames) (from i (a + b))
      ≡ flat_map (λ n. (v n).frames) (from i a) ++ flat_map (λ n. (v n).frames) (from (i + a) b)
unfolding flat_map from
flat_map-append v i zero b =
    let none_more : i + 0 ≡ i = omega arith in
    let none_first : 0 + b ≡ b = omega arith in rw (none_more, none_first) refl
flat_map-append v i (suc a) b =
    let shifted : i + suc a ≡ i + 1 + a = omega arith in
    let more : suc a + b ≡ suc (a + b) = omega arith in
    rw (shifted, more)
      (ap (λ out. (v i).frames ++ out) (flat_map-append v (i + 1) a b)
        ∙ sym (append_assoc (v i).frames _ _))

-- What a flush sends then.
flush_frames-Holds :
    (s : SortFrames) (v : ℕ → Duplicates)
    → Holds s v
    → s.config.window + s.config.window ≤ 2 ^ 64
    → (flush_frames s).1 ≡ flat_map (λ n. (v n).frames) (from 0 s.config.window)
unfolding flush_frames
flush_frames-Holds s v holds wide =
    let first : (s.current_frame + 1) % 2 ^ 64 - s.config.window ≡ 0 = omega (arith, holds.early) in
    let later = s.config.window - (s.current_frame + 1) in
    let split : s.config.window ≡ s.current_frame + 1 + later = omega (arith, holds.early) in
    let empty =
      flat_map-none later (s.current_frame + 1) v
        (λ n le lt. ap (λ d. d.frames) (holds.beyond n (omega arith))) in
    let listing = λ (k : ℕ). flat_map (λ n. (v n).frames) (from 0 k) in
    let all_rounds : s.current_frame + 1 - 0 ≡ s.current_frame + 1 = omega arith in
    let more =
      ap listing split
      ∙ flat_map-append v 0 (s.current_frame + 1) later
      ∙ ap (λ out. listing (s.current_frame + 1) ++ out)
          (from_end (s.current_frame + 1) later empty)
      ∙ append-nil (listing (s.current_frame + 1)) in
    rw first (
      send_frames-agree (s.current_frame + 1 - 0) 0 s v holds.well_formed (omega arith)
        (omega (arith, holds.early)) (λ n le lt. holds.agree n lt)
      ∙ ap listing all_rounds
      ∙ sym more)
  where
    from_end :
        (i k : ℕ)
        → flat_map (λ n. (v n).frames) (from i k) ≡ []
        → flat_map (λ n. (v n).frames) (from (0 + i) k) ≡ []
    from_end i k h = let same : 0 + i ≡ i = omega arith in rw same h

-- The end of the stream.
store_frames-eof :
    (s : SortFrames)
    → store_frames s (eof ∷ [])
      ≡ ok (record (flush_frames s).0 { stopped = true }, (flush_frames s).1 ++ eof ∷ [])
unfolding store_frames store_frame
store_frames-eof s =
    ap (λ out. ok (record (flush_frames s).0 { stopped = true }, out))
      (append-nil ((flush_frames s).1 ++ eof ∷ []))

-- One frame of the stream, and the rest of it.
store_frames-step :
    (s t : SortFrames) (m : Message) (ms out : List Message) (r : SortFrames × List Message)
    → store_frame s m ≡ ok r
    → r.1 ≡ []
    → store_frames r.0 ms ≡ ok (t, out)
    → store_frames s (m ∷ ms) ≡ ok (t, out)
unfolding store_frames
store_frames-step s t m ms out r stored silent rest =
    ap (λ x. x >>= λ a. store_frames a.0 ms >>= λ b. ok (b.0, a.1 ++ b.1)) stored
    ∙ ap (λ x. x >>= λ b. ok (b.0, r.1 ++ b.1)) rest
    ∙ ap (λ front. ok (t, front ++ out)) silent

store_frames-collected :
    (c : Config) (s : SortFrames) (v : ℕ → Duplicates) (ms : List Message)
    → s.config ≡ c
    → Holds s v
    → c.window + c.window ≤ 2 ^ 64
    → All (IsEarly c) ms
    → (t : SortFrames) × (store_frames s (ms ++ eof ∷ [])
        ≡ ok (t, flat_map (λ n. (collected c n ms (v n)).frames) (from 0 c.window) ++ eof ∷ []))
unfolding collected
store_frames-collected c s v [] same holds wide early =
    let same_window = ap (λ c. c.window) same in
    let sent =
      flush_frames-Holds s v holds (omega (arith, same_window))
      ∙ ap (λ w. flat_map (λ n. (v n).frames) (from 0 w)) same_window in
    (
      record (flush_frames s).0 { stopped = true },
      store_frames-eof s
          ∙ ap (λ out. ok (record (flush_frames s).0 { stopped = true }, out ++ eof ∷ [])) sent,
    )
store_frames-collected c s v (m ∷ ms) same holds wide (first, others) =
    let (r, stored, after) = subst (OneMore c) same (store_frame-Stored s v m holds) wide first in
    let (t, rest) =
      store_frames-collected c r.0 (kept_too c m v) ms after.same_config after.holds wide others in
    (t, store_frames-step s t m (ms ++ eof ∷ []) _ r stored after.silent rest)
  where
    OneMore : Config → Config → Type 0
    OneMore _ c =
        c.window + c.window ≤ 2 ^ 64
        → IsEarly c m
        → (r : SortFrames × List Message) × (store_frame s m ≡ ok r) × Stored c (kept_too c m v) r

make-Holds : (c : Config) → 0 < c.window → Holds (make c) (λ n. no_duplicates)
make-Holds c h = record {
  well_formed = record { whole = length-replicate c.window no_duplicates; inside = omega arith };
  early = h;
  agree = λ n le. get_or-replicate c.window (index_of (make c) n) no_duplicates;
  beyond = λ n lt. refl;
}

-- A new block that is given frames with numbers below the length of its window, in any order, and then
-- the end of the stream, sends what it keeps of frame 0, of frame 1 and so on up to the end of the
-- window, and then the end of the stream. It does not raise. The window has one slot at least, and
-- twice its length is a number of 64 bits.
pub store_frames-sorted :
    (c : Config) (ms : List Message)
    → 0 < c.window
    → c.window + c.window ≤ 2 ^ 64
    → All (IsEarly c) ms
    → (t : SortFrames) × (store_frames (make c) (ms ++ eof ∷ [])
        ≡ ok (
          t,
          flat_map (λ n. (collected c n ms no_duplicates).frames) (from 0 c.window) ++ eof ∷ [],
        ))
store_frames-sorted c ms h wide early =
    store_frames-collected c (make c) (λ n. no_duplicates) ms refl (make-Holds c h) wide early
