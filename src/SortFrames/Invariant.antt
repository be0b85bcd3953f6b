-- ===== src/SortFrames/Invariant.antt =====
-- What holds of the block after any messages.
use gr_ccsds.Prelude.{
  ℕ, zero, suc, ◌+◌, ◌-◌, ◌%◌, ◌^◌, ◌≤◌, ◌<◌, ◌≡◌, refl, ap, subst, ◌∙◌, inl, inr, Option, none,
  some, Bool, true, false, List, [], ◌∷◌, ◌++◌, All, Result, ok, err, ◌>>=◌, Result-cases, length,
  length-replicate, get_or, set, replicate, leb, if◌then◌else◌, arith,
}
use gr_ccsds.Prelude.Int.{ℤ}
use gr_ccsds.Pdu.Message.{Message, eof, no_pair, no_dict, pdu}
use gr_ccsds.SortFrames.Defs.{
  lacks_score, get_frame_number, get_frame_score, Config, Duplicates, no_duplicates, SortFrames,
  make, index_of, get_duplicates, put_duplicates, send_frame, send_frames, flush_frames,
  advance_storage, next_frame, advance, keep, store_numbered, store_frame, store_frames,
}
use gr_ccsds.SortFrames.Flush.{send_frames-Flushed}
use gr_ccsds.SortFrames.Storage.{WellFormed, put_duplicates-WellFormed, moved, moved-WellFormed}
use gr_ccsds.SortFrames.Kept.{IsKept, keep-IsKept}

pub record Sound (s : SortFrames) : Type 0 where
  pub well_formed : WellFormed s
  pub kept : All (IsKept s.config) s.frame_storage

module _ {A : Type 0} (P : A → Type 0) where
  All-set : (xs : List A) (i : ℕ) (v : A) → All P xs → P v → All P (set xs i v)
  All-set [] i v h hv = h
  All-set (x ∷ xs) zero v h hv = (hv, h.1)
  All-set (x ∷ xs) (suc i) v h hv = (h.0, All-set xs i v h.1 hv)

  All-get_or : (xs : List A) (i : ℕ) (d : A) → All P xs → P d → P (get_or xs i d)
  All-get_or [] i d h hd = hd
  All-get_or (x ∷ xs) zero d h hd = h.0
  All-get_or (x ∷ xs) (suc i) d h hd = All-get_or xs i d h.1 hd

  All-replicate : (n : ℕ) (v : A) → P v → All P (replicate n v)
  All-replicate zero v hv = tt
  All-replicate (suc n) v hv = (hv, All-replicate n v hv)

none-IsKept : (c : Config) → IsKept c no_duplicates
none-IsKept c = (λ e. omega arith, inl refl)

get_duplicates-IsKept : (s : SortFrames) (n : ℕ) → Sound s → IsKept s.config (get_duplicates s n)
get_duplicates-IsKept s n h =
    All-get_or (IsKept s.config) s.frame_storage (index_of s n) no_duplicates h.kept
      (none-IsKept s.config)

put_duplicates-Sound :
    (s : SortFrames) (n : ℕ) (d : Duplicates)
    → Sound s
    → IsKept s.config d
    → Sound (put_duplicates s n d)
put_duplicates-Sound s n d h hd = record {
  well_formed = put_duplicates-WellFormed s n d h.well_formed;
  kept = All-set (IsKept s.config) s.frame_storage (index_of s n) d h.kept hd;
}

send_frame-Sound : (s : SortFrames) (n : ℕ) → Sound s → Sound (send_frame s n).0
unfolding send_frame
send_frame-Sound s n h =
    put_duplicates-Sound s n (record (get_duplicates s n) { frames = [] }) h
      (λ e. omega arith, inl refl)

send_frames-Sound : (k i : ℕ) (s : SortFrames) → Sound s → Sound (send_frames k i s).0
unfolding send_frames
send_frames-Sound zero i s h = h
send_frames-Sound (suc k) i s h =
    send_frames-Sound k (i + 1) (send_frame s i).0 (send_frame-Sound s i h)

moved-Sound : (s : SortFrames) → Sound s → Sound (moved s)
unfolding advance_storage
moved-Sound s h = record {
  well_formed = moved-WellFormed s h.well_formed;
  kept = All-set (IsKept s.config) s.frame_storage _ no_duplicates h.kept (none-IsKept s.config);
}

-- Sound after a step, with the configuration of before.
pub record Continues (c : Config) (t : SortFrames) : Type 0 where
  pub sound : Sound t
  pub same_config : t.config ≡ c

-- A round of the loop, by its test.
round_choice :
    (b : Bool) (s : SortFrames) (n : ℕ)
    → Sound s
    → let r : SortFrames × List Message = if b then send_frame s n else (s, []) in
      Continues s.config (record (advance_storage r.0) { current_frame = s.current_frame + 1 })
unfolding send_frame advance_storage
round_choice true s n h =
    let next = moved-Sound (send_frame s n).0 (send_frame-Sound s n h) in
    record {
      sound = record {
        well_formed = record { whole = next.well_formed.whole; inside = next.well_formed.inside };
        kept = next.kept;
      };
      same_config = refl;
    }
round_choice false s n h = record { sound = moved-Sound s h; same_config = refl }

next_frame-Continues : (s : SortFrames) → Sound s → Continues s.config (next_frame s).0
unfolding next_frame
next_frame-Continues s h =
    round_choice (leb s.config.window s.current_frame) s (s.current_frame - s.config.window) h

advance-Continues : (k : ℕ) (s : SortFrames) → Sound s → Continues s.config (advance k s).0
unfolding advance
advance-Continues zero s h = record { sound = h; same_config = refl }
advance-Continues (suc k) s h =
    let once = next_frame-Continues s h in
    let rest = advance-Continues k (next_frame s).0 once.sound in
    record { sound = rest.sound; same_config = rest.same_config ∙ once.same_config }

-- Whatever the block does, if it does not raise.
abbrev Preserves : Config → Result (SortFrames × List Message) → Type 0
Preserves c (ok r) = Continues c r.0
Preserves c (err e) = Unit

>>=-Preserves :
    {A : Type 0} (c : Config) (r : Result A) (f : A → Result (SortFrames × List Message))
    → ((a : A) → Preserves c (f a))
    → Preserves c (r >>= f)
>>=-Preserves c (ok a) f h = h a
>>=-Preserves c (err e) f h = tt

store_choice :
    (b : Bool) (s t : SortFrames) (frame : Message) (n : ℕ) (score : Option ℤ) (out : List Message)
    → Sound s
    → Continues s.config t
    → let r : SortFrames × List Message =
        if b
        then (s, [])
        else (put_duplicates t n (keep s.config frame score (get_duplicates t n)), out) in
      Continues s.config r.0
store_choice true s t frame n score out h next = record { sound = h; same_config = refl }
store_choice false s t frame n score out h next = record {
  sound = put_duplicates-Sound t n _ next.sound (
      subst (λ c. IsKept t.config (keep c frame score (get_duplicates t n))) next.same_config
        (keep-IsKept t.config frame score (get_duplicates t n)
          (get_duplicates-IsKept t n next.sound)));
  same_config = next.same_config;
}

store_numbered-Continues :
    (s : SortFrames) (frame : Message) (n : ℕ) (score : Option ℤ)
    → Sound s
    → Continues s.config (store_numbered s frame n score).0
unfolding store_numbered
store_numbered-Continues s frame n score h =
    store_choice (leb ((n + s.config.window) % 2 ^ 64) s.current_frame) s
      (advance (n - s.current_frame) s).0 frame n score (advance (n - s.current_frame) s).1 h
      (advance-Continues (n - s.current_frame) s h)

flush_frames-Continues : (s : SortFrames) → Sound s → Continues s.config (flush_frames s).0
unfolding flush_frames
flush_frames-Continues s h =
    let first = (s.current_frame + 1) % 2 ^ 64 - s.config.window in
    let sent = send_frames-Sound (s.current_frame + 1 - first) first s h in
    let same = send_frames-Flushed (s.current_frame + 1 - first) first s h.well_formed in
    record {
      sound = record {
        well_formed = record { whole = sent.well_formed.whole; inside = sent.well_formed.inside };
        kept = sent.kept;
      };
      same_config = same.same_config;
    }

scored_choice :
    (b : Bool) (s : SortFrames) (frame : Message) (n : ℕ) (score : Option ℤ)
    → Sound s
    → Preserves s.config (if b then ok (s, []) else ok (store_numbered s frame n score))
scored_choice true s frame n score h = record { sound = h; same_config = refl }
scored_choice false s frame n score h = store_numbered-Continues s frame n score h

numbered_choice :
    (number : Option ℕ) (s : SortFrames) (frame : Message) (score : Option ℤ)
    → Sound s
    → Preserves s.config (elim number [
      | none ↦ ok (s, [])
      | some n ↦
          if lacks_score s.config score then ok (s, []) else ok (store_numbered s frame n score)
    ])
numbered_choice none s frame score h = record { sound = h; same_config = refl }
numbered_choice (some n) s frame score h =
    scored_choice (lacks_score s.config score) s frame n score h

store_frame-Preserves :
    (s : SortFrames) (m : Message) → Sound s → Preserves s.config (store_frame s m)
unfolding store_frame
store_frame-Preserves s eof h =
    let done = flush_frames-Continues s h in
    record {
      sound = record {
        well_formed = record {
          whole = done.sound.well_formed.whole;
          inside = done.sound.well_formed.inside;
        };
        kept = done.sound.kept;
      };
      same_config = done.same_config;
    }
store_frame-Preserves s no_pair h = record { sound = h; same_config = refl }
store_frame-Preserves s (no_dict p) h = record { sound = h; same_config = refl }
store_frame-Preserves s (pdu g p) h =
    >>=-Preserves s.config (get_frame_number s.config g) _ (λ number.
      >>=-Preserves s.config (get_frame_score s.config g) _
        (λ score. numbered_choice number s (pdu g p) score h))

append-Preserves :
    (c : Config) (out : List Message) (r : Result (SortFrames × List Message))
    → Preserves c r
    → Preserves c (r >>= λ a. ok (a.0, out ++ a.1))
append-Preserves c out (ok r) h = h
append-Preserves c out (err e) h = tt

store_frames-Preserves :
    (c : Config) (s : SortFrames) (ms : List Message)
    → Continues c s
    → Preserves c (store_frames s ms)
unfolding store_frames
store_frames-Preserves c s [] h = h
store_frames-Preserves c s (m ∷ ms) h = elim (Result-cases (store_frame s m)) [
  | inl (r, e) ↦
      let first =
        subst (λ c. Preserves c (store_frame s m)) h.same_config
          (store_frame-Preserves s m h.sound) in
      rw e (
        append-Preserves c r.1 (store_frames r.0 ms)
          (store_frames-Preserves c r.0 ms (subst (Preserves c) e first)))
  | inr (x, e) ↦ rw e tt
]

make-Continues : (c : Config) → 0 < c.window → Continues c (make c)
make-Continues c h = record {
  sound = record {
    well_formed = record { whole = length-replicate c.window no_duplicates; inside = omega arith };
    kept = All-replicate (IsKept c) c.window no_duplicates (none-IsKept c);
  };
  same_config = refl;
}

-- After any messages to a new block with a window of one slot at least, as long as none of them makes
-- it raise: the ring has as many slots as the window, the offset is one of them, no slot has more than
-- one frame where duplicates are not allowed, and the index of a slot's best frame is that of a frame.
pub store_frames-Sound :
    (c : Config) (ms : List Message) (t : SortFrames) (out : List Message)
    → 0 < c.window
    → store_frames (make c) ms ≡ ok (t, out)
    → Sound t
store_frames-Sound c ms t out h e =
    (subst (Preserves c) e (store_frames-Preserves c (make c) ms (make-Continues c h))).sound

-- The assertion in send_frame holds: whatever messages a new block without duplicates was given, no
-- frame number has more than one frame, in whatever slot it is looked for.
pub one_frame_at_most :
    (c : Config) (ms : List Message) (t : SortFrames) (out : List Message) (n : ℕ)
    → 0 < c.window
    → c.allow_duplicates ≡ false
    → store_frames (make c) ms ≡ ok (t, out)
    → length (get_duplicates t n).frames ≤ 1
one_frame_at_most c ms t out n h single e =
    let last = subst (Preserves c) e (store_frames-Preserves c (make c) ms (make-Continues c h)) in
    (get_duplicates-IsKept t n last.sound).0
      (ap (λ c. c.allow_duplicates) last.same_config ∙ single)
