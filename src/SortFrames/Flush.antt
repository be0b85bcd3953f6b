-- ===== src/SortFrames/Flush.antt =====
-- What a flush sends.
use mathlib.Core.List.{flat_map}
use gr_ccsds.Prelude.{
  ℕ, zero, suc, ◌+◌, ◌-◌, ◌%◌, ◌^◌, ◌≤◌, ◌<◌, ◌≡◌, refl, ap, subst, ◌∙◌, ◌⊎◌, inl, inr, Bool-cases,
  ◌==◌, ==_iff, List, [], ◌∷◌, ◌++◌, arith,
}
use gr_ccsds.SortFrames.Defs.{
  Duplicates, SortFrames, get_duplicates, put_duplicates, send_frame, send_frames, flush_frames,
}
use gr_ccsds.SortFrames.Storage.{
  WellFormed, InWindow, put_duplicates-WellFormed, get_duplicates-put_ne, get_duplicates-put_self,
}

-- The `k` numbers from `i` on.
unfoldable pub from : ℕ → ℕ → List ℕ
from i zero = []
from i (suc k) = i ∷ from (i + 1) k

abbrev pub emptied : SortFrames → ℕ → SortFrames
emptied s n = put_duplicates s n (record (get_duplicates s n) { frames = [] })

pub send_frames-agree :
    (k i : ℕ) (s : SortFrames) (v : ℕ → Duplicates)
    → WellFormed s
    → i + k ≡ s.current_frame + 1
    → s.current_frame < i + s.config.window
    → ((n : ℕ) → i ≤ n → n ≤ s.current_frame → get_duplicates s n ≡ v n)
    → (send_frames k i s).1 ≡ flat_map (λ n. (v n).frames) (from i k)
unfolding send_frames send_frame flat_map from
send_frames-agree zero i s v w all_left inside agree = refl
send_frames-agree (suc k) i s v w all_left inside agree =
    let here = agree i (omega arith) (omega arith) in
    let rest =
      send_frames-agree k (i + 1) (emptied s i) v (put_duplicates-WellFormed s i _ w) (omega arith)
        (omega arith)
        (λ n le lt.
          get_duplicates-put_ne s i n (record (get_duplicates s i) { frames = [] }) w
            (omega arith, omega arith) (omega arith, omega arith) (λ e. omega arith)
          ∙ agree n (omega arith) lt) in
    ap (λ d. d.frames ++ (send_frames k (i + 1) (emptied s i)).1) here
    ∙ ap (λ out. (v i).frames ++ out) rest

pub record Flushed (s t : SortFrames) : Type 0 where
  pub same_config : t.config ≡ s.config
  pub same_frame : t.current_frame ≡ s.current_frame
  pub well_formed : WellFormed t

pub send_frames-Flushed :
    (k i : ℕ) (s : SortFrames) → WellFormed s → Flushed s (send_frames k i s).0
unfolding send_frames send_frame
send_frames-Flushed zero i s w = record { same_config = refl; same_frame = refl; well_formed = w }
send_frames-Flushed (suc k) i s w =
    let rest = send_frames-Flushed k (i + 1) (emptied s i) (put_duplicates-WellFormed s i _ w) in
    record {
      same_config = rest.same_config;
      same_frame = rest.same_frame;
      well_formed = rest.well_formed;
    }

-- A flush sends the frames of the whole window, in the order of their numbers, and those of one number
-- in the order in which they stand, as long as the current frame's number is not the last one of 64
-- bits.
pub flush_frames-sorted :
    (s : SortFrames)
    → WellFormed s
    → s.current_frame + 1 < 2 ^ 64
    → (flush_frames s).1
      ≡ flat_map
          (λ n. (get_duplicates s n).frames)
          (from
            (s.current_frame + 1 - s.config.window)
            (s.current_frame + 1 - (s.current_frame + 1 - s.config.window)))
unfolding flush_frames
flush_frames-sorted s w h =
    let no_wrap : (s.current_frame + 1) % 2 ^ 64 ≡ s.current_frame + 1 = omega arith in
    rw no_wrap (
      send_frames-agree (s.current_frame + 1 - (s.current_frame + 1 - s.config.window))
        (s.current_frame + 1 - s.config.window) s (get_duplicates s) w (omega arith)
        (omega (arith, w.inside)) (λ n le lt. refl))

emptied-taken :
    (s : SortFrames) (i n : ℕ)
    → WellFormed s
    → InWindow s i
    → InWindow s n
    → ((get_duplicates s n).frames ≡ []) ⊎ (i ≤ n)
    → ((get_duplicates (emptied s i) n).frames ≡ []) ⊎ (i + 1 ≤ n)
emptied-taken s i n w hi hn h = elim (Bool-cases (i == n)) [
  | inl e ↦ inl (
      subst (λ n. (get_duplicates (emptied s i) n).frames ≡ []) ((==_iff i n).0 e)
        (ap (λ d. d.frames)
          (get_duplicates-put_self s i (record (get_duplicates s i) { frames = [] }) w)))
  | inr e ↦
      let kept =
        get_duplicates-put_ne s i n (record (get_duplicates s i) { frames = [] }) w hi hn
          (λ same. ground (arith, e, same)) in
      elim h [
        | inl none_left ↦ inl (ap (λ d. d.frames) kept ∙ none_left)
        | inr le ↦ inr (ground (arith, e, le))
      ]
]

-- What is sent is taken out of its slot.
send_frames-taken :
    (k i : ℕ) (s : SortFrames) (n : ℕ)
    → WellFormed s
    → i + k ≡ s.current_frame + 1
    → s.current_frame < i + s.config.window
    → InWindow s n
    → ((get_duplicates s n).frames ≡ []) ⊎ (i ≤ n)
    → (get_duplicates (send_frames k i s).0 n).frames ≡ []
unfolding send_frames send_frame
send_frames-taken zero i s n w all_left inside hn (inl h) = h
send_frames-taken zero i s n w all_left inside hn (inr h) = absurd (omega (arith, hn))
send_frames-taken (suc k) i s n w all_left inside hn h =
    send_frames-taken k (i + 1) (emptied s i) n (put_duplicates-WellFormed s i _ w) (omega arith)
      (omega arith) hn (emptied-taken s i n w (omega arith, omega arith) hn h)

pub flat_map-none :
    (k i : ℕ) (v : ℕ → Duplicates)
    → ((n : ℕ) → i ≤ n → n < i + k → (v n).frames ≡ [])
    → flat_map (λ n. (v n).frames) (from i k) ≡ []
unfolding flat_map from
flat_map-none zero i v h = refl
flat_map-none (suc k) i v h =
    ap (λ out. out ++ flat_map (λ n. (v n).frames) (from (i + 1) k))
      (h i (omega arith) (omega arith))
    ∙ flat_map-none k (i + 1) v (λ n le lt. h n (omega arith) (omega arith))

flush_frames-Flushed : (s : SortFrames) → WellFormed s → Flushed s (flush_frames s).0
unfolding flush_frames
flush_frames-Flushed s w =
    let done =
      send_frames-Flushed (s.current_frame + 1 - ((s.current_frame + 1) % 2 ^ 64 - s.config.window))
        ((s.current_frame + 1) % 2 ^ 64 - s.config.window) s w in
    record {
      same_config = done.same_config;
      same_frame = done.same_frame;
      well_formed = record { whole = done.well_formed.whole; inside = done.well_formed.inside };
    }

flush_frames-taken :
    (s : SortFrames) (n : ℕ)
    → WellFormed s
    → s.current_frame + 1 < 2 ^ 64
    → InWindow s n
    → (get_duplicates (flush_frames s).0 n).frames ≡ []
unfolding flush_frames
flush_frames-taken s n w h hn =
    let first = (s.current_frame + 1) % 2 ^ 64 - s.config.window in
    send_frames-taken (s.current_frame + 1 - first) first s n w (omega arith)
      (omega (arith, w.inside)) hn (inr (omega (arith, hn)))

-- A second flush sends nothing.
pub flush_frames_twice :
    (s : SortFrames)
    → WellFormed s
    → s.current_frame + 1 < 2 ^ 64
    → (flush_frames (flush_frames s).0).1 ≡ []
flush_frames_twice s w h =
    let t = (flush_frames s).0 in
    let done = flush_frames-Flushed s w in
    let same_window = ap (λ c. c.window) done.same_config in
    let same_frame = done.same_frame in
    let first = t.current_frame + 1 - t.config.window in
    flush_frames-sorted t done.well_formed (omega (arith, same_frame))
    ∙ flat_map-none (t.current_frame + 1 - first) first (get_duplicates t)
        (λ n le lt. flush_frames-taken s n w h (omega arith, omega arith))

-- A flush sends the frames of the whole window, in the order of their numbers and those of one number in
-- the order in which they stand, and a second flush sends nothing; as long as the current frame's number
-- is not the last one of 64 bits.
pub flush_frames_lem :
    (s : SortFrames)
    → WellFormed s
    → s.current_frame + 1 < 2 ^ 64
    → ((flush_frames s).1
        ≡ flat_map
            (λ n. (get_duplicates s n).frames)
            (from
              (s.current_frame + 1 - s.config.window)
              (s.current_frame + 1 - (s.current_frame + 1 - s.config.window))))
      × ((flush_frames (flush_frames s).0).1 ≡ [])
flush_frames_lem s w h = (flush_frames-sorted s w h, flush_frames_twice s w h)
