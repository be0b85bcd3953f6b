-- ===== src/FrameSearch/Once.antt =====
-- How often a position stands among the queued frames and among those that were sent.
use gr_ccsds.Prelude.{
  ℕ, ◌+◌, ◌-◌, ◌≤◌, ◌<◌, ◌≡◌, refl, ap, ◌∙◌, subst, inl, inr, true, false, Bool, Bool-cases, List,
  [], ◌∷◌, ◌++◌, ok, >>=-eq-ok, ok-injective, All, if-intro, if◌then◌else◌, arith,
}
use gr_ccsds.SyncBuffer.Defs.{SyncBuffer, offset_last_symbol}
use gr_ccsds.FrameSearch.Tasks.{
  Radio, AsmPosition, Config, Header, FrameCopyTask, matches, is_queued, erase, make_task,
  queue_frame_output, data_complete, num_remaining,
}
use gr_ccsds.FrameSearch.Process.{
  pick_smaller, start_frame, copy_symbols, finish_frame, process_task, process_frame_queue,
}
use gr_ccsds.FrameSearch.Search.{queue_secondary}
use gr_ccsds.FrameSearch.Copied.{queue_frame_output-eq-ok}
use gr_ccsds.FrameSearch.Filled.{process_task-intro}

pub matches_sym : (p q : AsmPosition) → matches p q ≡ matches q p
matches_sym p q = ground arith

pub matches_both : (p q r : AsmPosition) → matches p q ≡ true → matches p r ≡ matches q r
matches_both p q r e = ground arith

pub matches_self : (p : AsmPosition) → matches p p ≡ true
matches_self p = ground arith

module _ {R : Radio} where
  -- The number of tasks at the position.
  abbrev pub count : AsmPosition → List (FrameCopyTask R) → ℕ
  count p [] = 0
  count p (t ∷ ts) = (if matches p t.asm_pos then 1 else 0) + count p ts

  pub count-append :
      (p : AsmPosition) (xs ys : List (FrameCopyTask R))
      → count p (xs ++ ys) ≡ count p xs + count p ys
  count-append p [] ys = omega arith
  count-append p (t ∷ ts) ys = omega (arith, count-append p ts ys)

  count-congruent :
      (p q : AsmPosition) (ts : List (FrameCopyTask R))
      → matches p q ≡ true
      → count p ts ≡ count q ts
  count-congruent p q [] e = refl
  count-congruent p q (t ∷ ts) e = rw (matches_both p q t.asm_pos e, count-congruent p q ts e)

  unqueued :
      (info : AsmPosition) (ts : List (FrameCopyTask R))
      → is_queued info ts ≡ false
      → count info ts ≡ 0
  unfolding is_queued
  unqueued info [] e = refl
  unqueued info (t ∷ ts) e = ground (arith, unqueued info ts)

  count-erase_other :
      (p info : AsmPosition) (ts : List (FrameCopyTask R))
      → matches p info ≡ false
      → count p (erase info ts) ≡ count p ts
  unfolding erase
  count-erase_other p info [] e = refl
  count-erase_other p info (t ∷ ts) e =
      if-intro (λ (us : List (FrameCopyTask R)). count p us ≡ count p (t ∷ ts))
        (matches info t.asm_pos) ts (t ∷ erase info ts)
        (λ same.
          ground (
            arith,
            matches_both info t.asm_pos p same,
            matches_sym t.asm_pos p,
            matches_sym info p,
          ))
        (λ other. omega (arith, count-erase_other p info ts e))

  count-erase :
      (info : AsmPosition) (ts : List (FrameCopyTask R))
      → is_queued info ts ≡ true
      → count info (erase info ts) + 1 ≡ count info ts
  unfolding erase is_queued
  count-erase info [] e = cc
  count-erase info (t ∷ ts) e =
      if-intro (λ (us : List (FrameCopyTask R)). count info us + 1 ≡ count info (t ∷ ts))
        (matches info t.asm_pos) ts (t ∷ erase info ts) (λ same. ground (arith))
        (λ other. ground (arith, count-erase info ts))

  queue_frame_output-other :
      (c : Config) (info : AsmPosition) (primary : Bool) (queue queue' : List (FrameCopyTask R))
      (p : AsmPosition)
      → queue_frame_output c info primary queue ≡ ok queue'
      → matches p info ≡ false
      → count p queue' ≡ count p queue
  queue_frame_output-other c info primary queue queue' p e apart =
      let same = (queue_frame_output-eq-ok c [] info primary queue queue' e).1 in
      let fresh = make_task R c info primary in
      let P = λ (us : List (FrameCopyTask R)). count p us ≡ count p queue in
      subst P same (
        if-intro P (is_queued info queue) _ _
          (λ _.
            if-intro P primary _ queue
              (λ _. ground (
                arith,
                count-append p (erase info queue) (fresh ∷ []),
                count-erase_other p info queue apart,
              ))
              (λ _. refl))
          (λ _. ground (arith, count-append p queue (fresh ∷ []))))

  queue_frame_output-one :
      (c : Config) (info : AsmPosition) (primary : Bool) (queue queue' : List (FrameCopyTask R))
      → queue_frame_output c info primary queue ≡ ok queue'
      → count info queue ≤ 1
      → count info queue' ≤ 1
  queue_frame_output-one c info primary queue queue' e h =
      let same = (queue_frame_output-eq-ok c [] info primary queue queue' e).1 in
      let fresh = make_task R c info primary in
      let P = λ (us : List (FrameCopyTask R)). count info us ≤ 1 in
      subst P same (
        if-intro P (is_queued info queue) _ _
          (λ queued.
            if-intro P primary _ queue
              (λ _. ground (
                arith,
                count-append info (erase info queue) (fresh ∷ []),
                count-erase info queue queued,
                matches_self info,
              ))
              (λ _. h))
          (λ new. ground (
            arith,
            count-append info queue (fresh ∷ []),
            unqueued info queue new,
            matches_self info,
          )))

  -- No position stands twice among the sent and the queued frames, and those that were sent begin
  -- before the bound.
  pub record Once (bound : ℕ) (sent queue : List (FrameCopyTask R)) : Type 0 where
    pub single : (p : AsmPosition) → count p sent + count p queue ≤ 1
    pub before : All (λ t. t.asm_pos.offset < bound) sent

  count-before :
      (bound : ℕ) (info : AsmPosition) (sent : List (FrameCopyTask R))
      → All (λ t. t.asm_pos.offset < bound) sent
      → bound ≤ info.offset
      → count info sent ≡ 0
  count-before bound info [] h late = refl
  count-before bound info (t ∷ ts) h late = ground (arith, h.0, count-before bound info ts h.1 late)

  pub queue_frame_output-Once :
      (c : Config) (bound : ℕ) (info : AsmPosition) (primary : Bool)
      (sent queue queue' : List (FrameCopyTask R))
      → queue_frame_output c info primary queue ≡ ok queue'
      → bound ≤ info.offset
      → Once bound sent queue
      → Once bound sent queue'
  queue_frame_output-Once c bound info primary sent queue queue' e late h = record {
    single = λ p. elim (Bool-cases (matches p info)) [
      | inl same ↦ omega (
        arith,
        count-congruent p info sent same,
        count-congruent p info queue' same,
        count-before bound info sent h.before late,
        queue_frame_output-one c info primary queue queue' e (omega (arith, h.single info)),
      )
      | inr other ↦
          omega (arith, h.single p, queue_frame_output-other c info primary queue queue' p e other)
    ];
    before = h.before;
  }

  pub queue_secondary-Once :
      (c : Config) (bound : ℕ) (infos : List AsmPosition)
      (sent queue queue' : List (FrameCopyTask R))
      → queue_secondary c infos queue ≡ ok queue'
      → All (λ (info : AsmPosition). bound ≤ info.offset) infos
      → Once bound sent queue
      → Once bound sent queue'
  unfolding queue_secondary
  queue_secondary-Once c bound [] sent queue queue' e late h =
      subst (Once bound sent) (ok-injective e) h
  queue_secondary-Once c bound (info ∷ infos) sent queue queue' e late h =
      let (first, queued, others) =
        >>=-eq-ok (queue_frame_output c info false queue) (queue_secondary c infos) e in
      queue_secondary-Once c bound infos sent first queue' others late.1
        (queue_frame_output-Once c bound info false sent queue first queued late.0 h)

  finish_frame-asm_pos : (c : Config) (t : FrameCopyTask R) → (finish_frame c t).asm_pos ≡ t.asm_pos
  finish_frame-asm_pos c t = elim (Bool-cases (data_complete t)) [
    | inl e ↦ rw e refl
    | inr e ↦ rw e refl
  ]

  start_frame-asm_pos :
      (c : Config) (tags : Header R) (b : SyncBuffer R.dsp) (t : FrameCopyTask R)
      → (start_frame c tags b t).asm_pos ≡ t.asm_pos
  start_frame-asm_pos c tags b t =
      if-intro (λ (u : FrameCopyTask R). u.asm_pos ≡ t.asm_pos) _ _ t (λ _. refl) (λ _. refl)

  process_task-asm_pos :
      (c : Config) (tags : Header R) (b : SyncBuffer R.dsp) (t : FrameCopyTask R)
      → (process_task c tags b t).asm_pos ≡ t.asm_pos
  process_task-asm_pos c tags b t =
      let started = start_frame c tags b t in
      let k = pick_smaller (num_remaining t) (offset_last_symbol b + 1 - t.copy_from) in
      process_task-intro c [] (λ (u : FrameCopyTask R). u.asm_pos ≡ t.asm_pos) tags b t refl
        (start_frame-asm_pos c tags b t)
        (λ _ _ _.
          finish_frame-asm_pos c (copy_symbols b k started) ∙ start_frame-asm_pos c tags b t)
        (finish_frame-asm_pos c t)

  -- What is published and what stays.
  pub process_frame_queue-count :
      (c : Config) (tags : Header R) (b : SyncBuffer R.dsp) (queue : List (FrameCopyTask R))
      (p : AsmPosition)
      → (let (stay, send) = process_frame_queue c tags b queue in count p stay + count p send)
        ≡ count p queue
  unfolding process_frame_queue
  process_frame_queue-count c tags b [] p = refl
  process_frame_queue-count c tags b (t ∷ ts) p = ground (
    arith,
    process_frame_queue-count c tags b ts p,
    ap (matches p) (process_task-asm_pos c tags b t),
  )
