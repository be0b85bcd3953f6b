-- ===== src/FrameSearch/Standing.antt =====
-- What stands in the queue after a frame has been queued: its position, and every one that stood there.
use gr_ccsds.Prelude.{
  All-imp, ◌≡◌, refl, ◌∙◌, subst, inl, inr, true, false, Bool, Bool-cases, List, [], ◌∷◌, ◌++◌, ok,
  >>=-eq-ok, ok-injective, All, if-intro, arith,
}
use gr_ccsds.FrameSearch.Tasks.{
  Radio, AsmPosition, Config, FrameCopyTask, matches, is_queued, erase, make_task,
  queue_frame_output,
}
use gr_ccsds.FrameSearch.Search.{queue_secondary}
use gr_ccsds.FrameSearch.Copied.{queue_frame_output-eq-ok}
use gr_ccsds.FrameSearch.Once.{matches_both, matches_self, matches_sym}

module _ {R : Radio} where
  -- A frame for the position is in the queue.
  abbrev pub IsQueued : List (FrameCopyTask R) → AsmPosition → Type 0
  IsQueued queue p = is_queued p queue ≡ true

  is_queued-same :
      (p q : AsmPosition) (ts : List (FrameCopyTask R))
      → matches p q ≡ true
      → is_queued p ts ≡ is_queued q ts
  unfolding is_queued
  is_queued-same p q [] e = refl
  is_queued-same p q (t ∷ ts) e = rw (matches_both p q t.asm_pos e, is_queued-same p q ts e) refl

  IsQueued-front :
      (p : AsmPosition) (ts us : List (FrameCopyTask R)) → IsQueued ts p → IsQueued (ts ++ us) p
  unfolding is_queued
  IsQueued-front p [] us h = cc
  IsQueued-front p (t ∷ ts) us h = ground (arith, IsQueued-front p ts us)

  IsQueued-last :
      (p : AsmPosition) (ts : List (FrameCopyTask R)) (t : FrameCopyTask R)
      → matches p t.asm_pos ≡ true
      → IsQueued (ts ++ t ∷ []) p
  unfolding is_queued
  IsQueued-last p [] t e = rw e refl
  IsQueued-last p (u ∷ ts) t e = ground (arith, IsQueued-last p ts t e)

  IsQueued-erase :
      (p info : AsmPosition) (ts : List (FrameCopyTask R))
      → matches p info ≡ false
      → IsQueued ts p
      → IsQueued (erase info ts) p
  unfolding is_queued erase
  IsQueued-erase p info [] e h = cc
  IsQueued-erase p info (t ∷ ts) e h =
      if-intro (λ (us : List (FrameCopyTask R)). IsQueued us p) (matches info t.asm_pos) ts
        (t ∷ erase info ts)
        (λ same.
          ground (
            arith,
            matches_both info t.asm_pos p same,
            matches_sym t.asm_pos p,
            matches_sym info p,
          ))
        (λ other. ground (arith, IsQueued-erase p info ts e))

  pub queue_frame_output-IsQueued :
      (c : Config) (info : AsmPosition) (primary : Bool) (queue queue' : List (FrameCopyTask R))
      → queue_frame_output c info primary queue ≡ ok queue'
      → IsQueued queue' info
  queue_frame_output-IsQueued c info primary queue queue' e =
      let same = (queue_frame_output-eq-ok c [] info primary queue queue' e).1 in
      let fresh = make_task R c info primary in
      let P = λ (us : List (FrameCopyTask R)). IsQueued us info in
      subst P same (
        if-intro P (is_queued info queue) _ _
          (λ queued.
            if-intro P primary _ queue
              (λ _. IsQueued-last info (erase info queue) fresh (matches_self info)) (λ _. queued))
          (λ _. IsQueued-last info queue fresh (matches_self info)))

  pub queue_frame_output-kept :
      (c : Config) (info : AsmPosition) (primary : Bool) (queue queue' : List (FrameCopyTask R))
      (p : AsmPosition)
      → queue_frame_output c info primary queue ≡ ok queue'
      → IsQueued queue p
      → IsQueued queue' p
  queue_frame_output-kept c info primary queue queue' p e h =
      let same = (queue_frame_output-eq-ok c [] info primary queue queue' e).1 in
      let fresh = make_task R c info primary ∷ [] in
      let P = λ (us : List (FrameCopyTask R)). IsQueued us p in
      elim (Bool-cases (matches p info)) [
        | inl at ↦
            is_queued-same p info queue' at
            ∙ queue_frame_output-IsQueued c info primary queue queue' e
        | inr apart ↦ subst P same (
            if-intro P (is_queued info queue) _ _
              (λ _.
                if-intro P primary _ queue
                  (λ _.
                    IsQueued-front p (erase info queue) fresh (IsQueued-erase p info queue apart h))
                  (λ _. h))
              (λ _. IsQueued-front p queue fresh h))
      ]

  pub queue_secondary-kept :
      (c : Config) (infos : List AsmPosition) (queue queue' : List (FrameCopyTask R))
      (p : AsmPosition)
      → queue_secondary c infos queue ≡ ok queue'
      → IsQueued queue p
      → IsQueued queue' p
  unfolding queue_secondary
  queue_secondary-kept c [] queue queue' p e h =
      subst (λ (us : List (FrameCopyTask R)). IsQueued us p) (ok-injective e) h
  queue_secondary-kept c (info ∷ infos) queue queue' p e h =
      let (first, queued, others) =
        >>=-eq-ok (queue_frame_output c info false queue) (queue_secondary c infos) e in
      queue_secondary-kept c infos first queue' p others
        (queue_frame_output-kept c info false queue first p queued h)

  pub queue_secondary-IsQueued :
      (c : Config) (infos : List AsmPosition) (queue queue' : List (FrameCopyTask R))
      → queue_secondary c infos queue ≡ ok queue'
      → All (IsQueued queue') infos
  unfolding queue_secondary
  queue_secondary-IsQueued c [] queue queue' e = tt
  queue_secondary-IsQueued c (info ∷ infos) queue queue' e =
      let (first, queued, others) =
        >>=-eq-ok (queue_frame_output c info false queue) (queue_secondary c infos) e in
      (
        queue_secondary-kept c infos first queue' info others
            (queue_frame_output-IsQueued c info false queue first queued),
        queue_secondary-IsQueued c infos first queue' others,
      )

  -- Each frame of a queue is queued in it.
  pub members-IsQueued :
      (queue : List (FrameCopyTask R)) → All (λ t. IsQueued queue t.asm_pos) queue
  unfolding is_queued
  members-IsQueued [] = tt
  members-IsQueued (t ∷ ts) = (
    ground (arith, matches_self t.asm_pos),
    All-imp ts (λ u h. ground (arith, h)) (members-IsQueued ts),
  )
