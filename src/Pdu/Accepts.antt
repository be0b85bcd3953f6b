-- ===== src/Pdu/Accepts.antt =====
-- What the experiments accept.
use gr_ccsds.Prelude.{
  ℕ, ◌+◌, ◌≡◌, refl, ◌↔◌, some, true, List, [], ◌∷◌, Text, text_eq, ok, >>-eq-ok, length, get_elem?,
  ==_iff, arith,
}
use gr_ccsds.Prelude.Int.{ℤ, pos}
use gr_ccsds.Pdu.Message.{eof, pdu, dict_ref, whole, blob}
use gr_ccsds.Pdu.Experiment.{
  numbered, frame_number, bytes_of, check_message, check_messages, judge, get_message,
}

-- The first of the two lists is the front of the second.
abbrev pub IsFront : List Text → List Text → Type 0
IsFront [] ms = Unit
IsFront (e ∷ es) [] = ⊥
IsFront (e ∷ es) (m ∷ ms) = (e ≡ m) × IsFront es ms

pub text_eq_iff : (s t : Text) → (text_eq s t ≡ true) ↔ (s ≡ t)
text_eq_iff [] [] = (λ h. refl, λ e. refl)
text_eq_iff [] (d ∷ t) = (λ h. cc, λ e. cc)
text_eq_iff (c ∷ s) [] = (λ h. cc, λ e. cc)
text_eq_iff (c ∷ s) (d ∷ t) = ground (arith, text_eq_iff s t)

check_numbered :
    (i : ℕ) (default : ℤ) (e m : Text)
    → (check_message i default e (pdu (("frame_number", whole (pos i)) ∷ []) (blob m)) ≡ ok tt)
      ↔ (e ≡ m)
unfolding check_message frame_number dict_ref bytes_of
check_numbered i default e m = ground (arith, text_eq_iff e m)

check_messages_iff :
    (i : ℕ) (default : ℤ) (es ms : List Text)
    → (check_messages i default es (numbered i ms) ≡ ok tt) ↔ IsFront es ms
unfolding check_messages numbered check_message
check_messages_iff i default [] ms = (λ h. tt, λ h. refl)
check_messages_iff i default (e ∷ es) [] = (
  λ h.
      let (wrong, _) =
        >>-eq-ok (check_message i default e eof) (check_messages (i + 1) default es []) h in
      cc wrong,
  λ h. absurd h,
)
check_messages_iff i default (e ∷ es) (m ∷ ms) =
    let first = check_numbered i default e m in
    let others = check_messages_iff (i + 1) default es ms in
    (
      λ h. let (h₁, h₂) = >>-eq-ok _ _ h in (first.0 h₁, others.0 h₂),
      λ h. rw (first.1 h.0, others.1 h.1) refl,
    )

length-numbered : (i : ℕ) (ms : List Text) → length (numbered i ms) ≡ length ms + 1
unfolding numbered
length-numbered i [] = refl
length-numbered i (m ∷ ms) = omega (arith, length-numbered (i + 1) ms)

last_numbered : (i : ℕ) (ms : List Text) → get_elem? (numbered i ms) (length ms) ≡ some eof
unfolding numbered
last_numbered i [] = refl
last_numbered i (m ∷ ms) = last_numbered (i + 1) ms

last_message : (ms : List Text) → get_message (numbered 0 ms) (length ms) ≡ ok eof
last_message ms = rw (get_message, last_numbered 0 ms) refl

-- Where a block answers each message with one of the same number, and the end of the stream with the
-- end: the tests accept the answers exactly when the expected messages are the first of the answers, all
-- of them or fewer.
pub judge_iff :
    (es answers : List Text)
    → (judge (length answers) es (numbered 0 answers) ≡ ok tt) ↔ IsFront es answers
unfolding judge
judge_iff es answers =
    let count =
      (==_iff (length (numbered 0 answers)) (length answers + 1)).1 (length-numbered 0 answers) in
    let checks = check_messages_iff 0 (pos (length answers + 100)) es answers in
    (
      λ h. checks.0 (rw (count, last_message answers) at h),
      λ h. rw (count, last_message answers) (checks.1 h),
    )
