-- ===== src/SortFrames/Qa.antt =====
-- python/qa_sort_frames.py: how its tests run the block and compare what it sends with what they expect.
-- An exception in the block counts as the failure of the test.
use gr_ccsds.Prelude.{
  ℕ, Option, none, some, Bool, true, false, ◌&&◌, List, [], ◌∷◌, String, map, Text, text_eq, Result,
  ok, err, assertion_error, runtime_error, ◌>>=◌, ◌>>◌, length, ◌==◌, ◌++◌,
}
use gr_ccsds.Prelude.Int.{ℤ, pos, eq_ℤ, ◌*ℤ◌}
use gr_ccsds.Pdu.Message.{
  Field, whole, thousandths, flag, word, Header, Payload, values, Message, eof, no_dict, pdu,
  dict_ref,
}
use gr_ccsds.Pdu.Experiment.{assert, is_eof}
use gr_ccsds.SortFrames.Defs.{Config, make, store_frames}

-- pdu(payload, asm_number = number, asm_score = score), with the score in thousandths
abbrev pub frame : Text → ℕ → ℕ → Message
frame payload number score =
    pdu (("asm_number", whole (pos number)) ∷ ("asm_score", thousandths (pos score)) ∷ [])
      (values payload)

-- The numbers by which Python compares numbers of different types.
abbrev numeral : Field → Option ℤ
numeral (whole n) = some (n *ℤ pos 1000)
numeral (thousandths n) = some n
numeral (flag true) = some (pos 1000)
numeral (flag false) = some (pos 0)
numeral (word s) = none

-- a == b
unfoldable pub field_eq : Field → Field → Bool
field_eq (word s) (word t) = text_eq s t
field_eq a b = elim (numeral a) [
  | none ↦ false
  | some x ↦ elim (numeral b) [ none ↦ false | some y ↦ eq_ℤ x y ]
]

abbrev pub keys : Header → List String
keys h = map (λ entry. entry.0) h

abbrev pub has_key : Header → String → Bool
has_key h k = elim (dict_ref h k) [ none ↦ false | some v ↦ true ]

-- expected_keys <= computed_keys
unfoldable pub keys_within : List String → Header → Bool
keys_within [] h = true
keys_within (k ∷ ks) h = has_key h k && keys_within ks h

abbrev pub entry_eq : Header → Header → String → Bool
entry_eq expected computed k = elim (dict_ref expected k) [
  | none ↦ false
  | some v ↦ elim (dict_ref computed k) [ none ↦ false | some w ↦ field_eq v w ]
]

-- The loop over the expected keys.
unfoldable pub compare_entries : List String → Header → Header → Result (Unit {0})
compare_entries [] expected computed = ok tt
compare_entries (k ∷ ks) expected computed = do
  assert (entry_eq expected computed k)
  compare_entries ks expected computed

unfoldable pub compare_headers : Header → Header → Result (Unit {0})
compare_headers expected computed = do
  assert (keys_within (keys expected) computed)
  assert (keys_within (keys computed) expected)
  compare_entries (keys expected) expected computed

-- The loop over the items, as many as are expected.
unfoldable pub compare_items : Text → Text → Result (Unit {0})
compare_items [] computed = ok tt
compare_items (x ∷ xs) [] = err runtime_error
compare_items (x ∷ xs) (y ∷ ys) = do assert (x == y); compare_items xs ys

unfoldable pub compare_payload : Payload → Payload → Result (Unit {0})
compare_payload (values xs) (values ys) = do assert (length ys == length xs); compare_items xs ys
compare_payload expected computed = err assertion_error

-- One round of the loop over both lists: car and cdr of a value that is no pair raise, and so does the
-- end of the stream, which is no pair either.
unfoldable pub compare_message : Message → Message → Result (Unit {0})
compare_message (pdu h p) (pdu g q) = compare_headers h g >> compare_payload p q
compare_message (no_dict p) (pdu g q) = err assertion_error
compare_message (pdu h p) (no_dict q) = err assertion_error
compare_message (no_dict p) (no_dict q) = err assertion_error
compare_message expected computed = err runtime_error

-- The loop, as far as both lists go.
unfoldable pub compare_messages : List Message → List Message → Result (Unit {0})
compare_messages (e ∷ es) (c ∷ cs) = do compare_message e c; compare_messages es cs
compare_messages es cs = ok tt

-- All messages but the last, and the last one; none where there is no message.
unfoldable pub split_last : List Message → Option (List Message × Message)
split_last [] = none
split_last (m ∷ ms) = elim (split_last ms) [
  | none ↦ some ([], m)
  | some (front, last) ↦ some (m ∷ front, last)
]

-- The waiting loop gives up when the end of the stream does not come last.
unfoldable pub frames_computed : List Message → Result (List Message)
frames_computed stored = elim (split_last stored) [
  | none ↦ err assertion_error
  | some (front, last) ↦ assert (is_eof last) >> ok front
]

-- run_test(window_size, ..., frames_in, frames_expected)
unfoldable pub run_test : Config → List Message → List Message → Result (Unit {0})
run_test c frames_in frames_expected = do
  (s, stored) ← store_frames (make c) (frames_in ++ eof ∷ [])
  computed ← frames_computed stored
  compare_messages frames_expected computed
  assert (length frames_expected == length computed)
