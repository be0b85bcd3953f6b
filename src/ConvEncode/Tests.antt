-- ===== src/ConvEncode/Tests.antt =====
-- The tests of python/qa_conv_encode27_bb.py, run on the model, and the theorems at inputs that meet their
-- hypotheses.
use gr_ccsds.Prelude.{◌≤◌, ◌≡◌, refl, [], ◌∷◌, ◌++◌, ok, Text, arith}
use gr_ccsds.Prelude.BitLists.{bits_in}
use gr_ccsds.ConvEncode.Defs.{
  unpunctured, ecss_78, make, general_work, encode_bytes, put_bytes, encode_punct, select_bits,
  puncture_rounds, encode, encode_rounds, taps, run,
}
use gr_ccsds.ConvEncode.Bytes.{held}
use gr_ccsds.ConvEncode.Stream.{ahead}
use gr_ccsds.ConvEncode.Complete.{reference, run-reference, general_work_complete}
use gr_ccsds.ConvEncode.Qa.{
  run_block, test_zeros_r12, test_ones_r12, test_asm_r12_replaced, test_asm_r12, test_zeros_r23,
  test_asm_r23, test_zeros_r34, test_asm_r34, test_zeros_r56, test_asm_r56, test_zeros_r78,
  test_asm_r78,
}

tests_pass :
    (test_zeros_r12 ≡ ok tt)
    × (test_ones_r12 ≡ ok tt)
    × (test_asm_r12_replaced ≡ ok tt)
    × (test_asm_r12 ≡ ok tt)
    × (test_zeros_r23 ≡ ok tt)
    × (test_asm_r23 ≡ ok tt)
    × (test_zeros_r34 ≡ ok tt)
    × (test_asm_r34 ≡ ok tt)
    × (test_zeros_r56 ≡ ok tt)
    × (test_asm_r56 ≡ ok tt)
    × (test_zeros_r78 ≡ ok tt)
    × (test_asm_r78 ≡ ok tt)
unfolding run_block general_work encode_bytes put_bytes encode_punct select_bits puncture_rounds
    encode encode_rounds taps
tests_pass = (refl, refl, refl, refl, refl, refl, refl, refl, refl, refl, refl, refl)

abbrev marker : Text
marker = 0x1A ∷ 0xCF ∷ 0xFC ∷ 0x1D ∷ []

run-reference_example :
    let (e, out, unread) = run (make 0x79 0x5B ecss_78) (1 ∷ 0 ∷ 2 ∷ []) marker in
    bits_in out ++ (held e.buffer e.buffer_count ++ ahead e (bits_in unread))
    ≡ reference 0x79 0x5B ecss_78 marker
run-reference_example = run-reference 0x79 0x5B ecss_78 (1 ∷ 0 ∷ 2 ∷ []) marker (omega arith)

general_work_complete_example :
    let (e, out, unread) = general_work (make 0x79 0xDB unpunctured) 9 marker in
    (unread ≡ [])
    × (bits_in out ++ held e.buffer e.buffer_count ≡ reference 0x79 0xDB unpunctured marker)
    × (e.buffer_count ≤ 7)
general_work_complete_example =
    general_work_complete 0x79 0xDB unpunctured 9 marker (omega arith) (omega arith)
