-- ===== src/ConvEncode/Qa.antt =====
-- python/qa_conv_encode27_bb.py: how its tests run the encoder, and the test cases. The first of two
-- functions named test_asm_r12 is replaced by the second when the class is made.
use gr_ccsds.Prelude.{ℕ, ◌+◌, ◌*◌, [], ◌∷◌, Text, text_eq, Result, length}
use gr_ccsds.Pdu.Experiment.{assert}
use gr_ccsds.ConvEncode.Defs.{
  PunctT, unpunctured, ecss_23, ecss_34, ecss_56, ecss_78, make, general_work,
}

-- runBlock(src_data, exp_data, poly_c1, poly_c2, punct_t), with one call of general_work that has room for
-- all bytes
unfoldable pub run_block : Text → Text → ℕ → ℕ → PunctT → Result (Unit {0})
run_block src_data exp_data poly_c1 poly_c2 punct_t =
    let (_, out, _) =
      general_work (make poly_c1 poly_c2 punct_t) (2 * length src_data + 1) src_data in
    assert (text_eq exp_data out)

abbrev pub test_zeros_r12 : Result (Unit {0})
test_zeros_r12 =
    run_block (0x00 ∷ 0x00 ∷ 0x00 ∷ 0x00 ∷ [])
      (0x55 ∷ 0x55 ∷ 0x55 ∷ 0x55 ∷ 0x55 ∷ 0x55 ∷ 0x55 ∷ 0x55 ∷ []) 0x79 0xDB unpunctured

abbrev pub test_ones_r12 : Result (Unit {0})
test_ones_r12 =
    run_block (0xFF ∷ 0xFF ∷ 0xFF ∷ 0xFF ∷ [])
      (0x8C ∷ 0x1A ∷ 0xAA ∷ 0xAA ∷ 0xAA ∷ 0xAA ∷ 0xAA ∷ 0xAA ∷ []) 0x79 0xDB unpunctured

abbrev pub test_asm_r12_replaced : Result (Unit {0})
test_asm_r12_replaced =
    run_block (0x1A ∷ 0xCF ∷ 0xFC ∷ 0x1D ∷ [])
      (0x56 ∷ 0x08 ∷ 0x1C ∷ 0x97 ∷ 0x1A ∷ 0xA7 ∷ 0x3D ∷ 0x3E ∷ []) 0x79 0xDB unpunctured

abbrev pub test_asm_r12 : Result (Unit {0})
test_asm_r12 =
    run_block
      (0x1A ∷ 0xCF ∷ 0xFC ∷ 0x1D ∷ 0x00 ∷ 0x00 ∷ 0x00 ∷ 0xFF ∷ 0xFF ∷ 0xFF ∷ 0xAA ∷ 0xAA ∷ 0xAA
        ∷ 0x55 ∷ 0x55 ∷ 0x55 ∷ 0x1A ∷ 0xCF ∷ 0xFC ∷ 0x1D ∷ [])
      (0x56 ∷ 0x08 ∷ 0x1C ∷ 0x97 ∷ 0x1A ∷ 0xA7 ∷ 0x3D ∷ 0x3E ∷ 0x42 ∷ 0x25 ∷ 0x55 ∷ 0x55 ∷ 0x55
        ∷ 0x55 ∷ 0x8C ∷ 0x1A ∷ 0xAA ∷ 0xAA ∷ 0xAA ∷ 0xAA ∷ 0x92 ∷ 0xE9 ∷ 0x99 ∷ 0x99 ∷ 0x99 ∷ 0x99
        ∷ 0x40 ∷ 0xD6 ∷ 0x66 ∷ 0x66 ∷ 0x66 ∷ 0x66 ∷ 0x5D ∷ 0x78 ∷ 0x1C ∷ 0x97 ∷ 0x1A ∷ 0xA7 ∷ 0x3D
        ∷ 0x3E ∷ [])
      0x79 0xDB unpunctured

abbrev pub test_zeros_r23 : Result (Unit {0})
test_zeros_r23 =
    run_block (0x00 ∷ 0x00 ∷ 0x00 ∷ 0x00 ∷ []) (0x00 ∷ 0x00 ∷ 0x00 ∷ 0x00 ∷ 0x00 ∷ 0x00 ∷ []) 0x79
      0x5B ecss_23

abbrev pub test_asm_r23 : Result (Unit {0})
test_asm_r23 =
    run_block (0x1A ∷ 0xCF ∷ 0xFC ∷ 0x1D ∷ []) (0x05 ∷ 0xF5 ∷ 0x70 ∷ 0x5F ∷ 0x85 ∷ 0x15 ∷ []) 0x79
      0x5B ecss_23

abbrev pub test_zeros_r34 : Result (Unit {0})
test_zeros_r34 =
    run_block (0x00 ∷ 0x00 ∷ 0x00 ∷ []) (0x00 ∷ 0x00 ∷ 0x00 ∷ 0x00 ∷ []) 0x79 0x5B ecss_34

abbrev pub test_asm_r34 : Result (Unit {0})
test_asm_r34 =
    run_block (0x1A ∷ 0xCF ∷ 0xFC ∷ 0x1D ∷ 0x00 ∷ 0x00 ∷ [])
      (0x0E ∷ 0xE0 ∷ 0xCA ∷ 0xFD ∷ 0x53 ∷ 0xA7 ∷ 0x60 ∷ 0x00 ∷ []) 0x79 0x5B ecss_34

abbrev pub test_zeros_r56 : Result (Unit {0})
test_zeros_r56 =
    run_block (0x00 ∷ 0x00 ∷ 0x00 ∷ 0x00 ∷ 0x00 ∷ []) (0x00 ∷ 0x00 ∷ 0x00 ∷ 0x00 ∷ 0x00 ∷ 0x00 ∷ [])
      0x79 0x5B ecss_56

abbrev pub test_asm_r56 : Result (Unit {0})
test_asm_r56 =
    run_block (0x1A ∷ 0xCF ∷ 0xFC ∷ 0x1D ∷ 0x00 ∷ []) (0x09 ∷ 0xAB ∷ 0x2B ∷ 0xE2 ∷ 0x3A ∷ 0xBC ∷ [])
      0x79 0x5B ecss_56

abbrev pub test_zeros_r78 : Result (Unit {0})
test_zeros_r78 =
    run_block (0x00 ∷ 0x00 ∷ 0x00 ∷ 0x00 ∷ 0x00 ∷ 0x00 ∷ 0x00 ∷ [])
      (0x00 ∷ 0x00 ∷ 0x00 ∷ 0x00 ∷ 0x00 ∷ 0x00 ∷ 0x00 ∷ 0x00 ∷ []) 0x79 0x5B ecss_78

abbrev pub test_asm_r78 : Result (Unit {0})
test_asm_r78 =
    run_block (0x1A ∷ 0xCF ∷ 0xFC ∷ 0x1D ∷ 0x00 ∷ 0x00 ∷ 0x00 ∷ [])
      (0x0B ∷ 0x62 ∷ 0x17 ∷ 0xCC ∷ 0x4A ∷ 0xF0 ∷ 0x00 ∷ 0x00 ∷ []) 0x79 0x5B ecss_78
