-- ===== src/SortFrames/Cases.antt =====
-- The tests of python/qa_sort_frames.py.
use gr_ccsds.Prelude.{true, false, [], ◌∷◌, Result}
use gr_ccsds.SortFrames.Defs.{make_config}
use gr_ccsds.SortFrames.Qa.{frame, run_test}

abbrev pub test_001_t : Result (Unit {0})
test_001_t =
    run_test (make_config 5 true "asm_number" "asm_score" true)
      (frame (0x00 ∷ 0xAA ∷ 0x01 ∷ 0xFF ∷ []) 1 500
        ∷ frame (0x01 ∷ 0xAA ∷ 0x01 ∷ 0xFF ∷ []) 2 500
        ∷ frame (0x02 ∷ 0xAA ∷ 0x01 ∷ 0xFF ∷ []) 3 500
        ∷ frame (0x03 ∷ 0xAA ∷ 0x01 ∷ 0xFF ∷ []) 4 500
        ∷ frame (0x00 ∷ 0xFF ∷ 0x02 ∷ 0x00 ∷ []) 1 1500
        ∷ frame (0x01 ∷ 0xFF ∷ 0x02 ∷ 0x00 ∷ []) 2 1500
        ∷ frame (0x02 ∷ 0xFF ∷ 0x02 ∷ 0x00 ∷ []) 3 1500
        ∷ frame (0x03 ∷ 0xFF ∷ 0x02 ∷ 0x00 ∷ []) 4 1500
        ∷ [])
      (frame (0x00 ∷ 0xAA ∷ 0x01 ∷ 0xFF ∷ []) 1 500
        ∷ frame (0x00 ∷ 0xFF ∷ 0x02 ∷ 0x00 ∷ []) 1 1500
        ∷ frame (0x01 ∷ 0xAA ∷ 0x01 ∷ 0xFF ∷ []) 2 500
        ∷ frame (0x01 ∷ 0xFF ∷ 0x02 ∷ 0x00 ∷ []) 2 1500
        ∷ frame (0x02 ∷ 0xAA ∷ 0x01 ∷ 0xFF ∷ []) 3 500
        ∷ frame (0x02 ∷ 0xFF ∷ 0x02 ∷ 0x00 ∷ []) 3 1500
        ∷ frame (0x03 ∷ 0xAA ∷ 0x01 ∷ 0xFF ∷ []) 4 500
        ∷ frame (0x03 ∷ 0xFF ∷ 0x02 ∷ 0x00 ∷ []) 4 1500
        ∷ [])

abbrev pub test_002_t : Result (Unit {0})
test_002_t =
    run_test (make_config 5 false "asm_number" "asm_score" true)
      (frame (0x00 ∷ 0xAA ∷ 0x01 ∷ 0xFF ∷ []) 1 500
        ∷ frame (0x01 ∷ 0xAA ∷ 0x01 ∷ 0xFF ∷ []) 2 500
        ∷ frame (0x02 ∷ 0xAA ∷ 0x01 ∷ 0xFF ∷ []) 3 500
        ∷ frame (0x03 ∷ 0xAA ∷ 0x01 ∷ 0xFF ∷ []) 4 500
        ∷ frame (0x00 ∷ 0xFF ∷ 0x02 ∷ 0x00 ∷ []) 1 1500
        ∷ frame (0x01 ∷ 0xFF ∷ 0x02 ∷ 0x00 ∷ []) 2 1500
        ∷ frame (0x02 ∷ 0xFF ∷ 0x02 ∷ 0x00 ∷ []) 3 1500
        ∷ frame (0x03 ∷ 0xFF ∷ 0x02 ∷ 0x00 ∷ []) 4 1500
        ∷ [])
      (frame (0x00 ∷ 0xFF ∷ 0x02 ∷ 0x00 ∷ []) 1 1500
        ∷ frame (0x01 ∷ 0xFF ∷ 0x02 ∷ 0x00 ∷ []) 2 1500
        ∷ frame (0x02 ∷ 0xFF ∷ 0x02 ∷ 0x00 ∷ []) 3 1500
        ∷ frame (0x03 ∷ 0xFF ∷ 0x02 ∷ 0x00 ∷ []) 4 1500
        ∷ [])

abbrev pub test_003_t : Result (Unit {0})
test_003_t =
    run_test (make_config 5 false "asm_number" "asm_score" false)
      (frame (0x00 ∷ 0xAA ∷ 0x01 ∷ 0xFF ∷ []) 1 500
        ∷ frame (0x01 ∷ 0xAA ∷ 0x01 ∷ 0xFF ∷ []) 2 500
        ∷ frame (0x02 ∷ 0xAA ∷ 0x01 ∷ 0xFF ∷ []) 3 500
        ∷ frame (0x03 ∷ 0xAA ∷ 0x01 ∷ 0xFF ∷ []) 4 500
        ∷ frame (0x00 ∷ 0xFF ∷ 0x02 ∷ 0x00 ∷ []) 1 1500
        ∷ frame (0x01 ∷ 0xFF ∷ 0x02 ∷ 0x00 ∷ []) 2 1500
        ∷ frame (0x02 ∷ 0xFF ∷ 0x02 ∷ 0x00 ∷ []) 3 1500
        ∷ frame (0x03 ∷ 0xFF ∷ 0x02 ∷ 0x00 ∷ []) 4 1500
        ∷ [])
      (frame (0x00 ∷ 0xAA ∷ 0x01 ∷ 0xFF ∷ []) 1 500
        ∷ frame (0x01 ∷ 0xAA ∷ 0x01 ∷ 0xFF ∷ []) 2 500
        ∷ frame (0x02 ∷ 0xAA ∷ 0x01 ∷ 0xFF ∷ []) 3 500
        ∷ frame (0x03 ∷ 0xAA ∷ 0x01 ∷ 0xFF ∷ []) 4 500
        ∷ [])

abbrev pub test_004_t : Result (Unit {0})
test_004_t =
    run_test (make_config 5 false "asm_number" "" true)
      (frame (0x00 ∷ 0xAA ∷ 0x01 ∷ 0xFF ∷ []) 1 500
        ∷ frame (0x01 ∷ 0xAA ∷ 0x01 ∷ 0xFF ∷ []) 2 500
        ∷ frame (0x02 ∷ 0xAA ∷ 0x01 ∷ 0xFF ∷ []) 3 500
        ∷ frame (0x02 ∷ 0xFF ∷ 0x02 ∷ 0x00 ∷ []) 3 1500
        ∷ frame (0x03 ∷ 0xFF ∷ 0x02 ∷ 0x00 ∷ []) 4 1500
        ∷ frame (0x03 ∷ 0xAA ∷ 0x01 ∷ 0xFF ∷ []) 4 500
        ∷ frame (0x00 ∷ 0xFF ∷ 0x02 ∷ 0x00 ∷ []) 1 1500
        ∷ frame (0x01 ∷ 0xFF ∷ 0x02 ∷ 0x00 ∷ []) 2 1500
        ∷ [])
      (frame (0x00 ∷ 0xFF ∷ 0x02 ∷ 0x00 ∷ []) 1 1500
        ∷ frame (0x01 ∷ 0xFF ∷ 0x02 ∷ 0x00 ∷ []) 2 1500
        ∷ frame (0x02 ∷ 0xFF ∷ 0x02 ∷ 0x00 ∷ []) 3 1500
        ∷ frame (0x03 ∷ 0xAA ∷ 0x01 ∷ 0xFF ∷ []) 4 500
        ∷ [])

-- This test is defined twice in the class, which keeps the second definition.
abbrev pub test_005_replaced : Result (Unit {0})
test_005_replaced =
    run_test (make_config 5 false "asm_number" "" false)
      (frame (0x00 ∷ 0xAA ∷ 0x01 ∷ 0xFF ∷ []) 1 500
        ∷ frame (0x01 ∷ 0xAA ∷ 0x01 ∷ 0xFF ∷ []) 2 500
        ∷ frame (0x02 ∷ 0xAA ∷ 0x01 ∷ 0xFF ∷ []) 3 500
        ∷ frame (0x02 ∷ 0xFF ∷ 0x02 ∷ 0x00 ∷ []) 3 1500
        ∷ frame (0x03 ∷ 0xFF ∷ 0x02 ∷ 0x00 ∷ []) 4 1500
        ∷ frame (0x03 ∷ 0xAA ∷ 0x01 ∷ 0xFF ∷ []) 4 500
        ∷ frame (0x00 ∷ 0xFF ∷ 0x02 ∷ 0x00 ∷ []) 1 1500
        ∷ frame (0x01 ∷ 0xFF ∷ 0x02 ∷ 0x00 ∷ []) 2 1500
        ∷ [])
      (frame (0x00 ∷ 0xAA ∷ 0x01 ∷ 0xFF ∷ []) 1 500
        ∷ frame (0x01 ∷ 0xAA ∷ 0x01 ∷ 0xFF ∷ []) 2 500
        ∷ frame (0x02 ∷ 0xAA ∷ 0x01 ∷ 0xFF ∷ []) 3 500
        ∷ frame (0x03 ∷ 0xFF ∷ 0x02 ∷ 0x00 ∷ []) 4 1500
        ∷ [])

abbrev pub test_005_t : Result (Unit {0})
test_005_t =
    run_test (make_config 5 false "asm_number" "asm_score" true)
      (frame (0x00 ∷ 0xAA ∷ 0x01 ∷ 0xFF ∷ []) 1 500
        ∷ frame (0x02 ∷ 0xAA ∷ 0x01 ∷ 0xFF ∷ []) 3 500
        ∷ frame (0x02 ∷ 0xFF ∷ 0x02 ∷ 0x00 ∷ []) 3 1500
        ∷ frame (0x03 ∷ 0xFF ∷ 0x02 ∷ 0x00 ∷ []) 4 1500
        ∷ frame (0x03 ∷ 0xAA ∷ 0x01 ∷ 0xFF ∷ []) 4 500
        ∷ frame (0x00 ∷ 0xFF ∷ 0x02 ∷ 0x00 ∷ []) 1 1500
        ∷ frame (0x03 ∷ 0xFF ∷ 0x03 ∷ 0x00 ∷ []) 4 4500
        ∷ frame (0x00 ∷ 0xFF ∷ 0x03 ∷ 0x00 ∷ []) 1 2500
        ∷ frame (0x00 ∷ 0xFF ∷ 0x04 ∷ 0x00 ∷ []) 1 200
        ∷ [])
      (frame (0x00 ∷ 0xFF ∷ 0x03 ∷ 0x00 ∷ []) 1 2500
        ∷ frame (0x02 ∷ 0xFF ∷ 0x02 ∷ 0x00 ∷ []) 3 1500
        ∷ frame (0x03 ∷ 0xFF ∷ 0x03 ∷ 0x00 ∷ []) 4 4500
        ∷ [])

abbrev pub test_006_t : Result (Unit {0})
test_006_t =
    run_test (make_config 5 false "asm_number" "asm_score" false)
      (frame (0x00 ∷ 0xAA ∷ 0x01 ∷ 0xFF ∷ []) 1 500
        ∷ frame (0x02 ∷ 0xAA ∷ 0x01 ∷ 0xFF ∷ []) 3 500
        ∷ frame (0x02 ∷ 0xFF ∷ 0x02 ∷ 0x00 ∷ []) 3 1500
        ∷ frame (0x03 ∷ 0xFF ∷ 0x02 ∷ 0x00 ∷ []) 4 1500
        ∷ frame (0x03 ∷ 0xAA ∷ 0x01 ∷ 0xFF ∷ []) 4 500
        ∷ frame (0x00 ∷ 0xFF ∷ 0x02 ∷ 0x00 ∷ []) 1 1500
        ∷ frame (0x03 ∷ 0xFF ∷ 0x03 ∷ 0x00 ∷ []) 4 4500
        ∷ frame (0x00 ∷ 0xFF ∷ 0x03 ∷ 0x00 ∷ []) 1 2500
        ∷ frame (0x00 ∷ 0xFF ∷ 0x04 ∷ 0x00 ∷ []) 1 200
        ∷ [])
      (frame (0x00 ∷ 0xFF ∷ 0x04 ∷ 0x00 ∷ []) 1 200
        ∷ frame (0x02 ∷ 0xAA ∷ 0x01 ∷ 0xFF ∷ []) 3 500
        ∷ frame (0x03 ∷ 0xAA ∷ 0x01 ∷ 0xFF ∷ []) 4 500
        ∷ [])

abbrev pub test_007_t : Result (Unit {0})
test_007_t =
    run_test (make_config 5 false "asm_number" "" true)
      (frame (0x00 ∷ 0xAA ∷ 0x01 ∷ 0xFF ∷ []) 1 500
        ∷ frame (0x02 ∷ 0xAA ∷ 0x01 ∷ 0xFF ∷ []) 3 500
        ∷ frame (0x02 ∷ 0xFF ∷ 0x02 ∷ 0x00 ∷ []) 3 1500
        ∷ frame (0x03 ∷ 0xFF ∷ 0x02 ∷ 0x00 ∷ []) 4 1500
        ∷ frame (0x03 ∷ 0xAA ∷ 0x01 ∷ 0xFF ∷ []) 4 500
        ∷ frame (0x00 ∷ 0xFF ∷ 0x02 ∷ 0x00 ∷ []) 1 1500
        ∷ frame (0x03 ∷ 0xFF ∷ 0x03 ∷ 0x00 ∷ []) 4 4500
        ∷ frame (0x00 ∷ 0xFF ∷ 0x03 ∷ 0x00 ∷ []) 1 2500
        ∷ frame (0x00 ∷ 0xFF ∷ 0x04 ∷ 0x00 ∷ []) 1 200
        ∷ [])
      (frame (0x00 ∷ 0xFF ∷ 0x04 ∷ 0x00 ∷ []) 1 200
        ∷ frame (0x02 ∷ 0xFF ∷ 0x02 ∷ 0x00 ∷ []) 3 1500
        ∷ frame (0x03 ∷ 0xFF ∷ 0x03 ∷ 0x00 ∷ []) 4 4500
        ∷ [])

abbrev pub test_008_t : Result (Unit {0})
test_008_t =
    run_test (make_config 5 false "asm_number" "" false)
      (frame (0x00 ∷ 0xAA ∷ 0x01 ∷ 0xFF ∷ []) 1 500
        ∷ frame (0x02 ∷ 0xAA ∷ 0x01 ∷ 0xFF ∷ []) 3 500
        ∷ frame (0x02 ∷ 0xFF ∷ 0x02 ∷ 0x00 ∷ []) 3 1500
        ∷ frame (0x03 ∷ 0xFF ∷ 0x02 ∷ 0x00 ∷ []) 4 1500
        ∷ frame (0x03 ∷ 0xAA ∷ 0x01 ∷ 0xFF ∷ []) 4 500
        ∷ frame (0x00 ∷ 0xFF ∷ 0x02 ∷ 0x00 ∷ []) 1 1500
        ∷ frame (0x03 ∷ 0xFF ∷ 0x03 ∷ 0x00 ∷ []) 4 4500
        ∷ frame (0x00 ∷ 0xFF ∷ 0x03 ∷ 0x00 ∷ []) 1 2500
        ∷ frame (0x00 ∷ 0xFF ∷ 0x04 ∷ 0x00 ∷ []) 1 200
        ∷ [])
      (frame (0x00 ∷ 0xAA ∷ 0x01 ∷ 0xFF ∷ []) 1 500
        ∷ frame (0x02 ∷ 0xAA ∷ 0x01 ∷ 0xFF ∷ []) 3 500
        ∷ frame (0x03 ∷ 0xFF ∷ 0x02 ∷ 0x00 ∷ []) 4 1500
        ∷ [])

abbrev pub test_009_t : Result (Unit {0})
test_009_t =
    run_test (make_config 5 true "asm_number" "" false)
      (frame (0x00 ∷ 0xAA ∷ 0x01 ∷ 0xFF ∷ []) 1 500
        ∷ frame (0x02 ∷ 0xAA ∷ 0x01 ∷ 0xFF ∷ []) 3 500
        ∷ frame (0x02 ∷ 0xFF ∷ 0x02 ∷ 0x00 ∷ []) 3 1500
        ∷ frame (0x03 ∷ 0xFF ∷ 0x02 ∷ 0x00 ∷ []) 4 1500
        ∷ frame (0x03 ∷ 0xAA ∷ 0x01 ∷ 0xFF ∷ []) 4 500
        ∷ frame (0x00 ∷ 0xFF ∷ 0x02 ∷ 0x00 ∷ []) 1 1500
        ∷ frame (0x03 ∷ 0xFF ∷ 0x03 ∷ 0x00 ∷ []) 4 4500
        ∷ frame (0x00 ∷ 0xFF ∷ 0x03 ∷ 0x00 ∷ []) 1 2500
        ∷ frame (0x00 ∷ 0xFF ∷ 0x04 ∷ 0x00 ∷ []) 1 200
        ∷ [])
      (frame (0x00 ∷ 0xAA ∷ 0x01 ∷ 0xFF ∷ []) 1 500
        ∷ frame (0x00 ∷ 0xFF ∷ 0x02 ∷ 0x00 ∷ []) 1 1500
        ∷ frame (0x00 ∷ 0xFF ∷ 0x03 ∷ 0x00 ∷ []) 1 2500
        ∷ frame (0x00 ∷ 0xFF ∷ 0x04 ∷ 0x00 ∷ []) 1 200
        ∷ frame (0x02 ∷ 0xAA ∷ 0x01 ∷ 0xFF ∷ []) 3 500
        ∷ frame (0x02 ∷ 0xFF ∷ 0x02 ∷ 0x00 ∷ []) 3 1500
        ∷ frame (0x03 ∷ 0xFF ∷ 0x02 ∷ 0x00 ∷ []) 4 1500
        ∷ frame (0x03 ∷ 0xAA ∷ 0x01 ∷ 0xFF ∷ []) 4 500
        ∷ frame (0x03 ∷ 0xFF ∷ 0x03 ∷ 0x00 ∷ []) 4 4500
        ∷ [])
