-- ===== src/SoftBits/Cases.antt =====
-- The tests of python/qa_soft_to_hard_message.py, python/qa_softbits_msg_to_bytes_b.py and
-- python/qa_byte_to_softbits_bf.py.
use gr_ccsds.Prelude.{Bool, true, List, [], ◌∷◌, Result}
use gr_ccsds.Prelude.Int.{ℤ, pos, negsuc}
use gr_ccsds.Pdu.Message.{whole, thousandths, flag}
use gr_ccsds.SoftBits.Qa.{run_convert_test, run_queue_test, run_softbits_test}

abbrev pub convert_test_001_t : Result (Unit {0})
convert_test_001_t =
    run_convert_test (([]) ∷ [])
      ((negsuc 999
          ∷ negsuc 899
          ∷ negsuc 799
          ∷ negsuc 699
          ∷ negsuc 599
          ∷ negsuc 499
          ∷ negsuc 399
          ∷ negsuc 299
          ∷ negsuc 199
          ∷ negsuc 99
          ∷ negsuc 9
          ∷ pos 10
          ∷ pos 100
          ∷ pos 200
          ∷ pos 300
          ∷ pos 400
          ∷ pos 500
          ∷ pos 600
          ∷ pos 700
          ∷ pos 800
          ∷ pos 900
          ∷ pos 1000
          ∷ pos 1000
          ∷ pos 1000
          ∷ [])
        ∷ [])
      ((0x00 ∷ 0x1F ∷ 0xFF ∷ []) ∷ [])

abbrev pub convert_test_002_t : Result (Unit {0})
convert_test_002_t =
    run_convert_test
      ((("frame_number", whole (pos 0))
          ∷ ("some_float", thousandths (pos 1230))
          ∷ ("some_flag", flag true)
          ∷ ("some_int", whole (pos 1234567890))
          ∷ [])
        ∷ (("frame_number", whole (pos 1))
            ∷ ("some_float", thousandths (pos 1240))
            ∷ ("some_flag", flag true)
            ∷ ("some_int", whole (pos 123456789012))
            ∷ [])
        ∷ (("frame_number", whole (pos 2))
            ∷ ("some_float", thousandths (pos 1250))
            ∷ ("some_flag", flag true)
            ∷ ("some_int", whole (pos 12345678901234))
            ∷ [])
        ∷ (("frame_number", whole (pos 3))
            ∷ ("some_float", thousandths (pos 1260))
            ∷ ("some_flag", flag true)
            ∷ ("some_int", whole (pos 123456789056))
            ∷ [])
        ∷ [])
      ((negsuc 799
          ∷ negsuc 799
          ∷ negsuc 799
          ∷ negsuc 799
          ∷ negsuc 799
          ∷ negsuc 799
          ∷ negsuc 799
          ∷ negsuc 799
          ∷ pos 800
          ∷ pos 800
          ∷ pos 800
          ∷ pos 800
          ∷ pos 800
          ∷ pos 800
          ∷ pos 800
          ∷ pos 800
          ∷ negsuc 799
          ∷ pos 800
          ∷ negsuc 799
          ∷ pos 800
          ∷ negsuc 799
          ∷ pos 800
          ∷ negsuc 799
          ∷ pos 800
          ∷ [])
        ∷ (pos 800
            ∷ negsuc 799
            ∷ pos 800
            ∷ negsuc 799
            ∷ pos 800
            ∷ negsuc 799
            ∷ pos 800
            ∷ negsuc 799
            ∷ negsuc 799
            ∷ negsuc 799
            ∷ pos 800
            ∷ pos 800
            ∷ pos 800
            ∷ negsuc 799
            ∷ negsuc 799
            ∷ pos 800
            ∷ pos 800
            ∷ pos 800
            ∷ negsuc 799
            ∷ negsuc 799
            ∷ negsuc 799
            ∷ negsuc 799
            ∷ negsuc 799
            ∷ pos 800
            ∷ [])
        ∷ (negsuc 799
            ∷ negsuc 799
            ∷ negsuc 799
            ∷ negsuc 799
            ∷ pos 800
            ∷ pos 800
            ∷ pos 800
            ∷ pos 800
            ∷ pos 800
            ∷ pos 800
            ∷ negsuc 799
            ∷ negsuc 799
            ∷ negsuc 799
            ∷ negsuc 799
            ∷ pos 800
            ∷ pos 800
            ∷ negsuc 799
            ∷ negsuc 799
            ∷ pos 800
            ∷ pos 800
            ∷ negsuc 799
            ∷ negsuc 799
            ∷ pos 800
            ∷ pos 800
            ∷ [])
        ∷ (pos 800
            ∷ pos 800
            ∷ negsuc 799
            ∷ negsuc 799
            ∷ pos 800
            ∷ pos 800
            ∷ negsuc 799
            ∷ negsuc 799
            ∷ negsuc 799
            ∷ negsuc 799
            ∷ pos 800
            ∷ pos 800
            ∷ negsuc 799
            ∷ negsuc 799
            ∷ pos 800
            ∷ pos 800
            ∷ negsuc 799
            ∷ pos 800
            ∷ pos 800
            ∷ negsuc 799
            ∷ pos 800
            ∷ negsuc 799
            ∷ negsuc 799
            ∷ pos 800
            ∷ [])
        ∷ [])
      ((0x00 ∷ 0xFF ∷ 0x55 ∷ [])
        ∷ (0xAA ∷ 0x39 ∷ 0xC1 ∷ [])
        ∷ (0x0F ∷ 0xC3 ∷ 0x33 ∷ [])
        ∷ (0xCC ∷ 0x33 ∷ 0x69 ∷ [])
        ∷ [])

abbrev pub test_eof : Result (Unit {0})
test_eof = run_queue_test ([]) ([])

abbrev pub test_one_small : Result (Unit {0})
test_one_small =
    run_queue_test
      ((negsuc 999
          ∷ negsuc 999
          ∷ negsuc 999
          ∷ negsuc 999
          ∷ negsuc 999
          ∷ negsuc 999
          ∷ negsuc 999
          ∷ negsuc 999
          ∷ negsuc 999
          ∷ negsuc 999
          ∷ negsuc 999
          ∷ negsuc 999
          ∷ negsuc 999
          ∷ negsuc 999
          ∷ negsuc 999
          ∷ negsuc 999
          ∷ pos 1000
          ∷ pos 1000
          ∷ pos 1000
          ∷ pos 1000
          ∷ pos 1000
          ∷ pos 1000
          ∷ pos 1000
          ∷ pos 1000
          ∷ pos 1000
          ∷ negsuc 999
          ∷ negsuc 999
          ∷ negsuc 999
          ∷ negsuc 999
          ∷ negsuc 999
          ∷ negsuc 999
          ∷ negsuc 999
          ∷ negsuc 999
          ∷ negsuc 999
          ∷ negsuc 999
          ∷ negsuc 999
          ∷ negsuc 999
          ∷ negsuc 999
          ∷ negsuc 999
          ∷ pos 1000
          ∷ [])
        ∷ [])
      (0x00 ∷ 0x00 ∷ 0xFF ∷ 0x80 ∷ 0x01 ∷ [])

abbrev pub test_one_small_non_uniform : Result (Unit {0})
test_one_small_non_uniform =
    run_queue_test
      ((negsuc 0
          ∷ negsuc 0
          ∷ negsuc 0
          ∷ negsuc 19
          ∷ negsuc 5000
          ∷ negsuc 0
          ∷ negsuc 19
          ∷ negsuc 100
          ∷ negsuc 0
          ∷ negsuc 19
          ∷ negsuc 19
          ∷ negsuc 5019
          ∷ negsuc 0
          ∷ negsuc 0
          ∷ negsuc 0
          ∷ negsuc 0
          ∷ pos 20
          ∷ pos 1
          ∷ pos 1
          ∷ pos 20
          ∷ pos 20
          ∷ pos 1
          ∷ pos 4001
          ∷ pos 1
          ∷ pos 20
          ∷ negsuc 19
          ∷ negsuc 8000
          ∷ negsuc 0
          ∷ negsuc 19
          ∷ negsuc 19
          ∷ negsuc 200
          ∷ negsuc 19
          ∷ negsuc 0
          ∷ negsuc 0
          ∷ negsuc 19
          ∷ negsuc 19
          ∷ negsuc 19
          ∷ negsuc 19
          ∷ negsuc 0
          ∷ pos 1
          ∷ [])
        ∷ [])
      (0x00 ∷ 0x00 ∷ 0xFF ∷ 0x80 ∷ 0x01 ∷ [])

abbrev pub test_multiple : Result (Unit {0})
test_multiple =
    run_queue_test
      ((negsuc 999
          ∷ negsuc 999
          ∷ negsuc 999
          ∷ negsuc 999
          ∷ negsuc 999
          ∷ negsuc 999
          ∷ negsuc 999
          ∷ negsuc 999
          ∷ negsuc 999
          ∷ negsuc 999
          ∷ negsuc 999
          ∷ negsuc 999
          ∷ negsuc 999
          ∷ negsuc 999
          ∷ negsuc 999
          ∷ negsuc 999
          ∷ [])
        ∷ (negsuc 999
            ∷ negsuc 999
            ∷ negsuc 999
            ∷ negsuc 999
            ∷ negsuc 999
            ∷ negsuc 999
            ∷ negsuc 999
            ∷ negsuc 999
            ∷ negsuc 999
            ∷ negsuc 999
            ∷ negsuc 999
            ∷ negsuc 999
            ∷ negsuc 999
            ∷ negsuc 999
            ∷ negsuc 999
            ∷ pos 1000
            ∷ [])
        ∷ (negsuc 999
            ∷ negsuc 999
            ∷ negsuc 999
            ∷ negsuc 999
            ∷ negsuc 999
            ∷ negsuc 999
            ∷ negsuc 999
            ∷ negsuc 999
            ∷ negsuc 999
            ∷ negsuc 999
            ∷ negsuc 999
            ∷ negsuc 999
            ∷ negsuc 999
            ∷ negsuc 999
            ∷ pos 1000
            ∷ negsuc 999
            ∷ [])
        ∷ (negsuc 999
            ∷ negsuc 999
            ∷ negsuc 999
            ∷ negsuc 999
            ∷ negsuc 999
            ∷ negsuc 999
            ∷ negsuc 999
            ∷ negsuc 999
            ∷ negsuc 999
            ∷ negsuc 999
            ∷ negsuc 999
            ∷ negsuc 999
            ∷ negsuc 999
            ∷ negsuc 999
            ∷ pos 1000
            ∷ pos 1000
            ∷ [])
        ∷ (negsuc 999
            ∷ negsuc 999
            ∷ negsuc 999
            ∷ negsuc 999
            ∷ negsuc 999
            ∷ negsuc 999
            ∷ negsuc 999
            ∷ negsuc 999
            ∷ negsuc 999
            ∷ negsuc 999
            ∷ negsuc 999
            ∷ negsuc 999
            ∷ negsuc 999
            ∷ pos 1000
            ∷ negsuc 999
            ∷ negsuc 999
            ∷ [])
        ∷ (negsuc 999
            ∷ negsuc 999
            ∷ negsuc 999
            ∷ negsuc 999
            ∷ negsuc 999
            ∷ negsuc 999
            ∷ negsuc 999
            ∷ negsuc 999
            ∷ negsuc 999
            ∷ negsuc 999
            ∷ negsuc 999
            ∷ negsuc 999
            ∷ negsuc 999
            ∷ pos 1000
            ∷ negsuc 999
            ∷ pos 1000
            ∷ [])
        ∷ (negsuc 999
            ∷ negsuc 999
            ∷ negsuc 999
            ∷ negsuc 999
            ∷ negsuc 999
            ∷ negsuc 999
            ∷ negsuc 999
            ∷ pos 1000
            ∷ negsuc 999
            ∷ negsuc 999
            ∷ negsuc 999
            ∷ negsuc 999
            ∷ negsuc 999
            ∷ negsuc 999
            ∷ negsuc 999
            ∷ pos 1000
            ∷ [])
        ∷ (pos 1000
            ∷ negsuc 999
            ∷ negsuc 999
            ∷ negsuc 999
            ∷ negsuc 999
            ∷ negsuc 999
            ∷ negsuc 999
            ∷ negsuc 999
            ∷ negsuc 999
            ∷ negsuc 999
            ∷ negsuc 999
            ∷ negsuc 999
            ∷ negsuc 999
            ∷ negsuc 999
            ∷ negsuc 999
            ∷ pos 1000
            ∷ [])
        ∷ (negsuc 999
            ∷ negsuc 999
            ∷ negsuc 999
            ∷ negsuc 999
            ∷ negsuc 999
            ∷ negsuc 999
            ∷ negsuc 999
            ∷ pos 1000
            ∷ negsuc 999
            ∷ negsuc 999
            ∷ negsuc 999
            ∷ pos 1000
            ∷ negsuc 999
            ∷ negsuc 999
            ∷ negsuc 999
            ∷ pos 1000
            ∷ [])
        ∷ (negsuc 999
            ∷ negsuc 999
            ∷ negsuc 999
            ∷ negsuc 999
            ∷ negsuc 999
            ∷ negsuc 999
            ∷ negsuc 999
            ∷ negsuc 999
            ∷ negsuc 999
            ∷ negsuc 999
            ∷ negsuc 999
            ∷ negsuc 999
            ∷ negsuc 999
            ∷ negsuc 999
            ∷ negsuc 999
            ∷ negsuc 999
            ∷ [])
        ∷ [])
      (0x00 ∷ 0x00 ∷ 0x00 ∷ 0x01 ∷ 0x00 ∷ 0x02 ∷ 0x00 ∷ 0x03 ∷ 0x00 ∷ 0x04 ∷ 0x00 ∷ 0x05 ∷ 0x01
        ∷ 0x01 ∷ 0x80 ∷ 0x01 ∷ 0x01 ∷ 0x11 ∷ 0x00 ∷ 0x00 ∷ [])

abbrev pub softbits_test_001_t : (List ℤ → List ℤ → Bool) → Result (Unit {0})
softbits_test_001_t almost_equal =
    run_softbits_test almost_equal (0x00 ∷ 0x01 ∷ 0x85 ∷ 0xAA ∷ 0x55 ∷ 0xFF ∷ [])
      (negsuc 1999999
        ∷ negsuc 1999999
        ∷ negsuc 1999999
        ∷ negsuc 1999999
        ∷ negsuc 1999999
        ∷ negsuc 1999999
        ∷ negsuc 1999999
        ∷ negsuc 1999999
        ∷ negsuc 1999999
        ∷ negsuc 1999999
        ∷ negsuc 1999999
        ∷ negsuc 1999999
        ∷ negsuc 1999999
        ∷ negsuc 1999999
        ∷ negsuc 1999999
        ∷ pos 2000000
        ∷ pos 2000000
        ∷ negsuc 1999999
        ∷ negsuc 1999999
        ∷ negsuc 1999999
        ∷ negsuc 1999999
        ∷ pos 2000000
        ∷ negsuc 1999999
        ∷ pos 2000000
        ∷ pos 2000000
        ∷ negsuc 1999999
        ∷ pos 2000000
        ∷ negsuc 1999999
        ∷ pos 2000000
        ∷ negsuc 1999999
        ∷ pos 2000000
        ∷ negsuc 1999999
        ∷ negsuc 1999999
        ∷ pos 2000000
        ∷ negsuc 1999999
        ∷ pos 2000000
        ∷ negsuc 1999999
        ∷ pos 2000000
        ∷ negsuc 1999999
        ∷ pos 2000000
        ∷ pos 2000000
        ∷ pos 2000000
        ∷ pos 2000000
        ∷ pos 2000000
        ∷ pos 2000000
        ∷ pos 2000000
        ∷ pos 2000000
        ∷ pos 2000000
        ∷ [])
      (pos 2000000)

abbrev pub softbits_test_002_t : (List ℤ → List ℤ → Bool) → Result (Unit {0})
softbits_test_002_t almost_equal =
    run_softbits_test almost_equal (0x00 ∷ 0x01 ∷ 0x85 ∷ 0xAA ∷ 0x55 ∷ 0xFF ∷ [])
      (negsuc 3999
        ∷ negsuc 3999
        ∷ negsuc 3999
        ∷ negsuc 3999
        ∷ negsuc 3999
        ∷ negsuc 3999
        ∷ negsuc 3999
        ∷ negsuc 3999
        ∷ negsuc 3999
        ∷ negsuc 3999
        ∷ negsuc 3999
        ∷ negsuc 3999
        ∷ negsuc 3999
        ∷ negsuc 3999
        ∷ negsuc 3999
        ∷ pos 4000
        ∷ pos 4000
        ∷ negsuc 3999
        ∷ negsuc 3999
        ∷ negsuc 3999
        ∷ negsuc 3999
        ∷ pos 4000
        ∷ negsuc 3999
        ∷ pos 4000
        ∷ pos 4000
        ∷ negsuc 3999
        ∷ pos 4000
        ∷ negsuc 3999
        ∷ pos 4000
        ∷ negsuc 3999
        ∷ pos 4000
        ∷ negsuc 3999
        ∷ negsuc 3999
        ∷ pos 4000
        ∷ negsuc 3999
        ∷ pos 4000
        ∷ negsuc 3999
        ∷ pos 4000
        ∷ negsuc 3999
        ∷ pos 4000
        ∷ pos 4000
        ∷ pos 4000
        ∷ pos 4000
        ∷ pos 4000
        ∷ pos 4000
        ∷ pos 4000
        ∷ pos 4000
        ∷ pos 4000
        ∷ [])
      (pos 4000)
