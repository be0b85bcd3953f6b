-- ===== src/Pdu/Message.antt =====
-- Messages of GNU Radio's polymorphic type, as far as the blocks of lib/ look into them, and the
-- delivery of messages to a block, one after the other.
use gr_ccsds.Prelude.{
  Option, none, some, Bool, List, [], ◌∷◌, ◌++◌, Text, String, ◌=s=◌, if◌then◌else◌,
}
use gr_ccsds.Prelude.Int.{ℤ}

-- A value in a header. Of a float only its order is used: it stands in thousandths.
pub data Field : Type 0 where
  whole thousandths : ℤ → Field
  flag : Bool → Field
  word : Text → Field

abbrev pub Header : Type 0
Header = List (String × Field)

-- A vector of bytes or of floats, a vector of values (of whole numbers, as far as the tests go), or
-- anything else.
pub data Payload : Type 0 where
  blob values : Text → Payload
  floats : List ℤ → Payload
  no_vector : Payload

-- The end of the stream, a value that is no pair, a pair whose first part is no dictionary, and a pair
-- of a header and a payload.
pub data Message : Type 0 where
  eof no_pair : Message
  no_dict : Payload → Message
  pdu : Header → Payload → Message

-- dict_ref(header, key, nil)
unfoldable pub dict_ref : Header → String → Option Field
dict_ref [] key = none
dict_ref ((k, v) ∷ h) key = let rest = dict_ref h key in if k =s= key then some v else rest

-- What a block does with a message: the state after it, and the messages that it publishes.
abbrev pub Handler : Type 0 → Type 0
Handler S = S → Message → S × List Message

-- All messages in turn.
unfoldable pub deliver : {S : Type 0} → Handler S → S → List Message → S × List Message
deliver handle s [] = (s, [])
deliver handle s (m ∷ ms) =
    let (s', out) = handle s m in let (s'', rest) = deliver handle s' ms in (s'', out ++ rest)

-- What the block publishes in all.
abbrev pub published : {S : Type 0} → Handler S → S → List Message → List Message
published handle s ms = (deliver handle s ms).1
